-- ===== src/Init/Block.antt =====
-- The initialization block that the chip reads.
use maxxuss_amdpcnet_v.Base.{
  ℕ, ◌+◌, ◌-◌, ◌*◌, ◌^◌, ◌<◌, ◌≡◌, refl, arith, ap, ◌∙◌, Bool, bit_or, u16, u32,
}
use maxxuss_amdpcnet_v.World.{Env}
use maxxuss_amdpcnet_v.Hw.{ether_addr_len}
use maxxuss_amdpcnet_v.Softc.{LncSoftc}
use maxxuss_amdpcnet_v.State.{PcNet, with_sc}
use maxxuss_amdpcnet_v.Port.{pcnet32_stop}
use maxxuss_amdpcnet_v.Init.{
  init_rings, iokit_kvtop, fill_init_block, prepare_memory, probe_dwio, lnc_init,
}
use maxxuss_amdpcnet_v.Init.Rings.{IsAllocated, recv_entry_lem, trans_entry_lem}
use maxxuss_amdpcnet_v.Init.Ready.{
  init_rings_next, flagged, read_station_address-sc, probed-sc, probed-IsAllocated, lnc_init-sc,
}

module _ (env : Env) where
  prepared_block :
      (on : Bool) (s : PcNet)
      → let t = init_rings env (flagged env on s.sc) in
        let b = (prepare_memory env on s).sc.init_block in
        (b.rx_ring ≡ iokit_kvtop env t (t.recv_entries 0).md_addr)
        × (b.tx_ring ≡ iokit_kvtop env t (t.trans_entries 0).md_addr)
        × (b.tlen_rlen ≡ u16 (bit_or (t.ntdre * 2 ^ 12) (t.nrdre * 2 ^ 4)))
        × (b.mode ≡ u16 t.nic_mode)
  unfolding prepare_memory fill_init_block
  prepared_block on s =
      rw
        (read_station_address-sc env ether_addr_len 0
          (with_sc (init_rings env (flagged env on s.sc)) s))
        (refl, refl, refl, refl)

  kvtop_lem :
      (sc : LncSoftc) (a : ℕ)
      → sc.recv_ring < 2 ^ 32
      → a < 2 ^ 32
      → iokit_kvtop env (init_rings env sc) (sc.recv_ring + a) ≡ u32 (env.physical a)
  unfolding init_rings
  kvtop_lem sc a h k =
      let e : u32 (sc.recv_ring + a + 2 ^ 32 - sc.recv_ring) ≡ a = omega arith in rw e

  init_rings_mode : (sc : LncSoftc) → (init_rings env sc).nic_mode ≡ sc.nic_mode
  unfolding init_rings
  init_rings_mode sc = refl

  -- With the memory allocated, the initialization block that the chip reads holds the physical
  -- addresses of the two descriptor rings, both rings' sizes as powers of two, and the mode.
  pub lnc_init_block :
      (s : PcNet)
      → IsAllocated s.sc
      → let b = (lnc_init env s).sc.init_block in
        (b.rx_ring ≡ u32 (env.physical 544))
        × (b.tx_ring ≡ u32 (env.physical 1056))
        × (b.tlen_rlen ≡ 0x5050)
        × (b.mode ≡ u16 s.sc.nic_mode)
  lnc_init_block s ok =
      let p = probe_dwio env (pcnet32_stop s) in
      let c = flagged env p.0 p.1.sc in
      let ok' = probed-IsAllocated env s ok in
      let base : c.recv_ring < 2 ^ 32 = omega (arith, ok'.fits) in
      let sizes = init_rings_next env c ok' in
      let b = prepared_block p.0 p.1 in
      let r : ((init_rings env c).recv_entries 0).md_addr ≡ c.recv_ring + 544 =
        omega (arith, ap (λ e. e.md_addr) (recv_entry_lem env ok' 0 (omega arith))) in
      let t : ((init_rings env c).trans_entries 0).md_addr ≡ c.recv_ring + 1056 =
        omega (arith, ap (λ e. e.md_addr) (trans_entry_lem env ok' 0 (omega arith))) in
      rw (lnc_init-sc env s) (
        b.0 ∙ ap (iokit_kvtop env (init_rings env c)) r ∙ kvtop_lem c 544 base (omega arith),
        b.1 ∙ ap (iokit_kvtop env (init_rings env c)) t ∙ kvtop_lem c 1056 base (omega arith),
        b.2 ∙ rw (sizes.0, sizes.1) refl,
        b.3 ∙ ap u16 (init_rings_mode c ∙ ap (λ x. x.nic_mode) (probed-sc env s)),
      )
