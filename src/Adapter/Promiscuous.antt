-- ===== src/Adapter/Promiscuous.antt =====
-- The promiscuous mode, turned on and off again.
use maxxuss_amdpcnet_v.Base.{
  ℕ, ◌≡◌, refl, arith, ap, ap₂, ◌∙◌, Bool, true, false, has, bit_and, bit_or, not32, ◌==◌, not,
}
use maxxuss_amdpcnet_v.Base.Bits.{has_of-bit_or, bit_and-bit_or}
use maxxuss_amdpcnet_v.Base.Masks.{bit_and_assoc, has-low_half, has_masked, bit_or-zero}
use maxxuss_amdpcnet_v.World.{Env}
use maxxuss_amdpcnet_v.Hw.{ether_addr_len}
use maxxuss_amdpcnet_v.Hw.Registers.{mode_prom}
use maxxuss_amdpcnet_v.Softc.{
  lnc_iff_promisc, lnc_iff_broadcast, lnc_iff_simplex, lnc_iff_multicast,
}
use maxxuss_amdpcnet_v.State.{PcNet, with_sc}
use maxxuss_amdpcnet_v.Port.{pcnet32_stop}
use maxxuss_amdpcnet_v.Init.{lnc_init, prepare_memory, probe_dwio, fill_init_block, init_rings}
use maxxuss_amdpcnet_v.Init.Rings.{IsAllocated}
use maxxuss_amdpcnet_v.Init.Ready.{
  flagged, read_station_address-sc, probed-sc, lnc_init-sc, IsReady, lnc_init-IsReady,
}
use maxxuss_amdpcnet_v.Init.Block.{lnc_init_block}
use maxxuss_amdpcnet_v.Adapter.{set_promiscuous_mode, lnc_set_promiscuous_mode}

-- The flags that every initialization sets.
abbrev always : ℕ
always = bit_or (bit_or lnc_iff_broadcast lnc_iff_simplex) lnc_iff_multicast

module _ (env : Env) where
  prepared_keeps :
      (on : Bool) (s : PcNet)
      → let t = (prepare_memory env on s).sc in
        (t.nrdre ≡ s.sc.nrdre)
        × (t.ntdre ≡ s.sc.ntdre)
        × (t.recv_ring ≡ s.sc.recv_ring)
        × (t.nic_mode ≡ s.sc.nic_mode)
        × (t.if_flags ≡ bit_or s.sc.if_flags always)
  unfolding prepare_memory fill_init_block init_rings
  prepared_keeps on s =
      rw
        (read_station_address-sc env ether_addr_len 0
          (with_sc (init_rings env (flagged env on s.sc)) s))
        (refl, refl, refl, refl, refl)

  -- What an initialization keeps of the soft state.
  lnc_init_keeps :
      (s : PcNet)
      → let t = (lnc_init env s).sc in
        (t.nrdre ≡ s.sc.nrdre)
        × (t.ntdre ≡ s.sc.ntdre)
        × (t.recv_ring ≡ s.sc.recv_ring)
        × (t.nic_mode ≡ s.sc.nic_mode)
        × (t.if_flags ≡ bit_or s.sc.if_flags always)
  lnc_init_keeps s =
      let p = probe_dwio env (pcnet32_stop s) in
      let k = prepared_keeps p.0 p.1 in
      let i = lnc_init-sc env s in
      let q = probed-sc env s in
      (
        ap (λ c. c.nrdre) i ∙ k.0 ∙ ap (λ c. c.nrdre) q,
        ap (λ c. c.ntdre) i ∙ k.1 ∙ ap (λ c. c.ntdre) q,
        ap (λ c. c.recv_ring) i ∙ k.2 ∙ ap (λ c. c.recv_ring) q,
        ap (λ c. c.nic_mode) i ∙ k.3 ∙ ap (λ c. c.nic_mode) q,
        ap (λ c. c.if_flags) i ∙ k.4 ∙ ap (λ c. bit_or c.if_flags always) q,
      )

  lnc_init-IsAllocated : (s : PcNet) → IsAllocated s.sc → IsAllocated (lnc_init env s).sc
  lnc_init-IsAllocated s ok =
      let k = lnc_init_keeps s in
      record {
        recv_size = k.0 ∙ ok.recv_size;
        trans_size = k.1 ∙ ok.trans_size;
        aligned = rw (k.2) ok.aligned;
        fits = rw (k.2) ok.fits;
      }

  -- The soft states from which the mode is turned on and off.
  abbrev asked_on : PcNet → PcNet
  asked_on s =
      with_sc
        (record s.sc {
          if_flags = bit_or s.sc.if_flags lnc_iff_promisc;
          nic_mode = bit_or s.sc.nic_mode mode_prom;
        })
        s

  abbrev asked_off : PcNet → PcNet
  asked_off s =
      with_sc
        (record s.sc {
          if_flags = bit_and s.sc.if_flags (not32 lnc_iff_promisc);
          nic_mode = bit_and s.sc.nic_mode (not32 mode_prom);
        })
        s

  -- The rings' memory is not touched by the change.
  on_IsAllocated : (s : PcNet) → IsAllocated s.sc → IsAllocated (asked_on s).sc
  on_IsAllocated s ok = record {
    recv_size = ok.recv_size;
    trans_size = ok.trans_size;
    aligned = ok.aligned;
    fits = ok.fits;
  }

  off_IsAllocated :
      (s : PcNet) → IsAllocated s.sc → IsAllocated (asked_off (lnc_init env (asked_on s))).sc
  off_IsAllocated s ok =
      let i = lnc_init-IsAllocated (asked_on s) (on_IsAllocated s ok) in
      record {
        recv_size = i.recv_size;
        trans_size = i.trans_size;
        aligned = i.aligned;
        fits = i.fits;
      }

  on_flag : (s : PcNet) → has (lnc_init env (asked_on s)).sc.if_flags lnc_iff_promisc ≡ true
  on_flag s =
      let k = lnc_init_keeps (asked_on s) in
      rw
        (
          k.4,
          has_of-bit_or (bit_or s.sc.if_flags lnc_iff_promisc) always lnc_iff_promisc,
          has_of-bit_or s.sc.if_flags lnc_iff_promisc lnc_iff_promisc,
        )
        (ground arith)

  off_flag : (s : PcNet) → has (lnc_init env (asked_off s)).sc.if_flags lnc_iff_promisc ≡ false
  off_flag s =
      let k = lnc_init_keeps (asked_off s) in
      rw
        (
          k.4,
          has_of-bit_or (bit_and s.sc.if_flags (not32 lnc_iff_promisc)) always lnc_iff_promisc,
          has_masked s.sc.if_flags (not32 lnc_iff_promisc) lnc_iff_promisc refl,
        )
        refl

  -- The mode in the block that an initialization leaves, by the bits of a mask.
  mode_bits :
      (s : PcNet) (q : ℕ)
      → IsAllocated s.sc
      → bit_and 0xffff q ≡ q
      → bit_and (lnc_init env s).sc.init_block.mode q ≡ bit_and s.sc.nic_mode q
  mode_bits s q ok h =
      ap (λ m. bit_and m q) (lnc_init_block env s ok).3 ∙ has-low_half s.sc.nic_mode q h

  -- Turned on and off, at the soft states above.
  kept_bits :
      (s : PcNet) (q : ℕ)
      → IsAllocated s.sc
      → bit_and mode_prom q ≡ 0
      → bit_and 0xffff q ≡ q
      → bit_and (not32 mode_prom) q ≡ q
      → let on = lnc_init env (asked_on s) in
        bit_and (lnc_init env (asked_off on)).sc.init_block.mode q ≡ bit_and s.sc.nic_mode q
  kept_bits s q ok other low rest =
      let on = lnc_init env (asked_on s) in
      mode_bits (asked_off on) q (off_IsAllocated s ok) low
      ∙ bit_and_assoc on.sc.nic_mode (not32 mode_prom) q
      ∙ ap₂ bit_and (lnc_init_keeps (asked_on s)).3 rest
      ∙ bit_and-bit_or s.sc.nic_mode mode_prom q
      ∙ ap (bit_or (bit_and s.sc.nic_mode q)) other
      ∙ bit_or-zero (bit_and s.sc.nic_mode q)

  on_mode :
      (s : PcNet)
      → IsAllocated s.sc
      → has (lnc_init env (asked_on s)).sc.init_block.mode mode_prom ≡ true
  on_mode s ok =
      ap (λ n. not (n == 0)) (mode_bits (asked_on s) mode_prom (on_IsAllocated s ok) refl)
      ∙ has_of-bit_or s.sc.nic_mode mode_prom mode_prom
      ∙ ground arith

  off_mode :
      (s : PcNet)
      → IsAllocated s.sc
      → let on = lnc_init env (asked_on s) in
        has (lnc_init env (asked_off on)).sc.init_block.mode mode_prom ≡ false
  off_mode s ok =
      let on = lnc_init env (asked_on s) in
      ap (λ n. not (n == 0)) (mode_bits (asked_off on) mode_prom (off_IsAllocated s ok) refl)
      ∙ has_masked on.sc.nic_mode (not32 mode_prom) mode_prom refl

  turned_off :
      (s : PcNet)
      → has s.sc.if_flags lnc_iff_promisc ≡ true
      → (set_promiscuous_mode env false s).1 ≡ lnc_init env (asked_off s)
  unfolding set_promiscuous_mode lnc_set_promiscuous_mode
  turned_off s on = ground (arith, on)

  -- With the memory allocated: turning the promiscuous mode on gives the chip an initialization block
  -- with the promiscuous bit, and turning it off again one without it, in which the other bits of the
  -- mode, those in a mask `q` of 16 bits without the promiscuous bit, are as in `nic_mode` before;
  -- the flag of the interface follows, and both rings are ready again.
  pub set_promiscuous_mode_lem :
      (s : PcNet) (q : ℕ)
      → IsAllocated s.sc
      → bit_and mode_prom q ≡ 0
      → bit_and 0xffff q ≡ q
      → bit_and (not32 mode_prom) q ≡ q
      → let on = (set_promiscuous_mode env true s).1 in
        let off = (set_promiscuous_mode env false on).1 in
        (has on.sc.init_block.mode mode_prom ≡ true)
        × (has on.sc.if_flags lnc_iff_promisc ≡ true)
        × (has off.sc.init_block.mode mode_prom ≡ false)
        × (has off.sc.if_flags lnc_iff_promisc ≡ false)
        × (bit_and off.sc.init_block.mode q ≡ bit_and s.sc.nic_mode q)
        × IsReady off.sc
  unfolding set_promiscuous_mode lnc_set_promiscuous_mode
  set_promiscuous_mode_lem s q ok other low rest =
      let on = lnc_init env (asked_on s) in
      rw (turned_off on (on_flag s)) (
        on_mode s ok,
        on_flag s,
        off_mode s ok,
        off_flag on,
        kept_bits s q ok other low rest,
        lnc_init-IsReady env (asked_off on) (off_IsAllocated s ok),
      )
