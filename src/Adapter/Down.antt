-- ===== src/Adapter/Down.antt =====
-- Turning the adapter off: the flags of the interface after `shut_down`, the part of `disableAdapter` of
-- Source/PCNet.cpp for the lowest level, with `lnc_down` of Source/PCNet.h.
use maxxuss_amdpcnet_v.Base.{◌≡◌, refl, arith, ap, ◌∙◌, true, false, has, ℕ}
use maxxuss_amdpcnet_v.World.{Env, cancel_timeout}
use maxxuss_amdpcnet_v.Hw.{medium_index_none, ether_addr_len}
use maxxuss_amdpcnet_v.Softc.{LncSoftc, lnc_iff_drv_running}
use maxxuss_amdpcnet_v.State.{PcNet, with_sc, act}
use maxxuss_amdpcnet_v.Port.{
  pcnet32_stop, pcnet32_start, pcnet32_reset, write_csr, read_csr, read_bcr, write_bcr,
}
use maxxuss_amdpcnet_v.Init.{
  lnc_init, start_chip, prepare_memory, fill_init_block, init_rings, probe_dwio, program_chip,
  wait_idon, idon_polls,
}
use maxxuss_amdpcnet_v.Init.Frame.{wait_idon-frame, program_chip-frame}
use maxxuss_amdpcnet_v.Init.Ready.{flagged, probed-sc, read_station_address-sc}
use maxxuss_amdpcnet_v.Intr.{disable_hardware_interrupts}
use maxxuss_amdpcnet_v.Medium.{lnc_set_medium}
use maxxuss_amdpcnet_v.Phy.{phy_set_medium}
use maxxuss_amdpcnet_v.Adapter.{lnc_down, init_adapter, reset_chip, shut_down}

module _ (env : Env) where
  start_chip_low :
      (s : PcNet) → s.sc.if_drv_flags ≡ 0 → has (start_chip env s).sc.if_drv_flags 1 ≡ false
  unfolding start_chip read_csr pcnet32_start
  start_chip_low s h = ground (arith, h)

  init_rings_flags : (sc : LncSoftc) → (init_rings env sc).if_drv_flags ≡ sc.if_drv_flags
  unfolding init_rings
  init_rings_flags sc = refl

  prepared_flags :
      (s : PcNet)
      → let p = probe_dwio env (pcnet32_stop s) in
        (prepare_memory env p.0 p.1).sc.if_drv_flags ≡ s.sc.if_drv_flags
  unfolding prepare_memory fill_init_block
  prepared_flags s =
      let p = probe_dwio env (pcnet32_stop s) in
      let t = with_sc (init_rings env (flagged env p.0 p.1.sc)) p.1 in
      ap (λ c. c.if_drv_flags) (read_station_address-sc env ether_addr_len 0 t)
      ∙ init_rings_flags (flagged env p.0 p.1.sc)
      ∙ ap (λ c. c.if_drv_flags) (probed-sc env s)

  -- `lnc_init` starts the chip, if it does, with the flags that it found.
  pub started_from :
      (s : PcNet)
      → (u : PcNet) × (lnc_init env s ≡ start_chip env u) × (u.sc.if_drv_flags ≡ s.sc.if_drv_flags)
  unfolding lnc_init
  started_from s =
      let p = probe_dwio env (pcnet32_stop s) in
      let s1 = prepare_memory env p.0 p.1 in
      let s2 = program_chip env s1 in
      (
        wait_idon env (idon_polls env) s2,
        refl,
        ap {A = PcNet} (λ x. x.sc.if_drv_flags) (wait_idon-frame env (idon_polls env) s2)
            ∙ ap {A = PcNet} (λ x. x.sc.if_drv_flags) (program_chip-frame env s1)
            ∙ prepared_flags s,
      )

  lnc_init_low :
      (s : PcNet) → s.sc.if_drv_flags ≡ 0 → has (lnc_init env s).sc.if_drv_flags 1 ≡ false
  lnc_init_low s h = let (u, e, flags) = started_from s in rw e (start_chip_low u (flags ∙ h))

  reset_sc : (s : PcNet) → (init_adapter env reset_chip s).1.sc ≡ s.sc
  unfolding init_adapter disable_hardware_interrupts pcnet32_reset pcnet32_stop write_csr
  reset_sc s = ground arith

  set_medium_sc : (i : ℕ) (s : PcNet) → (phy_set_medium env i s).1.sc ≡ s.sc
  unfolding phy_set_medium lnc_set_medium read_bcr write_bcr
  set_medium_sc i s = ground arith

  down_sc : (s : PcNet) → has s.sc.if_drv_flags 1 ≡ false → (lnc_down s).sc ≡ s.sc
  unfolding lnc_down pcnet32_stop write_csr
  down_sc s clear = ground (arith, clear)

  shut_down_sc : (s : PcNet) → has s.sc.if_drv_flags 1 ≡ false → (shut_down env s).sc ≡ s.sc
  unfolding shut_down
  shut_down_sc s clear =
      let a = (init_adapter env reset_chip (act cancel_timeout s)).1 in
      let e = reset_sc (act cancel_timeout s) in
      let d = down_sc a (rw e clear) in
      ground (arith, set_medium_sc medium_index_none (lnc_down a), d, e)

  -- If the interface flags are clear before `lnc_init`, and `lnc_init` marks the adapter as running, it is
  -- marked as running after `shut_down`, too, and the soft state is the one that `lnc_init` left.
  pub shut_down_keeps_running :
      (s : PcNet)
      → s.sc.if_drv_flags ≡ 0
      → has (lnc_init env s).sc.if_drv_flags lnc_iff_drv_running ≡ true
      → let t = shut_down env (lnc_init env s) in
        (has t.sc.if_drv_flags lnc_iff_drv_running ≡ true) × (t.sc ≡ (lnc_init env s).sc)
  shut_down_keeps_running s clear running =
      let same = shut_down_sc (lnc_init env s) (lnc_init_low s clear) in (rw same running, same)
