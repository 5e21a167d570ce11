-- ===== src/Window/Chip.antt =====
-- Initialization, reset, the multicast filter, and the reports on the link.
use maxxuss_amdpcnet_v.Base.{
  ℕ, zero, suc, ◌+◌, ◌≤◌, arith, Bool, List, Option, has, update, if_both,
}
use maxxuss_amdpcnet_v.World.{sleep, Env}
use maxxuss_amdpcnet_v.Hw.{medium_index_10_fd, ether_addr_len}
use maxxuss_amdpcnet_v.Hw.Registers.{csr, csr_idon, lnkst, laf_start}
use maxxuss_amdpcnet_v.State.{act, PcNet, with_sc}
use maxxuss_amdpcnet_v.Port.{
  write_csr, csr_read8, read_csr, read_bcr, write_bcr, pcnet32_stop, pcnet32_start, pcnet32_reset,
}
use maxxuss_amdpcnet_v.Medium.{lnc_set_medium, lnc_get_medium, lnc_is_medium_available}
use maxxuss_amdpcnet_v.Init.{
  probe_dwio, read_station_address, program_chip, wait_idon, idon_polls, start_chip, prepare_memory,
  lnc_init, lnc_reset,
}
use maxxuss_amdpcnet_v.Multicast.{write_filter, lnc_set_multicast, lnc_setladrf}
use maxxuss_amdpcnet_v.Phy.{
  phy_set_medium, phy_report_link_status, report_up, report_down, lnc_watchdog,
}
use maxxuss_amdpcnet_v.Window.{WellTyped, Steady, steady}
use maxxuss_amdpcnet_v.Window.Registers.{
  write_csr-Steady, write_bcr-Steady, pcnet32_stop-Steady, pcnet32_start-Steady,
  pcnet32_reset-Steady, csr_read8-Steady, read_csr-Steady, read_bcr-Steady, lnc_set_medium-Steady,
}

module _ (env : Env) {T : Type 0} {o : Bool} {a c : ℕ} where
  probe_dwio-Steady : (s : PcNet) → Steady T o a c s → Steady T o a c (probe_dwio env s).1
  unfolding probe_dwio
  probe_dwio-Steady s h = ground arith

  read_station_address-Steady :
      (n i : ℕ) (s : PcNet)
      → i + n ≤ 32
      → Steady T o a c s
      → Steady T o a c (read_station_address env n i s)
  unfolding read_station_address
  read_station_address-Steady zero i s lt h = h
  read_station_address-Steady (suc n) i s lt h =
      let (v, s1) = csr_read8 env i s in
      read_station_address-Steady n (i + 1)
        (with_sc
          (record s1.sc {
            init_block = record s1.sc.init_block {
              phys_addr = update s1.sc.init_block.phys_addr i v;
            };
          })
          s1)
        (omega arith) (csr_read8-Steady env s h i (omega arith))

  prepare_memory-Steady :
      (on : Bool) (s : PcNet) → Steady T o a c s → Steady T o a c (prepare_memory env on s)
  unfolding prepare_memory
  prepare_memory-Steady on s h = read_station_address-Steady ether_addr_len 0 _ (omega arith) h

  program_chip-Steady : (s : PcNet) → Steady T o a c s → Steady T o a c (program_chip env s)
  unfolding program_chip
  program_chip-Steady s h =
      let s1 = write_bcr 20 2 (pcnet32_reset env s) in
      let s2 = (lnc_set_medium env medium_index_10_fd s1).1 in
      let s3 = (read_bcr env lnkst s2).1 in
      let h1 = write_bcr-Steady 20 2 (pcnet32_reset env s) (pcnet32_reset-Steady env s h) in
      let h2 = lnc_set_medium-Steady env s1 h1 medium_index_10_fd in
      let h3 = read_bcr-Steady env s2 h2 lnkst in
      write_csr-Steady _ _ _ (
        write_csr-Steady _ _ _
          (write_csr-Steady _ _ _ (write_csr-Steady _ _ _ (write_bcr-Steady _ _ s3 h3))))

  wait_idon-Steady : (n : ℕ) (s : PcNet) → Steady T o a c s → Steady T o a c (wait_idon env n s)
  unfolding wait_idon
  wait_idon-Steady zero s h = h
  wait_idon-Steady (suc n) s h =
      let (v, s1) = read_csr env csr s in
      let h1 = read_csr-Steady env s h csr in
      if_both (Steady T o a c) (has v csr_idon) _ _ h1 (wait_idon-Steady n s1 h1)

  start_chip-Steady : (s : PcNet) → Steady T o a c s → Steady T o a c (start_chip env s)
  unfolding start_chip read_csr pcnet32_start
  start_chip-Steady s h = ground arith

  pub lnc_init-Steady : (s : PcNet) → Steady T o a c s → Steady T o a c (lnc_init env s)
  unfolding lnc_init
  lnc_init-Steady s h =
      let p = probe_dwio env (pcnet32_stop s) in
      let h1 = probe_dwio-Steady (pcnet32_stop s) (pcnet32_stop-Steady s h) in
      start_chip-Steady _ (
        wait_idon-Steady (idon_polls env) _
          (program_chip-Steady _ (prepare_memory-Steady p.0 p.1 h1)))

  pub lnc_reset-Steady : (s : PcNet) → Steady T o a c s → Steady T o a c (lnc_reset env s)
  unfolding lnc_reset
  lnc_reset-Steady s h =
      let r = pcnet32_reset-Steady env (pcnet32_stop s) (pcnet32_stop-Steady s h) in
      lnc_init-Steady (act (sleep 20) (pcnet32_reset env (pcnet32_stop s)))
        (λ x. (tt, r.0 x), r.1, r.2, r.3)

  write_filter-Steady :
      (n i : ℕ) (s : PcNet) → Steady T o a c s → Steady T o a c (write_filter env n i s)
  unfolding write_filter
  write_filter-Steady zero i s h = h
  write_filter-Steady (suc n) i s h = write_filter-Steady n (i + 1) _ (write_csr-Steady i _ s h)

  pub lnc_set_multicast-Steady :
      (addrs : Option (List (List ℕ))) (s : PcNet)
      → Steady T o a c s
      → Steady T o a c (lnc_set_multicast env addrs s)
  unfolding lnc_set_multicast lnc_setladrf
  lnc_set_multicast-Steady addrs s h =
      let filtered : Steady T o a c (lnc_setladrf addrs (pcnet32_stop s)) =
        ground (arith, pcnet32_stop-Steady s h) in
      pcnet32_start-Steady _ (write_filter-Steady 4 laf_start _ filtered)

  pub phy_set_medium-Steady :
      (m : ℕ) (s : PcNet) → Steady T o a c s → Steady T o a c (phy_set_medium env m s).1
  unfolding phy_set_medium
  phy_set_medium-Steady m s h = ground (arith, lnc_set_medium-Steady env s h m)

  pub phy_report_link_status-Steady :
      (b : Bool) (s : PcNet) → Steady T o a c s → Steady T o a c (phy_report_link_status env b s)
  unfolding phy_report_link_status report_up report_down lnc_watchdog lnc_is_medium_available
      lnc_get_medium read_bcr
  phy_report_link_status-Steady b s h = ground arith

-- So the accesses stay well typed.
module _ (env : Env) (s : PcNet) (h : WellTyped s) where
  pub lnc_init-WellTyped : WellTyped (lnc_init env s)
  lnc_init-WellTyped = (lnc_init-Steady env s (steady s h)).0 tt

  pub lnc_reset-WellTyped : WellTyped (lnc_reset env s)
  lnc_reset-WellTyped = (lnc_reset-Steady env s (steady s h)).0 tt

  pub lnc_set_multicast-WellTyped :
      (addrs : Option (List (List ℕ))) → WellTyped (lnc_set_multicast env addrs s)
  lnc_set_multicast-WellTyped addrs = (lnc_set_multicast-Steady env addrs s (steady s h)).0 tt

  pub phy_set_medium-WellTyped : (m : ℕ) → WellTyped (phy_set_medium env m s).1
  phy_set_medium-WellTyped m = (phy_set_medium-Steady env m s (steady s h)).0 tt

  pub phy_report_link_status-WellTyped : (b : Bool) → WellTyped (phy_report_link_status env b s)
  phy_report_link_status-WellTyped b = (phy_report_link_status-Steady env b s (steady s h)).0 tt

  pub pcnet32_reset-WellTyped : WellTyped (pcnet32_reset env s)
  pcnet32_reset-WellTyped = (pcnet32_reset-Steady env s (steady s h)).0 tt

  pub read_csr-WellTyped : (port : ℕ) → WellTyped (read_csr env port s).1
  read_csr-WellTyped port = (read_csr-Steady env s (steady s h) port).0 tt

module _ (s : PcNet) (h : WellTyped s) where
  pub pcnet32_stop-WellTyped : WellTyped (pcnet32_stop s)
  pcnet32_stop-WellTyped = (pcnet32_stop-Steady s (steady s h)).0 tt

  pub write_csr-WellTyped : (port val : ℕ) → WellTyped (write_csr port val s)
  write_csr-WellTyped port val = (write_csr-Steady port val s (steady s h)).0 tt
