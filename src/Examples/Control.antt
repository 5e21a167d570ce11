-- ===== src/Examples/Control.antt =====
-- The same for setting up, turning on and off, and the interrupt.
use maxxuss_amdpcnet_v.Base.{
  ◌+◌, ◌*◌, ◌≡◌, refl, arith, false, ◌==◌, ◌≤◌, none, some, if◌then◌else◌, u16, u32,
}
use maxxuss_amdpcnet_v.World.{Env}
use maxxuss_amdpcnet_v.Softc.{LncSoftc}
use maxxuss_amdpcnet_v.State.{PcNet}
use maxxuss_amdpcnet_v.Init.{lnc_init}
use maxxuss_amdpcnet_v.Init.Ready.{IsReady, lnc_init-IsReady}
use maxxuss_amdpcnet_v.Init.Block.{lnc_init_block}
use maxxuss_amdpcnet_v.Tx.{go_on}
use maxxuss_amdpcnet_v.Rx.{rint_round}
use maxxuss_amdpcnet_v.Rx.Failed.{Lost, rint_round-Lost}
use maxxuss_amdpcnet_v.Intr.{serve_rings}
use maxxuss_amdpcnet_v.Intr.Hang.{IsBroken, serve_rings_hangs}
use maxxuss_amdpcnet_v.Phy.{phy_report_link_status}
use maxxuss_amdpcnet_v.Phy.Report.{phy_report_link_status_lem, seen, due, reports}
use maxxuss_amdpcnet_v.Adapter.{set_activation_level, enable, disable}
use maxxuss_amdpcnet_v.Adapter.Enable.{interface_levels}
use maxxuss_amdpcnet_v.Adapter.Level.{Settled, set_activation_level-Settled}
use maxxuss_amdpcnet_v.Lifecycle.{free}
use maxxuss_amdpcnet_v.Lifecycle.Release.{IsReleased, free_releases}
use maxxuss_amdpcnet_v.Examples.{quiet, soft, driver, entry, soft-IsAllocated, soft-RxValid}

lnc_init-IsReady_example : IsReady (lnc_init quiet (driver soft)).sc
lnc_init-IsReady_example = lnc_init-IsReady quiet (driver soft) soft-IsAllocated

lnc_init_block_example :
    let b = (lnc_init quiet (driver soft)).sc.init_block in
    (b.rx_ring ≡ u32 (0x4000_0000 + 544))
    × (b.tx_ring ≡ u32 (0x4000_0000 + 1056))
    × (b.tlen_rlen ≡ 0x5050)
    × (b.mode ≡ u16 0)
lnc_init_block_example = lnc_init_block quiet (driver soft) soft-IsAllocated

-- An I/O Kit where every call fails.
abbrev failing : Env
failing = record quiet { answer = λ tr c. false }

rint_round-Lost_example :
    (t : PcNet) × (rint_round failing 4 false (driver soft) ≡ some (go_on, false, t))
    × Lost (driver soft) t
rint_round-Lost_example =
    rint_round-Lost failing 4 false (driver soft) soft-RxValid refl refl (λ tr n. refl)

-- Two descriptors that each start a frame, the first without an end.
abbrev broken : LncSoftc
broken = record soft {
  recv_entries = λ i.
      if i == 0
      then entry 0x20_0000 0x0200 0
      else if i == 1
      then entry 0x20_0608 0x0300 64
      else entry (0x20_0000 + i * 1544) 0x8000 0;
}

broken-IsBroken : IsBroken (driver broken)
broken-IsBroken = record {
  size = refl;
  next_in = omega arith;
  starts = refl;
  no_end = refl;
  starts_again = refl;
  stops = refl;
}

serve_rings_hangs_example : serve_rings quiet 500 0x0780 false false (driver broken) ≡ none
serve_rings_hangs_example =
    serve_rings_hangs quiet (driver broken) broken-IsBroken 500 0x0780 false false
      (record { recv_size = refl; trans_size = refl; aligned = refl; fits = omega arith }) refl refl

phy_report_link_status_lem_example :
    let t = phy_report_link_status quiet false (driver soft) in
    (t.medium_index_last_reported ≡ seen quiet (driver soft))
    × (reports t.trace ≡ due quiet (driver soft) false)
    × (t.sc ≡ soft)
phy_report_link_status_lem_example = phy_report_link_status_lem quiet (driver soft) false

set_activation_level-Settled_example :
    Settled quiet 0 (driver soft) (set_activation_level quiet 0 (driver soft))
set_activation_level-Settled_example =
    set_activation_level-Settled quiet 0 (driver soft) (omega arith) (omega arith)

interface_levels_example :
    let on = enable quiet (driver soft) in
    let off = (disable quiet (driver soft)).1 in
    (on.0 ≡ (on.1.current_level == 2)) × (on.1.enabled_by_bsd ≡ on.0) × (off.current_level ≤ 0)
interface_levels_example = interface_levels quiet (driver soft) (omega arith) (λ e. refl)

free_releases_example : (t : PcNet) × (free (driver soft) ≡ some t) × IsReleased t
free_releases_example = free_releases (driver soft) refl
