-- ===== src/Phy.antt =====
-- The physical layer, Source/PCNet_PHY.cpp, with `lnc_watchdog` of Source/PCNet_lnc.cpp, which the
-- report of the link calls.

pub mod Report
use maxxuss_amdpcnet_v.Base.{
  ℕ, ◌+◌, ◌==◌, Bool, true, false, not, ◌&&◌, ◌||◌, Option, none, some, ltb, update, if◌then◌else◌,
}
use maxxuss_amdpcnet_v.World.{Env, make_medium, add_medium, set_link_status, service_queue_async}
use maxxuss_amdpcnet_v.Hw.{
  medium_index_10_hd, medium_index_10_fd, medium_index_none, medium_index_count,
}
use maxxuss_amdpcnet_v.State.{PcNet, act, ask}
use maxxuss_amdpcnet_v.Medium.{lnc_set_medium, lnc_get_medium, lnc_is_medium_available}

-- kIONetworkLinkValid and kIONetworkLinkActive, as I/O Kit documents them.
abbrev pub link_valid : ℕ
link_valid = 1

abbrev pub link_active : ℕ
link_active = 2

unfoldable pub lnc_watchdog : PcNet → PcNet
lnc_watchdog s =
    if s.transmit_queue && not (s.sc.pending_transmits == 0) then act service_queue_async s else s

unfoldable pub phy_get_medium_with_index : ℕ → PcNet → Option ℕ
phy_get_medium_with_index index s =
    if ltb index medium_index_count then s.medium_table index else none

module _ (env : Env) where
  -- A medium object is its index; the table keeps it if the dictionary took it.
  unfoldable pub phy_add_medium_type : ℕ → PcNet → Bool × PcNet
  phy_add_medium_type index s =
      let (made, s1) = ask env (make_medium index) s in
      if made
      then (let (added, s2) = ask env (add_medium index) s1 in
          if added
          then (true, record s2 { medium_table = update s2.medium_table index (some index) })
          else (false, s2))
      else (false, s1)

  unfoldable pub phy_probe_media_capability : PcNet → PcNet
  phy_probe_media_capability s =
      (phy_add_medium_type medium_index_10_fd (phy_add_medium_type medium_index_10_hd s).1).1

  unfoldable pub phy_set_medium : ℕ → PcNet → Bool × PcNet
  phy_set_medium index s =
      if index == s.current_medium_index
      then (true, s)
      else (let (success, s1) = lnc_set_medium env index s in
          if success then (true, record s1 { current_medium_index = index }) else (false, s1))

  -- The link is up: the watchdog runs, and the medium is reported if it is new or must be reported.
  unfoldable pub report_up : Bool → PcNet → PcNet
  report_up force s =
      let (active, s1) = lnc_get_medium env (lnc_watchdog s) in
      let s2 =
        if force || not (active == s1.medium_index_last_reported)
        then act (set_link_status (link_valid + link_active) (phy_get_medium_with_index active s1))
            s1
        else s1 in
      record s2 { medium_index_last_reported = active }

  unfoldable pub report_down : Bool → PcNet → PcNet
  report_down force s =
      if force || not (s.medium_index_last_reported == medium_index_none)
      then record (act (set_link_status link_valid none) s) {
        medium_index_last_reported = medium_index_none;
      }
      else s

  unfoldable pub phy_report_link_status : Bool → PcNet → PcNet
  phy_report_link_status force s =
      let (available, s1) = lnc_is_medium_available env s in
      if available then report_up force s1 else report_down force s1

abbrev pub phy_reset : Bool
phy_reset = true
