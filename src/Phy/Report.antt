-- ===== src/Phy/Report.antt =====
-- What `phyReportLinkStatus` reports.
use maxxuss_amdpcnet_v.Base.{
  ℕ, ◌+◌, ◌≡◌, arith, Bool, not, has, ◌||◌, ◌==◌, Option, none, List, [], ◌∷◌, if◌then◌else◌,
}
use maxxuss_amdpcnet_v.World.{Env, Event, did, set_link_status}
use maxxuss_amdpcnet_v.Hw.{medium_index_none, medium_index_10_fd, medium_index_10_hd}
use maxxuss_amdpcnet_v.State.{PcNet}
use maxxuss_amdpcnet_v.Port.{read_bcr}
use maxxuss_amdpcnet_v.Medium.{lnc_is_medium_available, lnc_get_medium}
use maxxuss_amdpcnet_v.Phy.{
  phy_report_link_status, report_up, report_down, link_valid, link_active, lnc_watchdog,
  phy_get_medium_with_index,
}

-- The link reports of a history, newest first.
unfoldable pub reports : List Event → List (ℕ × Option ℕ)
reports [] = []
reports (did (set_link_status v m) ∷ tr) = (v, m) ∷ reports tr
reports (e ∷ tr) = reports tr

module _ (env : Env) (s : PcNet) where
  -- Whether the link is up: bit 15 of the bus configuration register 4, the status of the link's LED.
  abbrev pub link_up : Bool
  link_up = has (read_bcr env 4 s).0 0x8000

  -- Whether the chip is in full-duplex mode: bit 0 of the bus configuration register 9, read after the
  -- output queue was woken.
  abbrev pub full_duplex : Bool
  full_duplex = has (read_bcr env 9 (lnc_watchdog (read_bcr env 4 s).1)).0 0x0001

  -- The medium in use while the link is up.
  abbrev pub active : ℕ
  active = if full_duplex then medium_index_10_fd else medium_index_10_hd

  -- The medium to be remembered: none while the link is down.
  abbrev pub seen : ℕ
  seen = if link_up then active else medium_index_none

  -- The reports that a call is due to make.
  abbrev pub due : Bool → List (ℕ × Option ℕ)
  due force =
      if force || not (seen == s.medium_index_last_reported)
      then (if link_up
          then (link_valid + link_active, s.medium_table active)
          else (link_valid, none))
        ∷ reports s.trace
      else reports s.trace

  -- With the link up if bit 15 of the bus configuration register 4 is set, and the medium then the
  -- full-duplex one if bit 0 of register 9 is set and else the half-duplex one: a call reports the link
  -- exactly if it must or if the medium is not the one reported last, it reports "valid and active" with
  -- the medium's object or "valid" alone, and remembers the medium; the soft state stays.
  pub phy_report_link_status_lem :
      (force : Bool)
      → let t = phy_report_link_status env force s in
        (t.medium_index_last_reported ≡ seen) × (reports t.trace ≡ due force) × (t.sc ≡ s.sc)
  unfolding phy_report_link_status report_up report_down lnc_watchdog reports
      lnc_is_medium_available lnc_get_medium read_bcr phy_get_medium_with_index
  phy_report_link_status_lem force = ground arith
