-- ===== src/Adapter/Activation.antt =====
-- The adapter's operations leave the activation level and the two clients' flags to their callers.
use maxxuss_amdpcnet_v.Base.{ℕ, ◌≡◌, refl, arith, ap, ◌∙◌, Bool, true, Option, none, some}
use maxxuss_amdpcnet_v.World.{
  Env, open_provider, set_link_status, set_current_medium, cancel_timeout,
}
use maxxuss_amdpcnet_v.Hw.{medium_index_default, medium_index_undef, medium_index_none}
use maxxuss_amdpcnet_v.State.{PcNet, act, ask}
use maxxuss_amdpcnet_v.Port.{pcnet32_stop, pcnet32_reset, read_bcr, write_bcr, write_csr}
use maxxuss_amdpcnet_v.Init.{lnc_init}
use maxxuss_amdpcnet_v.Init.Frame.{lnc_init-frame}
use maxxuss_amdpcnet_v.Medium.{lnc_set_medium, lnc_get_medium, lnc_is_medium_available}
use maxxuss_amdpcnet_v.Intr.{disable_hardware_interrupts, enable_hardware_interrupts}
use maxxuss_amdpcnet_v.Phy.{
  link_valid, phy_get_medium_with_index, phy_set_medium, phy_report_link_status, report_up,
  report_down, lnc_watchdog,
}
use maxxuss_amdpcnet_v.Adapter.{
  SelectReturn, select_success, select_unsupported, select_io_error, init_adapter, use_medium,
  use_found, select_medium, start_timer, full_initialization, reset_chip, bring_up, enable_adapter,
  shut_down, disable_adapter, lnc_down,
}

-- The level, and whether the network interface and the debugger are enabled.
abbrev pub activation : PcNet → ℕ × Bool × Bool
activation s = (s.current_level, s.enabled_by_bsd, s.enabled_by_kdp)

module _ (env : Env) where
  phy_report-activation :
      (b : Bool) (s : PcNet) → activation (phy_report_link_status env b s) ≡ activation s
  unfolding phy_report_link_status report_up report_down lnc_watchdog lnc_is_medium_available
      lnc_get_medium read_bcr
  phy_report-activation b s = ground arith

  phy_set-activation : (m : ℕ) (s : PcNet) → activation (phy_set_medium env m s).1 ≡ activation s
  unfolding phy_set_medium lnc_set_medium read_bcr write_bcr
  phy_set-activation m s = ground arith

  use_medium-activation : (m : ℕ) (s : PcNet) → activation (use_medium env m s).1 ≡ activation s
  unfolding use_medium
  use_medium-activation m s =
      let s1 = (phy_set_medium env m s).1 in
      let s2 = act (set_link_status link_valid none) (act (set_current_medium m) s1) in
      ground (arith, phy_set-activation m s, phy_report-activation true s2)

  use_found-activation :
      (m : Option ℕ) (s : PcNet) → activation (use_found env m s).1 ≡ activation s
  unfolding use_found
  use_found-activation none s = refl
  use_found-activation (some m) s = use_medium-activation m s

  select_medium-activation :
      (m : Option ℕ) (s : PcNet) → activation (select_medium env m s).1 ≡ activation s
  unfolding select_medium
  select_medium-activation (some m) s = use_found-activation (some m) s
  select_medium-activation none s =
      use_found-activation (phy_get_medium_with_index medium_index_default s) s

  lnc_init-activation : (s : PcNet) → activation (lnc_init env s) ≡ activation s
  lnc_init-activation s = ap {A = PcNet} activation (lnc_init-frame env s)

  init_adapter-activation : (o : ℕ) (s : PcNet) → activation (init_adapter env o s).1 ≡ activation s
  unfolding init_adapter disable_hardware_interrupts pcnet32_reset pcnet32_stop write_csr
  init_adapter-activation o s =
      let s1 = record (disable_hardware_interrupts s) {
        medium_index_last_reported = medium_index_undef;
      } in
      ground (arith, lnc_init-activation s1)

  start_timer-activation :
      (r : SelectReturn) (s : PcNet) → activation (start_timer env r s).1 ≡ activation s
  unfolding start_timer
  start_timer-activation select_success s = refl
  start_timer-activation select_unsupported s = refl
  start_timer-activation select_io_error s = refl

  bring_up-activation : (s : PcNet) → activation (bring_up env s).1 ≡ activation s
  unfolding bring_up
  bring_up-activation s =
      let s1 = (init_adapter env full_initialization s).1 in
      let r = select_medium env (env.selected_medium s1.trace) s1 in
      let e =
        start_timer-activation r.0 r.1
        ∙ select_medium-activation (env.selected_medium s1.trace) s1
        ∙ init_adapter-activation full_initialization s in
      ground (arith, e, init_adapter-activation full_initialization s)

  pub enable_adapter-activation :
      (l : ℕ) (s : PcNet) → activation (enable_adapter env l s).1 ≡ activation s
  unfolding enable_adapter enable_hardware_interrupts
  enable_adapter-activation l s = ground (arith, bring_up-activation (ask env open_provider s).1)

  shut_down-activation : (s : PcNet) → activation (shut_down env s) ≡ activation s
  unfolding shut_down lnc_down pcnet32_stop write_csr
  shut_down-activation s =
      let s0 = act cancel_timeout s in
      let s1 = lnc_down (init_adapter env reset_chip s0).1 in
      ground (arith, init_adapter-activation reset_chip s0, phy_set-activation medium_index_none s1)

  pub disable_adapter-activation :
      (l : ℕ) (s : PcNet) → activation (disable_adapter env l s).1 ≡ activation s
  unfolding disable_adapter disable_hardware_interrupts
  disable_adapter-activation l s = ground (arith, shut_down-activation s)
