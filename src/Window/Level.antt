-- ===== src/Window/Level.antt =====
-- Turning the adapter on and off.
use maxxuss_amdpcnet_v.Base.{
  ℕ, zero, suc, ◌+◌, ◌-◌, arith, Bool, true, false, Option, none, some, has, if_both, ltb, ◌==◌,
}
use maxxuss_amdpcnet_v.World.{
  Env, open_provider, set_link_status, set_current_medium, cancel_timeout,
}
use maxxuss_amdpcnet_v.Hw.{medium_index_default, medium_index_undef, medium_index_none}
use maxxuss_amdpcnet_v.State.{PcNet, act, ask}
use maxxuss_amdpcnet_v.Port.{pcnet32_stop}
use maxxuss_amdpcnet_v.Intr.{disable_hardware_interrupts, enable_hardware_interrupts}
use maxxuss_amdpcnet_v.Phy.{link_valid, phy_get_medium_with_index, phy_set_medium}
use maxxuss_amdpcnet_v.Adapter.{
  SelectReturn, select_success, select_unsupported, select_io_error, init_adapter, use_medium,
  use_found, select_medium, start_timer, full_initialization, reset_chip, bring_up, enable_adapter,
  shut_down, disable_adapter, lower_level, raise_level, set_activation_level, lnc_down,
}
use maxxuss_amdpcnet_v.Window.{WellTyped, Second, Steady, steady}
use maxxuss_amdpcnet_v.Window.Registers.{pcnet32_stop-Steady, pcnet32_reset-Steady}
use maxxuss_amdpcnet_v.Window.Chip.{
  lnc_init-Steady, phy_set_medium-Steady, phy_report_link_status-Steady, pcnet32_stop-WellTyped,
  phy_set_medium-WellTyped,
}

-- The same of a result beside a flag.
abbrev pub Steadies : Type 0 → Bool → ℕ → ℕ → Bool × PcNet → Type 0
Steadies T o a c r = Steady T o a c r.1

module _ (env : Env) {T : Type 0} {o : Bool} {a c : ℕ} where
  use_medium-Steady : (m : ℕ) (s : PcNet) → Steady T o a c s → Steady T o a c (use_medium env m s).1
  unfolding use_medium
  use_medium-Steady m s h =
      let s1 = (phy_set_medium env m s).1 in
      let s2 = act (set_link_status link_valid none) (act (set_current_medium m) s1) in
      let h1 = phy_set_medium-Steady env m s h in
      ground (
        arith,
        h1,
        phy_report_link_status-Steady env true s2 (λ x. (tt, (tt, h1.0 x)), h1.1, h1.2, h1.3),
      )

  pub select_medium-Steady :
      (m : Option ℕ) (s : PcNet) → Steady T o a c s → Steady T o a c (select_medium env m s).1
  unfolding select_medium use_found
  select_medium-Steady (some m) s h = use_medium-Steady m s h
  select_medium-Steady none s h = found (phy_get_medium_with_index medium_index_default s)
    where
      found : (m : Option ℕ) → Steady T o a c (use_found env m s).1
      found none = h
      found (some m) = use_medium-Steady m s h

  init_adapter-Steady :
      (opts : ℕ) (s : PcNet) → Steady T o a c s → Steady T o a c (init_adapter env opts s).1
  unfolding init_adapter disable_hardware_interrupts
  init_adapter-Steady opts s h =
      let s1 = record (disable_hardware_interrupts s) {
        medium_index_last_reported = medium_index_undef;
      } in
      let reset = pcnet32_reset-Steady env (pcnet32_stop s1) (pcnet32_stop-Steady s1 h) in
      if_both (Steadies T o a c) (has opts reset_chip) _ _
        (λ x. (tt, reset.0 x), reset.1, reset.2, reset.3) (lnc_init-Steady env s1 h)

  start_timer-Steady :
      (r : SelectReturn) (s : PcNet) → Steady T o a c s → Steady T o a c (start_timer env r s).1
  unfolding start_timer
  start_timer-Steady select_success s h = (λ x. (tt, h.0 x), h.1, h.2, h.3)
  start_timer-Steady select_unsupported s h = h
  start_timer-Steady select_io_error s h = h

  pub bring_up-Steady : (s : PcNet) → Steady T o a c s → Steady T o a c (bring_up env s).1
  unfolding bring_up
  bring_up-Steady s h =
      let (ok, s1) = init_adapter env full_initialization s in
      let h1 = init_adapter-Steady full_initialization s h in
      let r = select_medium env (env.selected_medium s1.trace) s1 in
      let h2 = select_medium-Steady (env.selected_medium s1.trace) s1 h1 in
      if_both (Steadies T o a c) ok _ _ (start_timer-Steady r.0 r.1 h2) h1

module _ (env : Env) where
  pub select_medium-WellTyped :
      (m : Option ℕ) (s : PcNet) → WellTyped s → WellTyped (select_medium env m s).1
  select_medium-WellTyped m s h = (select_medium-Steady env m s (steady s h)).0 tt

  enable_adapter-WellTyped :
      (l : ℕ) (s : PcNet) → WellTyped s → WellTyped (enable_adapter env l s).1
  unfolding enable_adapter enable_hardware_interrupts
  enable_adapter-WellTyped l s h =
      let s0 = (ask env open_provider s).1 in
      ground (arith, h, (bring_up-Steady env s0 (steady s0 (tt, h))).0 tt)

  shut_down-WellTyped : (s : PcNet) → WellTyped s → WellTyped (shut_down env s)
  unfolding shut_down lnc_down
  shut_down-WellTyped s h =
      let s0 = act cancel_timeout s in
      let s1 = (init_adapter env reset_chip s0).1 in
      let s2 = lnc_down s1 in
      let h1 = (init_adapter-Steady env reset_chip s0 (steady s0 (tt, h))).0 tt in
      let h2 : WellTyped s2 = ground (arith, pcnet32_stop-WellTyped s1 h1) in
      ground (arith, phy_set_medium-WellTyped env s2 h2 medium_index_none)

  disable_adapter-WellTyped :
      (l : ℕ) (s : PcNet) → WellTyped s → WellTyped (disable_adapter env l s).1
  unfolding disable_adapter disable_hardware_interrupts
  disable_adapter-WellTyped l s h = ground (arith, h, shut_down-WellTyped s h)

  lower_level-WellTyped :
      (n l : ℕ) (b : Bool) (s : PcNet) → WellTyped s → WellTyped (lower_level env n l b s).1
  unfolding lower_level
  lower_level-WellTyped zero l b s h = h
  lower_level-WellTyped (suc n) l b s h =
      let (ok, s1) = disable_adapter env s.current_level s in
      let h1 = disable_adapter-WellTyped s.current_level s h in
      let rest =
        lower_level-WellTyped n l true (record s1 { current_level = s1.current_level - 1 }) h1 in
      if_both (Second {A = Bool}) (ltb l s.current_level) _ _
        (if_both (Second {A = Bool}) ok _ _ rest h1) h

  raise_level-WellTyped :
      (n next l : ℕ) (b : Bool) (s : PcNet)
      → WellTyped s
      → WellTyped (raise_level env n next l b s).1
  unfolding raise_level
  raise_level-WellTyped zero next l b s h = h
  raise_level-WellTyped (suc n) next l b s h =
      let (ok, s1) = enable_adapter env next s in
      let h1 = enable_adapter-WellTyped next s h in
      let rest =
        raise_level-WellTyped n (next + 1) l true
          (record s1 { current_level = s1.current_level + 1 }) h1 in
      if_both (Second {A = Bool}) (ltb s.current_level l) _ _
        (if_both (Second {A = Bool}) ok _ _ rest h1) h

  pub set_activation_level-WellTyped :
      (l : ℕ) (s : PcNet) → WellTyped s → WellTyped (set_activation_level env l s).1
  unfolding set_activation_level
  set_activation_level-WellTyped l s h =
      let (down, s1) = lower_level env (s.current_level - l) l false s in
      let h1 = lower_level-WellTyped (s.current_level - l) l false s h in
      if_both (Second {A = Bool}) (s.current_level == l) _ _ h
        (raise_level-WellTyped (l - s1.current_level) (s1.current_level + 1) l down s1 h1)
