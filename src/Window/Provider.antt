-- ===== src/Window/Provider.antt =====
-- The provider, which `enableAdapter` opens and `disableAdapter` closes.
use maxxuss_amdpcnet_v.Base.{◌+◌, ◌-◌, ◌≡◌, refl, arith, ap, ◌∙◌, Bool, true, false, ◌==◌}
use maxxuss_amdpcnet_v.World.{Env, open_provider}
use maxxuss_amdpcnet_v.State.{PcNet, ask}
use maxxuss_amdpcnet_v.Adapter.{bring_up, enable_adapter, set_activation_level, enable}
use maxxuss_amdpcnet_v.Adapter.Level.{enable_adapter-level, lower_nothing, raise_stop}
use maxxuss_amdpcnet_v.Adapter.Enable.{if_false}
use maxxuss_amdpcnet_v.Window.{is_open}
use maxxuss_amdpcnet_v.Window.Level.{bring_up-Steady}

-- Whether the provider is open, by the history.
abbrev pub provider_open : PcNet → Bool
provider_open s = is_open s.trace

module _ (env : Env) (s : PcNet) (found : s.pci_nub ≡ true)
    (opened : env.answer s.trace open_provider ≡ true)
    (fails : (bring_up env (ask env open_provider s).1).0 ≡ false) where
  adapter_fails : let t = enable_adapter env 1 s in (t.0 ≡ false) × (provider_open t.1 ≡ true)
  unfolding enable_adapter
  adapter_fails =
      let s0 = (ask env open_provider s).1 in
      let b =
        bring_up-Steady env {T = ¬ Unit {0}} {o = true} s0
          (λ x. absurd (x tt), ground (arith, opened), refl, refl) in
      ground (arith, found, opened, fails, b.1)

  level_fails :
      s.current_level ≡ 0 → set_activation_level env 2 s ≡ (false, (enable_adapter env 1 s).1)
  unfolding set_activation_level
  level_fails low =
      let differs : (s.current_level == 2) ≡ false = ground (arith, low) in
      let less : s.current_level - 2 ≡ 0 = omega (arith, low) in
      let up : 2 - s.current_level ≡ 2 = omega (arith, low) in
      let next : s.current_level + 1 ≡ 1 = omega (arith, low) in
      rw (differs, less, lower_nothing env 2 false s, up, next)
        (raise_stop env 1 1 2 false s (omega (arith, low)) adapter_fails.0)

  -- With the provider found and the adapter off: if the provider opens and what follows fails, such as
  -- the choice of a medium, `enable` fails and the adapter is off as before, but the provider stays
  -- open.
  pub enable_leaves_open :
      s.enabled_by_bsd ≡ false
      → s.current_level ≡ 0
      → let t = enable env s in (t.0 ≡ false) × (t.1.current_level ≡ 0) × (provider_open t.1 ≡ true)
  unfolding enable
  enable_leaves_open off low =
      let r = set_activation_level env 2 s in
      let e : enable env s ≡ (r.0, record r.1 { enabled_by_bsd = r.0 }) =
        if_false s.enabled_by_bsd (true, s) _ off in
      let f = level_fails low in
      rw e (
        ap {A = Bool × PcNet} (λ x. x.0) f,
        ap {A = Bool × PcNet} (λ x. x.1.current_level) f ∙ enable_adapter-level env 1 s ∙ low,
        ap {A = Bool × PcNet} (λ x. provider_open x.1) f ∙ adapter_fails.1,
      )
