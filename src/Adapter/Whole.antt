-- ===== src/Adapter/Whole.antt =====
-- A change of the activation level is done as a whole or not at all.
use maxxuss_amdpcnet_v.Base.{
  ℕ, ◌+◌, ◌-◌, ◌≤◌, ◌<◌, ◌≡◌, refl, arith, sym, ap, ◌∙◌, true, false, ◌==◌, ◌⊎◌, inl, inr,
  Bool-cases, ==_iff, ℕ_discrete,
}
use maxxuss_amdpcnet_v.World.{Env}
use maxxuss_amdpcnet_v.State.{PcNet}
use maxxuss_amdpcnet_v.Adapter.{enable_adapter, raise_level, set_activation_level}
use maxxuss_amdpcnet_v.Adapter.Level.{
  set_activation_level-Settled, enable_adapter-level, raised, raised-level, raise_step, raise_stop,
  raise_nothing, lower_nothing,
}

module _ (env : Env) where
  enable_adapter_two : (s : PcNet) → (enable_adapter env 2 s).0 ≡ true
  unfolding enable_adapter
  enable_adapter_two s = refl

  -- Once the first level is reached the second is, too.
  raise_rest :
      (s : PcNet)
      → s.current_level ≡ 0
      → (enable_adapter env (s.current_level + 1) s).0 ≡ true
      → (raise_level env 2 (s.current_level + 1) 2 false s).0 ≡ true
  raise_rest s low ok =
      let s1 = raised env s in
      let next : s1.current_level + 1 ≡ 2 = omega (arith, low, raised-level env s) in
      let ok1 : (enable_adapter env (s1.current_level + 1) s1).0 ≡ true =
        ap {A = ℕ} (λ n. (enable_adapter env n s1).0) next ∙ enable_adapter_two s1 in
      let lt : s1.current_level < 2 = omega (arith, next) in
      rw
        (
          raise_step env 1 2 false s (omega (arith, low)) ok,
          raise_step env 0 2 true s1 lt ok1,
          raise_nothing env ((raised env s1).current_level + 1) 2 true (raised env s1),
        )
        refl

  raise_from_zero :
      (s : PcNet)
      → s.current_level ≡ 0
      → let t = raise_level env 2 (s.current_level + 1) 2 false s in
        t.0 ≡ true ⊎ t.1.current_level ≡ 0
  raise_from_zero s low = elim (Bool-cases (enable_adapter env (s.current_level + 1) s).0) [
    | inl ok ↦ inl (raise_rest s low ok)
    | inr bad ↦ inr (
        rw (raise_stop env 1 _ 2 false s (omega (arith, low)) bad)
          (enable_adapter-level env _ s ∙ low))
  ]

  raise_whole :
      (s : PcNet)
      → s.current_level ≡ 0
      → let t = set_activation_level env 2 s in t.0 ≡ true ⊎ t.1.current_level ≡ 0
  unfolding set_activation_level
  raise_whole s low =
      rw (low_differs, low_less, lower_nothing env 2 false s, low_up) (raise_from_zero s low)
    where
      low_differs : (s.current_level == 2) ≡ false
      low_differs = ground (arith, low)

      low_less : s.current_level - 2 ≡ 0
      low_less = omega (arith, low)

      low_up : 2 - s.current_level ≡ 2
      low_up = omega (arith, low)

  raise_top :
      (l : ℕ) (s : PcNet)
      → l ≡ 2
      → s.current_level ≡ 0
      → let t = set_activation_level env l s in t.0 ≡ true ⊎ t.1.current_level ≡ 0
  raise_top l s top low = rw top (raise_whole s low)

  -- `setActivationLevel` succeeds at the level asked for, or fails and leaves the level.
  pub set_activation_level_whole :
      (l : ℕ) (s : PcNet)
      → s.current_level ≤ 2
      → l ≤ 2
      → let t = set_activation_level env l s in
        ((t.0 ≡ true) × (t.1.current_level ≡ l))
        ⊎ ((t.0 ≡ false) × (t.1.current_level ≡ s.current_level))
  set_activation_level_whole l s known h =
      let t = set_activation_level env l s in
      let e = set_activation_level-Settled env l s known h in
      let reached : t.0 ≡ true → t.1.current_level ≡ l =
        λ ok. (==_iff t.1.current_level l).0 (sym e.0 ∙ ok) in
      let differs : t.0 ≡ false → (t.1.current_level == l) ≡ false = λ bad. sym e.0 ∙ bad in
      elim (Bool-cases t.0) [
        | inl ok ↦ inl (ok, reached ok)
        | inr bad ↦ elim (ℕ_discrete l 2) [
          | yes top ↦ elim (ℕ_discrete s.current_level 0) [
            | yes low ↦ elim (raise_top l s top low) [
              | inl ok ↦ inl (ok, reached ok)
              | inr still ↦ inr (bad, still ∙ sym low)
            ]
            | no high ↦ inr (bad, ground (arith, e.1, e.2, differs bad))
          ]
          | no lower ↦ inr (bad, ground (arith, e.1, e.2, differs bad))
        ]
      ]
