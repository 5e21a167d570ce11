-- ===== src/Adapter/Level.antt =====
-- The activation level.
use Prim.Native.Nat.{min}
use maxxuss_amdpcnet_v.Base.{
  ℕ, zero, suc, ◌+◌, ◌-◌, ◌≤◌, ◌<◌, ◌≡◌, refl, arith, ap, Bool, true, false, ◌==◌, ==_iff, ◌⊎◌, inl,
  inr, Bool-cases, dec_lt,
}
use maxxuss_amdpcnet_v.World.{Env}
use maxxuss_amdpcnet_v.State.{PcNet}
use maxxuss_amdpcnet_v.Adapter.{
  enable_adapter, disable_adapter, lower_level, raise_level, set_activation_level,
}
use maxxuss_amdpcnet_v.Adapter.Activation.{enable_adapter-activation, disable_adapter-activation}

module _ (env : Env) where
  pub enable_adapter-level :
      (l : ℕ) (s : PcNet) → (enable_adapter env l s).1.current_level ≡ s.current_level
  enable_adapter-level l s = ap (λ x. x.0) (enable_adapter-activation env l s)

  disable_adapter-level :
      (l : ℕ) (s : PcNet) → (disable_adapter env l s).1.current_level ≡ s.current_level
  disable_adapter-level l s = ap (λ x. x.0) (disable_adapter-activation env l s)

  -- Disabling never fails at the levels that there are.
  disable_adapter_succeeds :
      (l : ℕ) (s : PcNet) → 1 ≤ l → l ≤ 2 → (disable_adapter env l s).0 ≡ true
  unfolding disable_adapter
  disable_adapter_succeeds l s h k = ground arith

  -- The state for the next round of each loop.
  abbrev lowered : PcNet → PcNet
  lowered s =
      let s1 = (disable_adapter env s.current_level s).1 in
      record s1 { current_level = s1.current_level - 1 }

  abbrev pub raised : PcNet → PcNet
  raised s =
      let s1 = (enable_adapter env (s.current_level + 1) s).1 in
      record s1 { current_level = s1.current_level + 1 }

  lowered-level : (s : PcNet) → (lowered s).current_level ≡ s.current_level - 1
  lowered-level s = ap (λ n. n - 1) (disable_adapter-level s.current_level s)

  pub raised-level : (s : PcNet) → (raised s).current_level ≡ s.current_level + 1
  raised-level s = ap (λ n. n + 1) (enable_adapter-level (s.current_level + 1) s)

  lower_step :
      (n l : ℕ) (b : Bool) (s : PcNet)
      → s.current_level ≤ 2
      → l < s.current_level
      → lower_level env (suc n) l b s ≡ lower_level env n l true (lowered s)
  unfolding lower_level
  lower_step n l b s h lt =
      ground (arith, disable_adapter_succeeds s.current_level s (omega arith) h)

  lower_true :
      (n l : ℕ) (s : PcNet)
      → s.current_level ≤ 2
      → l + n ≡ s.current_level
      → ((lower_level env n l true s).0 ≡ true) × ((lower_level env n l true s).1.current_level ≡ l)
  unfolding lower_level
  lower_true zero l s h e = (refl, omega (arith, e))
  lower_true (suc n) l s h e =
      rw (lower_step n l true s h (omega (arith, e))) (
        lower_true n l (lowered s) (omega (arith, lowered-level s))
          (omega (arith, lowered-level s)))

  pub raise_stop :
      (n next l : ℕ) (b : Bool) (s : PcNet)
      → s.current_level < l
      → (enable_adapter env next s).0 ≡ false
      → raise_level env (suc n) next l b s ≡ (false, (enable_adapter env next s).1)
  unfolding raise_level
  raise_stop n next l b s lt e = ground (arith, e)

  pub raise_step :
      (n l : ℕ) (b : Bool) (s : PcNet)
      → s.current_level < l
      → (enable_adapter env (s.current_level + 1) s).0 ≡ true
      → raise_level env (suc n) (s.current_level + 1) l b s
        ≡ raise_level env n ((raised s).current_level + 1) l true (raised s)
  unfolding raise_level
  raise_step n l b s lt e = rw (enable_adapter-level (s.current_level + 1) s) (ground (arith, e))

  -- Where the loop that raises the level ends.
  abbrev Raised : ℕ → PcNet → Bool × PcNet → Type 0
  Raised l s t =
      (t.0 ≡ (t.1.current_level == l))
      × (s.current_level ≤ t.1.current_level)
      × (t.1.current_level ≤ l)

  raise_true :
      (n l : ℕ) (b : Bool) (s : PcNet)
      → s.current_level + n ≡ l
      → b ≡ true ⊎ 0 < n
      → Raised l s (raise_level env n (s.current_level + 1) l b s)
  unfolding raise_level
  raise_true zero l b s e (inl p) = (rw p (ground (arith, e)), omega arith, omega (arith, e))
  raise_true zero l b s e (inr p) = absurd (omega arith)
  raise_true (suc n) l b s e p =
      let next = s.current_level + 1 in
      let lt : s.current_level < l = omega (arith, e) in
      elim (Bool-cases (enable_adapter env next s).0) [
        | inl ok ↦
            let r = raise_true n l true (raised s) (omega (arith, raised-level s)) (inl refl) in
            rw (raise_step n l b s lt ok) (r.0, omega (arith, r.1, raised-level s), r.2)
        | inr bad ↦ rw (raise_stop n next l b s lt bad) (
          ground (arith, enable_adapter-level next s),
          omega (arith, enable_adapter-level next s),
          omega (arith, enable_adapter-level next s, lt),
        )
      ]

  lower_false :
      (n l : ℕ) (s : PcNet)
      → s.current_level ≤ 2
      → l + n ≡ s.current_level
      → 0 < n
      → ((lower_level env n l false s).0 ≡ true)
        × ((lower_level env n l false s).1.current_level ≡ l)
  lower_false zero l s h e p = absurd (omega arith)
  lower_false (suc n) l s h e p =
      rw (lower_step n l false s h (omega (arith, e))) (
        lower_true n l (lowered s) (omega (arith, lowered-level s))
          (omega (arith, lowered-level s)))

  pub lower_nothing : (l : ℕ) (b : Bool) (s : PcNet) → lower_level env 0 l b s ≡ (b, s)
  unfolding lower_level
  lower_nothing l b s = refl

  pub raise_nothing : (next l : ℕ) (b : Bool) (s : PcNet) → raise_level env 0 next l b s ≡ (b, s)
  unfolding raise_level
  raise_nothing next l b s = refl

  -- Where `setActivationLevel` ends: at the level asked for exactly if it succeeds, and otherwise
  -- between the old level and that.
  abbrev pub Settled : ℕ → PcNet → Bool × PcNet → Type 0
  Settled l s t =
      (t.0 ≡ (t.1.current_level == l))
      × (min s.current_level l ≤ t.1.current_level)
      × (t.1.current_level ≤ l)

  settle_down :
      (l : ℕ) (s : PcNet)
      → s.current_level ≤ 2
      → l < s.current_level
      → Settled l s (set_activation_level env l s)
  unfolding set_activation_level
  settle_down l s h lt =
      let r = lower_false (s.current_level - l) l s h (omega arith) (omega arith) in
      let t = lower_level env (s.current_level - l) l false s in
      let none_left : l - t.1.current_level ≡ 0 = omega (arith, r.1) in
      let differ : (s.current_level == l) ≡ false = ground arith in
      rw (differ, none_left, raise_nothing (t.1.current_level + 1) l t.0 t.1)
        (ground (arith, r.0, r.1), omega (arith, r.1), omega (arith, r.1))

  settle_up : (l : ℕ) (s : PcNet) → s.current_level < l → Settled l s (set_activation_level env l s)
  unfolding set_activation_level
  settle_up l s lt =
      let none_left : s.current_level - l ≡ 0 = omega arith in
      let differ : (s.current_level == l) ≡ false = ground arith in
      let r = raise_true (l - s.current_level) l false s (omega arith) (inr (omega arith)) in
      rw (differ, none_left, lower_nothing l false s) (r.0, omega (arith, r.1), r.2)

  -- From any of the three levels, `setActivationLevel` succeeds exactly if it ends at the level asked
  -- for, which lowering always does; a raise that fails ends between the two levels.
  pub set_activation_level-Settled :
      (l : ℕ) (s : PcNet) → s.current_level ≤ 2 → l ≤ 2 → Settled l s (set_activation_level env l s)
  unfolding set_activation_level
  set_activation_level-Settled l s h k = elim (dec_lt l s.current_level) [
    | yes p ↦ settle_down l s h p
    | no p ↦ elim (dec_lt s.current_level l) [
      | yes q ↦ settle_up l s q
      | no q ↦
          let same : s.current_level ≡ l = omega arith in
          rw ((==_iff s.current_level l).1 same)
            (ground (arith, same), omega arith, omega (arith, same))
    ]
  ]
