-- ===== src/Debugger/Flags.antt =====
-- `setActivationLevel` leaves the flags of the two clients alone.
use maxxuss_amdpcnet_v.Base.{
  ℕ, zero, suc, ◌+◌, ◌-◌, ◌≡◌, refl, arith, ap, ◌∙◌, Bool, true, false, if_both, ltb,
}
use maxxuss_amdpcnet_v.World.{Env}
use maxxuss_amdpcnet_v.State.{PcNet}
use maxxuss_amdpcnet_v.Adapter.{
  enable_adapter, disable_adapter, lower_level, raise_level, set_activation_level,
}
use maxxuss_amdpcnet_v.Adapter.Activation.{enable_adapter-activation, disable_adapter-activation}

-- The flags of the network interface and of the debugger.
abbrev pub clients : PcNet → Bool × Bool
clients s = (s.enabled_by_bsd, s.enabled_by_kdp)

abbrev KeepsClients : PcNet → Bool × PcNet → Type 0
KeepsClients s t = clients t.1 ≡ clients s

module _ (env : Env) where
  lower_level-clients :
      (n l : ℕ) (b : Bool) (s : PcNet) → clients (lower_level env n l b s).1 ≡ clients s
  unfolding lower_level
  lower_level-clients zero l b s = refl
  lower_level-clients (suc n) l b s =
      let (ok, s1) = disable_adapter env s.current_level s in
      let here =
        ap {A = ℕ × Bool × Bool} (λ x. (x.1, x.2))
          (disable_adapter-activation env s.current_level s) in
      let rest =
        lower_level-clients n l true (record s1 { current_level = s1.current_level - 1 }) in
      if_both (KeepsClients s) (ltb l s.current_level) _ _
        (if_both (KeepsClients s) ok _ _ (rest ∙ here) here) refl

  raise_level-clients :
      (n next l : ℕ) (b : Bool) (s : PcNet) → clients (raise_level env n next l b s).1 ≡ clients s
  unfolding raise_level
  raise_level-clients zero next l b s = refl
  raise_level-clients (suc n) next l b s =
      let (ok, s1) = enable_adapter env next s in
      let here =
        ap {A = ℕ × Bool × Bool} (λ x. (x.1, x.2)) (enable_adapter-activation env next s) in
      let rest =
        raise_level-clients n (next + 1) l true
          (record s1 { current_level = s1.current_level + 1 }) in
      if_both (KeepsClients s) (ltb s.current_level l) _ _
        (if_both (KeepsClients s) ok _ _ (rest ∙ here) here) refl

  pub set_activation_level-clients :
      (l : ℕ) (s : PcNet) → clients (set_activation_level env l s).1 ≡ clients s
  unfolding set_activation_level
  set_activation_level-clients l s =
      let s1 = (lower_level env (s.current_level - l) l false s).1 in
      let down = lower_level-clients (s.current_level - l) l false s in
      let up =
        raise_level-clients (l - s1.current_level) (s1.current_level + 1) l
          (lower_level env (s.current_level - l) l false s).0 s1 in
      ground (arith, up ∙ down)
