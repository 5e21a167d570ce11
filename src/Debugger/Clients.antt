-- ===== src/Debugger/Clients.antt =====
-- The network interface and the debugger share the adapter: the level is always the one that the
-- enabled clients need.
use maxxuss_amdpcnet_v.Base.{
  ℕ, ◌≤◌, ◌≡◌, arith, Bool, true, false, ◌⊎◌, List, [], ◌∷◌, if◌then◌else◌,
}
use maxxuss_amdpcnet_v.World.{Env}
use maxxuss_amdpcnet_v.State.{PcNet}
use maxxuss_amdpcnet_v.Adapter.{
  enable, disable, set_activation_level, activation_level_0, activation_level_1, activation_level_2,
}
use maxxuss_amdpcnet_v.Adapter.Activation.{activation}
use maxxuss_amdpcnet_v.Adapter.Level.{set_activation_level-Settled}
use maxxuss_amdpcnet_v.Adapter.Whole.{set_activation_level_whole}
use maxxuss_amdpcnet_v.Debugger.{
  ClientCall, enables, disables, enables_debugger, disables_debugger, enable_debugger,
  disable_debugger, client_call, client_calls,
}
use maxxuss_amdpcnet_v.Debugger.Flags.{clients, set_activation_level-clients}

-- The level that the clients need: the highest for the network interface, and the first for the
-- debugger alone.
unfoldable pub needed_level : Bool → Bool → ℕ
needed_level bsd kdp =
    if bsd then activation_level_2 else if kdp then activation_level_1 else activation_level_0

abbrev pub LevelFits : PcNet → Type 0
LevelFits s = s.current_level ≡ needed_level s.enabled_by_bsd s.enabled_by_kdp

needed_level-le : (bsd kdp : Bool) → needed_level bsd kdp ≤ 2
unfolding needed_level
needed_level-le bsd kdp = ground arith

-- A call of the debugger or the network interface from `s` ends in `t`: the level fits again, and a
-- call that fails leaves the level and both flags.
abbrev pub Answered : PcNet → Bool × PcNet → Type 0
Answered s t = LevelFits t.1 × (t.0 ≡ true ⊎ activation t.1 ≡ activation s)

module _ (env : Env) where
  -- What a change of the level leaves: the flags, and the level asked for if it succeeds.
  changed :
      (l : ℕ) (s : PcNet)
      → s.current_level ≤ 2
      → l ≤ 2
      → let t = set_activation_level env l s in
        (clients t.1 ≡ clients s)
        × (t.1.current_level ≤ l)
        × (((t.0 ≡ true) × (t.1.current_level ≡ l))
            ⊎ ((t.0 ≡ false) × (t.1.current_level ≡ s.current_level)))
  changed l s known h = (
    set_activation_level-clients env l s,
    (set_activation_level-Settled env l s known h).2,
    set_activation_level_whole env l s known h,
  )

  enable-Answered : (s : PcNet) → LevelFits s → Answered s (enable env s)
  unfolding enable needed_level
  enable-Answered s fits =
      let known : s.current_level ≤ 2 = ground (arith, fits) in
      ground (arith, fits, changed 2 s known (omega arith))

  enable_debugger-Answered : (s : PcNet) → LevelFits s → Answered s (enable_debugger env s)
  unfolding enable_debugger needed_level
  enable_debugger-Answered s fits =
      let known : s.current_level ≤ 2 = ground (arith, fits) in
      ground (arith, fits, changed 1 s known (omega arith))

  disable-Answered : (s : PcNet) → LevelFits s → Answered s (disable env s)
  unfolding disable needed_level
  disable-Answered s fits =
      let known : s.current_level ≤ 2 = ground (arith, fits) in
      let l = if s.enabled_by_kdp then activation_level_1 else activation_level_0 in
      let s1 = record s { enabled_by_bsd = false } in
      ground (arith, fits, changed l s1 known (ground arith))

  disable_debugger-Answered : (s : PcNet) → LevelFits s → Answered s (disable_debugger env s)
  unfolding disable_debugger needed_level
  disable_debugger-Answered s fits =
      let known : s.current_level ≤ 2 = ground (arith, fits) in
      let s1 = record s { enabled_by_kdp = false } in
      ground (arith, fits, changed 0 s1 known (omega arith))

  -- If the level is the one that the enabled clients need, it is so after each call of a client, and a
  -- call that fails leaves the level and the flags of both clients.
  pub client_call-Answered :
      (c : ClientCall) (s : PcNet) → LevelFits s → Answered s (client_call env c s)
  unfolding client_call
  client_call-Answered enables s fits = enable-Answered s fits
  client_call-Answered disables s fits = disable-Answered s fits
  client_call-Answered enables_debugger s fits = enable_debugger-Answered s fits
  client_call-Answered disables_debugger s fits = disable_debugger-Answered s fits

  -- If the level is the one that the enabled clients need, it is so after any calls of the network
  -- interface and the debugger, whatever the calls return.
  pub client_calls-LevelFits :
      (cs : List ClientCall) (s : PcNet) → LevelFits s → LevelFits (client_calls env cs s)
  unfolding client_calls
  client_calls-LevelFits [] s fits = fits
  client_calls-LevelFits (c ∷ cs) s fits =
      client_calls-LevelFits cs (client_call env c s).1 (client_call-Answered c s fits).0
