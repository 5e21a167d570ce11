-- ===== src/Debugger.antt =====
-- The kernel debugger as a second client of the adapter, the code under KDB_SUPPORT of
-- Source/PCNet.cpp, and the calls of both clients one after another.
pub mod Flags
pub mod Clients
use maxxuss_amdpcnet_v.Base.{Bool, true, false, ◌||◌, List, [], ◌∷◌, if◌then◌else◌}
use maxxuss_amdpcnet_v.World.{Env}
use maxxuss_amdpcnet_v.State.{PcNet}
use maxxuss_amdpcnet_v.Adapter.{
  activation_level_0, activation_level_1, set_activation_level, enable, disable,
}

-- What the network stack and the debugger call.
pub data ClientCall : Type 0 where
  enables disables enables_debugger disables_debugger : ClientCall

module _ (env : Env) where
  -- `enable` and `disable` of a kernel debugger; the result is whether it is kIOReturnSuccess.
  unfoldable pub enable_debugger : PcNet → Bool × PcNet
  enable_debugger s =
      if s.enabled_by_kdp || s.enabled_by_bsd
      then (true, record s { enabled_by_kdp = true })
      else (let (ok, s1) = set_activation_level env activation_level_1 s in
          (ok, record s1 { enabled_by_kdp = ok }))

  unfoldable pub disable_debugger : PcNet → Bool × PcNet
  disable_debugger s =
      let s1 = record s { enabled_by_kdp = false } in
      if s1.enabled_by_bsd
      then (true, s1)
      else (true, (set_activation_level env activation_level_0 s1).1)

  -- What a call returns and the state after it.
  unfoldable pub client_call : ClientCall → PcNet → Bool × PcNet
  client_call enables s = enable env s
  client_call disables s = disable env s
  client_call enables_debugger s = enable_debugger s
  client_call disables_debugger s = disable_debugger s

  unfoldable pub client_calls : List ClientCall → PcNet → PcNet
  client_calls [] s = s
  client_calls (c ∷ cs) s = client_calls cs (client_call c s).1
