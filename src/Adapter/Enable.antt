-- ===== src/Adapter/Enable.antt =====
-- `enable` and `disable` of the network interface, and the level that they end at.
use maxxuss_amdpcnet_v.Base.{
  ◌≤◌, ◌≡◌, ◌==◌, refl, arith, sym, Bool, Bool-cases, inl, inr, true, false, ==_iff, if◌then◌else◌,
}
use maxxuss_amdpcnet_v.World.{Env}
use maxxuss_amdpcnet_v.State.{PcNet}
use maxxuss_amdpcnet_v.Adapter.{enable, disable, set_activation_level}
use maxxuss_amdpcnet_v.Adapter.Level.{set_activation_level-Settled}

if_true : {A : Type 0} (b : Bool) (x y : A) → b ≡ true → (if b then x else y) ≡ x
if_true b x y e = rw e refl

pub if_false : {A : Type 0} (b : Bool) (x y : A) → b ≡ false → (if b then x else y) ≡ y
if_false b x y e = rw e refl

module _ (env : Env) (s : PcNet) (known : s.current_level ≤ 2) where
  -- From any of the three levels, and if the interface is marked as enabled only at the highest:
  -- `enable` succeeds exactly if it ends at the highest level, and marks the interface as enabled exactly
  -- then; `disable` ends at the level that the debugger needs at most, and without it at level 0.
  pub interface_levels :
      (s.enabled_by_bsd ≡ true → s.current_level ≡ 2)
      → let on = enable env s in
        let off = (disable env s).1 in
        (on.0 ≡ (on.1.current_level == 2))
        × (on.1.enabled_by_bsd ≡ on.0)
        × (off.current_level ≤ (if s.enabled_by_kdp then 1 else 0))
  unfolding enable disable
  interface_levels marked =
      let up = set_activation_level-Settled env 2 s known (omega arith) in
      let s1 = record s { enabled_by_bsd = false } in
      let l = if s.enabled_by_kdp then 1 else 0 in
      let off = set_activation_level-Settled env l s1 known (ground arith) in
      elim (Bool-cases s.enabled_by_bsd) [
        | inl e ↦
            let same : enable env s ≡ (true, s) = if_true s.enabled_by_bsd (true, s) _ e in
            rw same (sym ((==_iff s.current_level 2).1 (marked e)), e, off.2)
        | inr e ↦
            let r = set_activation_level env 2 s in
            let raised : enable env s ≡ (r.0, record r.1 { enabled_by_bsd = r.0 }) =
              if_false s.enabled_by_bsd (true, s) _ e in
            rw raised (up.0, refl, off.2)
      ]
