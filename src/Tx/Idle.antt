-- ===== src/Tx/Idle.antt =====
-- `lnc_tint` on an idle ring. The search for the packet's end has nothing to stop at.
use maxxuss_amdpcnet_v.Base.{ℕ, zero, suc, ◌+◌, ◌-◌, ◌%◌, ◌<◌, ◌≡◌, refl, arith, ◌∙◌, ap, sym, none}
use maxxuss_amdpcnet_v.Base.Bits.{zero-bit_and}
use maxxuss_amdpcnet_v.World.{Env}
use maxxuss_amdpcnet_v.Softc.{LncSoftc, HostRingEntry}
use maxxuss_amdpcnet_v.State.{PcNet}
use maxxuss_amdpcnet_v.Tx.{scan_end, find_tx_end, tint_round, tint_loop, lnc_tint}
use maxxuss_amdpcnet_v.Tx.Ring.{TxValid, slot, inc_lem}

idle_status :
    {sc : LncSoftc}
    → TxValid sc
    → sc.pending_transmits ≡ 0
    → (i : ℕ) → i < 32
    → (sc.trans_entries i).md.status ≡ 0
idle_status {sc} v idle i h =
    let k : ℕ = (i + 32 - sc.trans_next) % 32 in
    let e : slot sc k ≡ i = omega (arith, v.next_in) in
    ap (λ j. (sc.trans_entries j).md.status) (sym e) ∙ v.free k (omega (arith, idle)) (omega arith)

scan_idle :
    (fuel : ℕ) (ring : ℕ → HostRingEntry) (mask i : ℕ)
    → ((j : ℕ) → j < 32 → (ring j).md.status ≡ 0)
    → i < 32
    → scan_end fuel ring 5 mask i ≡ none
unfolding scan_end
scan_idle zero ring mask i z h = refl
scan_idle (suc fuel) ring mask i z h =
    rw (inc_lem i 5 refl h, z ((i + 1) % 32) (omega arith), zero-bit_and mask)
      (scan_idle fuel ring mask ((i + 1) % 32) z (omega arith))

-- On a ring that is a queue with no packet, `lnc_tint` never returns: no fuel is enough.
pub lnc_tint_idle :
    (env : Env) (fuel : ℕ) (s : PcNet)
    → TxValid s.sc
    → s.sc.pending_transmits ≡ 0
    → lnc_tint env fuel s ≡ none
unfolding lnc_tint tint_loop tint_round find_tx_end
lnc_tint_idle env zero s v idle = refl
lnc_tint_idle env (suc f) s v idle = rw (
  idle_status v idle s.sc.trans_next v.next_in,
  v.size,
  scan_idle (suc f) s.sc.trans_entries _ s.sc.trans_next (idle_status v idle) v.next_in,
)
