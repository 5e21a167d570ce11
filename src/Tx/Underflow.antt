-- ===== src/Tx/Underflow.antt =====
-- `lnc_tint` on a ring with packets whatever their fate: an underflow among the packets that it comes to
-- resets the chip.
use maxxuss_amdpcnet_v.Base.{ℕ, suc, ◌<◌, ◌≡◌, ◌⊎◌, Bool, true, false, has, some}
use maxxuss_amdpcnet_v.World.{Env}
use maxxuss_amdpcnet_v.Hw.Descriptors.{tmd_err, tmd_uflo}
use maxxuss_amdpcnet_v.Softc.{LncSoftc, HostRingEntry}
use maxxuss_amdpcnet_v.State.{PcNet, bump}
use maxxuss_amdpcnet_v.Init.Ready.{IsReady}
use maxxuss_amdpcnet_v.Tx.{tint_loop, note_tx_errors, bump_tx_resets, with_counters}
use maxxuss_amdpcnet_v.Tx.Ring.{TxValid, slot}
use maxxuss_amdpcnet_v.Tx.Reclaim.{NoUnderflow, after_round}
use maxxuss_amdpcnet_v.Tx.Drain.{Drained, reclaimable}

-- The descriptor of the packet behind `k` others.
abbrev pub packet_at : LncSoftc → ℕ → HostRingEntry
packet_at sc k = sc.trans_entries (slot sc k)

-- The chip reports that the packet failed by an underflow.
abbrev pub Underflowed : HostRingEntry → Type 0
Underflowed e = (has e.md.status tmd_err ≡ true) × (has e.md.ext_status tmd_uflo ≡ true)

-- None of the `n` oldest packets failed by an underflow.
abbrev pub Fine : LncSoftc → ℕ → Type 0
Fine sc n = (k : ℕ) → k < n → NoUnderflow (packet_at sc k)

-- The counters of underflows and of the resets by transmission.
abbrev pub resets : PcNet → ℕ × ℕ
resets s = (s.counters.tx_underruns, s.counters.tx_resets)

-- What holds the rings' memory.
abbrev memory : PcNet → ℕ × ℕ × ℕ
memory s = (s.sc.nrdre, s.sc.ntdre, s.sc.recv_ring)

module _ (env : Env) where
  -- The chip is reset, and the underflow and the reset are counted.
  abbrev pub Reset : PcNet → PcNet → Type 0
  Reset s t =
      IsReady t.sc
      × (t.counters.tx_underruns ≡ bump s.counters.tx_underruns)
      × (t.counters.tx_resets ≡ bump s.counters.tx_resets)

  -- The state that an underflow of the head leaves.
  at_underflow : PcNet → PcNet
  at_underflow s =
      let s1 = note_tx_errors ((s.sc.trans_entries s.sc.trans_next).md.ext_status) s in
      bump_tx_resets
        (with_counters (record s1.counters { tx_underruns = bump s1.counters.tx_underruns }) s1)

  -- How `lnc_tint` ends: with the oldest packet and the finished ones behind it taken off, none of which
  -- failed by an underflow, or with a reset, at the first of them that did.
  abbrev pub Ended : PcNet → Bool × PcNet → Type 0
  Ended s r =
      ((r.0 ≡ true) × Fine s.sc (reclaimable s.sc) × Drained s.sc r.1.sc (reclaimable s.sc))
      ⊎ ((r.0 ≡ false)
          × (k : ℕ) × (k < reclaimable s.sc)
          × Fine s.sc k
          × Underflowed (packet_at s.sc k)
          × Reset s r.1)

module _ (env : Env) (f : ℕ) where
  abbrev LoopEnds : ℕ → Bool → PcNet → Type 0
  LoopEnds rounds lookahead s =
      (r : Bool × PcNet) × (tint_loop env (suc f) rounds lookahead s ≡ some (r.0, r.1))
      × Ended env s r

  module _ (s : PcNet) (v : TxValid s.sc) (pending : 0 < s.sc.pending_transmits) where
    abbrev next_state : PcNet
    next_state = after_round env f s v pending
