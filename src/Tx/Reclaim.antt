-- ===== src/Tx/Reclaim.antt =====
-- `lnc_tint` on a ring that is a queue: one round takes one packet off.
use maxxuss_amdpcnet_v.Base.{
  ℕ, suc, ◌+◌, ◌%◌, ◌<◌, ◌≡◌, ◌≢◌, refl, arith, Bool, true, false, has, not, ◌==◌, ==_iff, ◌&&◌,
  bit_or, bit_and, if◌then◌else◌, not32, ◌∙◌, sym, some, Bool-cases, inl, inr,
}
use maxxuss_amdpcnet_v.Base.Bits.{has-bit_or}
use maxxuss_amdpcnet_v.World.{Env, service_queue_async}
use maxxuss_amdpcnet_v.Hw.Descriptors.{tmd_enp, tmd_err, tmd_uflo}
use maxxuss_amdpcnet_v.Softc.{
  LncSoftc, HostRingEntry, lnc_inc_md_ptr, lnc_iff_drv_oactive, set_status,
}
use maxxuss_amdpcnet_v.State.{PcNet, with_sc, act}
use maxxuss_amdpcnet_v.Tx.{
  go_on, find_tx_end, tx_outcome, release_packet, tint_round, note_tx_errors, note_tx_done,
  note_lcol, note_lcar, note_rtry, skip_packet, clear_packet, trans_status, with_trans_next,
  int_dec,
}
use maxxuss_amdpcnet_v.Tx.Ring.{TxValid, Dequeued, slot, slot_status, inc_lem}

-- The oldest packet did not fail by an underflow, which resets the chip.
abbrev pub NoUnderflow : HostRingEntry → Type 0
NoUnderflow e = (has e.md.status tmd_err && has e.md.ext_status tmd_uflo) ≡ false

-- `b` is `a` but for the extended status of the head, and the bits of the flags.
record HeadKept (a b : LncSoftc) : Type 0 where
  size : b.ntdre ≡ a.ntdre
  next : b.trans_next ≡ a.trans_next
  send : b.next_to_send ≡ a.next_to_send
  count : b.pending_transmits ≡ a.pending_transmits
  head : (b.trans_entries a.trans_next).md.status ≡ (a.trans_entries a.trans_next).md.status
  others : (j : ℕ) → j ≢ a.trans_next → b.trans_entries j ≡ a.trans_entries j
  bufs : (j : ℕ) → (b.trans_entries j).buf_addr ≡ (a.trans_entries j).buf_addr

HeadKept-trans : {a b c : LncSoftc} → HeadKept a b → HeadKept b c → HeadKept a c
HeadKept-trans {a} {b} {c} p q = record {
  size = q.size ∙ p.size;
  next = q.next ∙ p.next;
  send = q.send ∙ p.send;
  count = q.count ∙ p.count;
  head = ground (arith, p.next, q.head, p.head);
  others = λ j h. ground (arith, p.next, q.others j, p.others j);
  bufs = λ j. q.bufs j ∙ p.bufs j;
}

module _ (ext : ℕ) (s : PcNet) where
  note_lcol-HeadKept : HeadKept s.sc (note_lcol ext s).sc
  unfolding note_lcol
  note_lcol-HeadKept = ground arith

  note_lcar-HeadKept : HeadKept s.sc (note_lcar ext s).sc
  unfolding note_lcar
  note_lcar-HeadKept = ground arith

  note_rtry-HeadKept : HeadKept s.sc (note_rtry ext s).sc
  unfolding note_rtry
  note_rtry-HeadKept = ground arith

note_tx_errors-HeadKept : (ext : ℕ) (s : PcNet) → HeadKept s.sc (note_tx_errors ext s).sc
unfolding note_tx_errors
note_tx_errors-HeadKept ext s =
    HeadKept-trans (note_lcol-HeadKept ext _)
      (HeadKept-trans (note_lcar-HeadKept ext _) (note_rtry-HeadKept ext _))

note_tx_done-sc : (st : ℕ) (s : PcNet) → (note_tx_done st s).sc ≡ s.sc
unfolding note_tx_done
note_tx_done-sc st s = ground arith

-- `b` is `a` with the head kept and `trans_next` behind the head.
record Passed (a b : LncSoftc) : Type 0 where
  size : b.ntdre ≡ a.ntdre
  next : b.trans_next ≡ (a.trans_next + 1) % 32
  send : b.next_to_send ≡ a.next_to_send
  count : b.pending_transmits ≡ a.pending_transmits
  others : (j : ℕ) → j ≢ a.trans_next → b.trans_entries j ≡ a.trans_entries j
  bufs : (j : ℕ) → (b.trans_entries j).buf_addr ≡ (a.trans_entries j).buf_addr

-- `s` with the fate of its head counted and `trans_next` behind the head.
unfoldable pub moved : PcNet → PcNet
moved s =
    let head = (s.sc.trans_entries s.sc.trans_next).md in
    with_trans_next ((s.sc.trans_next + 1) % 32) (
      if has head.status tmd_err
      then note_tx_errors head.ext_status s
      else note_tx_done head.status s)

moved-Passed : (s : PcNet) → Passed s.sc (moved s).sc
unfolding moved
moved-Passed s = elim (Bool-cases (has (trans_status s s.sc.trans_next) tmd_err)) [
  | inl bad ↦
      let k = note_tx_errors-HeadKept ((s.sc.trans_entries s.sc.trans_next).md.ext_status) s in
      rw bad (record {
        size = k.size;
        next = refl;
        send = k.send;
        count = k.count;
        others = k.others;
        bufs = k.bufs;
      })
  | inr good ↦
      let e = note_tx_done-sc (trans_status s s.sc.trans_next) s in rw (good, e) (ground arith)
]

module _ (env : Env) (f : ℕ) (s : PcNet) (v : TxValid s.sc)
    (pending : 0 < s.sc.pending_transmits) where
  head_slot : slot s.sc 0 ≡ s.sc.trans_next
  head_slot = omega (arith, v.next_in)

  head_ends : has (trans_status s s.sc.trans_next) (bit_or tmd_enp tmd_err) ≡ true
  head_ends =
      let e : has (trans_status s s.sc.trans_next) tmd_enp ≡ true =
        rw (slot_status, head_slot) at (v.ends 0 pending) in
      ground (arith, has-bit_or (trans_status s s.sc.trans_next) tmd_enp tmd_err)

  pub find_head : (lookahead : Bool) → find_tx_end env (suc f) lookahead s ≡ some (go_on, s)
  unfolding find_tx_end
  find_head lookahead = rw head_ends

  -- Behind the head stands the start of a packet, or the ring's end.
  skip_head :
      {a : LncSoftc}
      → HeadKept s.sc a
      → skip_packet (suc f) a s.sc.trans_next ≡ some ((s.sc.trans_next + 1) % 32)
  unfolding skip_packet
  skip_head {a} k =
      let e : lnc_inc_md_ptr s.sc.trans_next a.ntdre ≡ (s.sc.trans_next + 1) % 32 =
        inc_lem s.sc.trans_next a.ntdre (k.size ∙ v.size) v.next_in in
      rw e (
        ground
          (arith, k.send, v.order, v.starts 1, k.others ((s.sc.trans_next + 1) % 32), v.next_in))

  outcome :
      NoUnderflow (s.sc.trans_entries s.sc.trans_next)
      → tx_outcome env (suc f) s ≡ some (go_on, moved s)
  unfolding tx_outcome moved
  outcome fine = elim (Bool-cases (has (trans_status s s.sc.trans_next) tmd_err)) [
    | inl bad ↦
        let ext = (s.sc.trans_entries s.sc.trans_next).md.ext_status in
        let ok : has ext tmd_uflo ≡ false = ground (arith, bad, fine) in
        rw (bad, ok) (rw (skip_head (note_tx_errors-HeadKept ext s)))
    | inr good ↦ rw (good, inc_lem s.sc.trans_next s.sc.ntdre v.size v.next_in)
  ]

-- The state after one packet is released behind the head `start`.
unfoldable pub released : ℕ → PcNet → PcNet
released start o =
    let s1 =
      with_sc
        (record o.sc {
          trans_entries = set_status o.sc.trans_entries start 0;
          pending_transmits = int_dec o.sc.pending_transmits;
          if_drv_flags = bit_and o.sc.if_drv_flags (not32 lnc_iff_drv_oactive);
        })
        o in
    if s1.transmit_queue && not (s1.sc.pending_transmits == 0)
    then act service_queue_async s1
    else s1

released-Dequeued :
    (a : LncSoftc) (o : PcNet)
    → TxValid a
    → 0 < a.pending_transmits
    → Passed a o.sc
    → Dequeued a (released a.trans_next o).sc
unfolding released
released-Dequeued a o v pending p =
    ground (arith, p.size, p.next, p.send, p.count, v.pending_in, p.others, p.bufs)

clear_one :
    (f start : ℕ) (sc : LncSoftc)
    → lnc_inc_md_ptr start sc.ntdre ≡ sc.trans_next
    → clear_packet (suc f) start sc
      ≡ some (record sc {
        trans_entries = set_status sc.trans_entries start 0;
        pending_transmits = int_dec sc.pending_transmits;
      })
unfolding clear_packet
clear_one f start sc e = rw (e, (==_iff sc.trans_next sc.trans_next).1 refl)

release :
    (env : Env) (f : ℕ) (a : LncSoftc) (o : PcNet)
    → TxValid a
    → Passed a o.sc
    → release_packet env (suc f) a.trans_next o ≡ some (released a.trans_next o)
unfolding release_packet released
release env f a o v p =
    let e = inc_lem a.trans_next o.sc.ntdre (p.size ∙ v.size) v.next_in in
    rw (clear_one f a.trans_next o.sc (e ∙ sym p.next))

module _ (env : Env) (f : ℕ) (s : PcNet) (v : TxValid s.sc)
    (pending : 0 < s.sc.pending_transmits) where
  -- The state after one round.
  abbrev pub after_round : PcNet
  after_round = released s.sc.trans_next (moved s)

  pub round :
      (lookahead : Bool)
      → NoUnderflow (s.sc.trans_entries s.sc.trans_next)
      → tint_round env (suc f) lookahead s ≡ some (go_on, after_round)
  unfolding tint_round
  round lookahead fine =
      rw (find_head env f s v pending lookahead, outcome env f s v pending fine)
        (rw (release env f s.sc (moved s) v (moved-Passed s)))

  pub round-Dequeued : Dequeued s.sc after_round.sc
  round-Dequeued = released-Dequeued s.sc (moved s) v pending (moved-Passed s)
