-- ===== src/Tx/Drain.antt =====
-- The whole of `lnc_tint` on a ring that is a queue: it takes the finished packets off the front.
use maxxuss_amdpcnet_v.Base.{
  ℕ, zero, suc, ◌+◌, ◌-◌, ◌%◌, ◌<◌, ◌≤◌, ◌≡◌, refl, arith, Bool, true, false, has, if◌then◌else◌,
  ◌∙◌, ap, sym, some, Bool-cases, inl, inr, dec_lt,
}
use maxxuss_amdpcnet_v.World.{Env}
use maxxuss_amdpcnet_v.Hw.Descriptors.{tmd_own}
use maxxuss_amdpcnet_v.Softc.{LncSoftc}
use maxxuss_amdpcnet_v.State.{PcNet}
use maxxuss_amdpcnet_v.Port.{write_csr}
use maxxuss_amdpcnet_v.Tx.{
  go_on, tint_round, tint_loop, lnc_tint, more_finished, trans_status, finish_tint,
}
use maxxuss_amdpcnet_v.Tx.Ring.{
  TxValid, Dequeued, Dequeued-TxValid, slot, slot_status, slot-Dequeued, slot_status-Dequeued,
}
use maxxuss_amdpcnet_v.Tx.Frame.{TxOnly, TxOnly-trans, release-TxOnly, finish_tint-TxOnly}
use maxxuss_amdpcnet_v.Tx.Reclaim.{NoUnderflow, after_round, round, round-Dequeued}

-- How many of the `n` descriptors from place `k` on the chip has given back, up to the first that it
-- still owns.
unfoldable pub finished : LncSoftc → ℕ → ℕ → ℕ
finished sc zero k = 0
finished sc (suc n) k = if has (slot_status sc k) tmd_own then 0 else suc (finished sc n (k + 1))

-- What `lnc_tint` takes off: the head, and what is finished behind it.
unfoldable pub reclaimable : LncSoftc → ℕ
reclaimable sc = suc (finished sc (sc.pending_transmits - 1) 1)

-- `b` is the queue `a` without its `n` oldest packets.
pub record Drained (a b : LncSoftc) (n : ℕ) : Type 0 where
  pub valid : TxValid b
  pub next : b.trans_next ≡ (a.trans_next + n) % 32
  pub send : b.next_to_send ≡ a.next_to_send
  pub fewer : b.pending_transmits + n ≡ a.pending_transmits
  pub kept :
      (k : ℕ)
      → k < b.pending_transmits
      → b.trans_entries (slot b k) ≡ a.trans_entries (slot a (k + n))
  pub bufs : (j : ℕ) → (b.trans_entries j).buf_addr ≡ (a.trans_entries j).buf_addr

finished-Dequeued :
    {a b : LncSoftc}
    → Dequeued a b
    → TxValid a
    → (n k : ℕ) → k + n ≤ 31
    → finished b n k ≡ finished a n (k + 1)
unfolding finished
finished-Dequeued d v zero k h = refl
finished-Dequeued {a} d v (suc n) k h =
    rw (slot_status-Dequeued d v k (omega arith), finished-Dequeued d v n (k + 1) (omega arith))

pub Drained-one : {a b : LncSoftc} → Dequeued a b → TxValid a → Drained a b 1
Drained-one {a} {b} d v = record {
  valid = Dequeued-TxValid d v;
  next = d.next;
  send = d.send;
  fewer = d.fewer;
  kept = λ k h. slot-Dequeued d v k (omega (arith, d.fewer, v.pending_in));
  bufs = d.bufs;
}

pub Drained-suc :
    {a b c : LncSoftc} (n : ℕ) → Dequeued a b → TxValid a → Drained b c n → Drained a c (suc n)
Drained-suc {a} {b} {c} n d v r = record {
  valid = r.valid;
  next = omega (arith, r.next, d.next);
  send = r.send ∙ d.send;
  fewer = omega (arith, r.fewer, d.fewer);
  kept = λ k h.
      r.kept k h
      ∙ slot-Dequeued d v (k + n) (omega (arith, r.fewer, d.fewer, v.pending_in))
      ∙ ap (λ i. a.trans_entries (slot a i)) (omega arith);
  bufs = λ j. r.bufs j ∙ d.bufs j;
}

head_status :
    {sc : LncSoftc} → TxValid sc → slot_status sc 0 ≡ (sc.trans_entries sc.trans_next).md.status
head_status {sc} v =
    ap (λ i. (sc.trans_entries i).md.status)
      (let e : slot sc 0 ≡ sc.trans_next = omega (arith, v.next_in) in e)

module _ (env : Env) {a : LncSoftc} (t : PcNet) (d : Dequeued a t.sc) (v : TxValid a) where
  second_status : 0 < t.sc.pending_transmits → slot_status a 1 ≡ trans_status t t.sc.trans_next
  second_status h =
      sym (slot_status-Dequeued d v 0 (omega arith)) ∙ head_status (Dequeued-TxValid d v)

  pub reclaimable_more : more_finished env t ≡ true → reclaimable a ≡ suc (reclaimable t.sc)
  unfolding reclaimable finished
  reclaimable_more more =
      let some_left : 0 < t.sc.pending_transmits = ground arith in
      let e : a.pending_transmits - 1 ≡ suc (t.sc.pending_transmits - 1) = omega (arith, d.fewer) in
      let free : has (slot_status a 1) tmd_own ≡ false =
        rw (second_status some_left) (ground arith) in
      rw (
        e,
        free,
        finished-Dequeued d v (t.sc.pending_transmits - 1) 1 (omega (arith, d.fewer, v.pending_in)),
      )

  pub reclaimable_stop : more_finished env t ≡ false → reclaimable a ≡ 1
  unfolding reclaimable finished
  reclaimable_stop stop = elim (dec_lt 0 t.sc.pending_transmits) [
    | yes some_left ↦
        let e : a.pending_transmits - 1 ≡ suc (t.sc.pending_transmits - 1) =
          omega (arith, d.fewer) in
        let owned : has (slot_status a 1) tmd_own ≡ true =
          rw (second_status some_left) (ground arith) in
        rw (e, owned)
    | no none_left ↦ let e : a.pending_transmits - 1 ≡ 0 = omega (arith, d.fewer) in rw e
  ]

module _ (env : Env) (f : ℕ) where
  -- The outcome of the loop: where it stops, and that it ends without a reset.
  abbrev pub Drains : ℕ → Bool → PcNet → Type 0
  Drains rounds lookahead s =
      (t : PcNet) × (tint_loop env (suc f) rounds lookahead s ≡ some (true, t))
      × Drained s.sc t.sc (reclaimable s.sc)
      × TxOnly s t

  pub loop_more :
      (rounds : ℕ) (lookahead : Bool) (s t : PcNet)
      → tint_round env (suc f) lookahead s ≡ some (go_on, t)
      → more_finished env t ≡ true
      → tint_loop env (suc f) (suc rounds) lookahead s ≡ tint_loop env (suc f) rounds true t
  unfolding tint_loop
  loop_more rounds lookahead s t e more = rw e (ground (arith, more))

  pub loop_stop :
      (rounds : ℕ) (lookahead : Bool) (s t : PcNet)
      → tint_round env (suc f) lookahead s ≡ some (go_on, t)
      → more_finished env t ≡ false
      → tint_loop env (suc f) (suc rounds) lookahead s ≡ some (true, t)
  unfolding tint_loop
  loop_stop rounds lookahead s t e stop = rw e (ground (arith, stop))

  loop-Drained :
      (rounds : ℕ) (lookahead : Bool) (s : PcNet)
      → TxValid s.sc
      → 0 < s.sc.pending_transmits
      → s.sc.pending_transmits ≤ rounds
      → ((k : ℕ) → k < s.sc.pending_transmits → NoUnderflow (s.sc.trans_entries (slot s.sc k)))
      → Drains rounds lookahead s
  loop-Drained zero lookahead s v pending h fine = absurd (omega arith)
  loop-Drained (suc rounds) lookahead s v pending h fine =
      let t = after_round env f s v pending in
      let d = round-Dequeued env f s v pending in
      let head : slot s.sc 0 ≡ s.sc.trans_next = omega (arith, v.next_in) in
      let e = round env f s v pending lookahead (rw head at (fine 0 pending)) in
      elim (Bool-cases (more_finished env t)) [
        | inl more ↦
            let rest =
              loop-Drained rounds true t (Dequeued-TxValid d v) (ground arith)
                (omega (arith, d.fewer))
                (λ k l.
                  rw (slot-Dequeued d v k (omega (arith, d.fewer, v.pending_in)))
                    (fine (k + 1) (omega (arith, d.fewer)))) in
            (
              rest.0,
              loop_more rounds lookahead s t e more ∙ rest.1,
              rw (reclaimable_more env t d v more) (Drained-suc _ d v rest.2),
              TxOnly-trans s t rest.0 (release-TxOnly s) rest.3,
            )
        | inr stop ↦ (
          t,
          loop_stop rounds lookahead s t e stop,
          rw (reclaimable_stop env t d v stop) (Drained-one d v),
          release-TxOnly s,
        )
      ]

pub finish_tint-sc : (s : PcNet) → (finish_tint s).sc ≡ s.sc
unfolding finish_tint write_csr
finish_tint-sc s = ground arith

-- On a ring that is a queue with at least one packet, none of which failed by an underflow, 33 units of
-- fuel are enough for `lnc_tint` to return normally with `*reclaimed` set, and it takes off exactly the
-- oldest packet and the finished packets behind it, up to the first that the chip still owns. It leaves
-- the receive ring and the memory alone and hands no packet to the stack.
pub lnc_tint-Drained :
    (env : Env) (f : ℕ) (s : PcNet)
    → 32 ≤ f
    → TxValid s.sc
    → 0 < s.sc.pending_transmits
    → ((k : ℕ) → k < s.sc.pending_transmits → NoUnderflow (s.sc.trans_entries (slot s.sc k)))
    → (t : PcNet) × (lnc_tint env (suc f) s ≡ some (true, t))
      × Drained s.sc t.sc (reclaimable s.sc)
      × TxOnly s t
unfolding lnc_tint
lnc_tint-Drained env f s h v pending fine =
    let r = loop-Drained env f (suc f) false s v pending (omega (arith, v.pending_in)) fine in
    (
      finish_tint r.0,
      rw (r.1),
      rw (finish_tint-sc r.0) r.2,
      TxOnly-trans s r.0 (finish_tint r.0) r.3 (finish_tint-TxOnly r.0),
    )
