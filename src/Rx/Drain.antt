-- ===== src/Rx/Drain.antt =====
-- The whole of `lnc_rint`: it takes the frames that wait, in order, and gives their descriptors back.
use maxxuss_amdpcnet_v.Base.{
  ℕ, zero, suc, ◌+◌, ◌<◌, ◌≤◌, ◌≡◌, arith, Bool, true, false, has, if◌then◌else◌, List, some, ◌∙◌,
  ap, sym, Bool-cases, inl, inr, dec_lt,
}
use maxxuss_amdpcnet_v.World.{Env, Event, allocate_packet}
use maxxuss_amdpcnet_v.Hw.Descriptors.{rmd_stp}
use maxxuss_amdpcnet_v.Softc.{LncSoftc}
use maxxuss_amdpcnet_v.State.{PcNet}
use maxxuss_amdpcnet_v.Port.{write_csr}
use maxxuss_amdpcnet_v.Tx.{go_on}
use maxxuss_amdpcnet_v.Rx.{rint_round, rint_loop, lnc_rint, finish_rint, recv_status}
use maxxuss_amdpcnet_v.Rx.Ring.{RxValid, inputs}
use maxxuss_amdpcnet_v.Rx.Round.{advanced, round_one}
use maxxuss_amdpcnet_v.Rx.Waiting.{
  Emptied, Emptied-suc, Emptied-zero, advanced-RxValid, bounded, head-advanced, starts_at,
  starts_at-advanced, starts_at-zero, waiting, waiting-advanced, waiting-suc, waiting_none,
}

module _ (env : Env) (f : ℕ)
    (allocates : (tr : List Event) (n : ℕ) → env.answer tr (allocate_packet n) ≡ true) where
  abbrev Drains : ℕ → Bool → Bool → ℕ → PcNet → Type 0
  Drains rounds lookahead queued n s =
      (r : Bool × PcNet) × (rint_loop env (suc (suc f)) rounds lookahead queued s
        ≡ some (true, r.0, r.1))
      × Emptied n s r.1

  pub loop_stop :
      (rounds : ℕ) (lookahead queued : Bool) (s : PcNet)
      → has (recv_status s s.sc.recv_next) rmd_stp ≡ false
      → rint_loop env (suc (suc f)) (suc rounds) lookahead queued s ≡ some (true, queued, s)
  unfolding rint_loop
  loop_stop rounds lookahead queued s e = ground (arith, e)

  pub loop_step :
      (rounds : ℕ) (lookahead queued : Bool) (s : PcNet) (r : Bool × PcNet)
      → has (recv_status s s.sc.recv_next) rmd_stp ≡ true
      → rint_round env (suc (suc f)) lookahead s ≡ some (go_on, r.0, r.1)
      → rint_loop env (suc (suc f)) (suc rounds) lookahead queued s
        ≡ rint_loop env (suc (suc f)) rounds true (if r.0 then true else queued) r.1
  unfolding rint_loop
  loop_step rounds lookahead queued s r e step = ground (arith, e, step)

  idle_loop :
      (rounds : ℕ) (lookahead queued : Bool) (s : PcNet)
      → RxValid s.sc
      → starts_at s.sc 0 ≡ false
      → Drains (suc rounds) lookahead queued 0 s
  idle_loop rounds lookahead queued s v idle = (
    (queued, s),
    loop_stop rounds lookahead queued s (sym (starts_at-zero v) ∙ idle),
    Emptied-zero s v idle,
  )

  -- By the number `m` of places that can still hold a frame.
  loop-Emptied :
      (m rounds : ℕ) (lookahead queued : Bool) (s : PcNet)
      → RxValid s.sc
      → m ≤ 32
      → m < rounds
      → ((k : ℕ) → m ≤ k → k < 32 → starts_at s.sc k ≡ false)
      → Drains rounds lookahead queued (waiting s.sc m 0) s
  unfolding waiting
  loop-Emptied m zero lookahead queued s v hm hr no_more = absurd (omega arith)
  loop-Emptied zero (suc rounds) lookahead queued s v hm hr no_more =
      idle_loop rounds lookahead queued s v (no_more 0 (omega arith) (omega arith))
  loop-Emptied (suc m) (suc rounds) lookahead queued s v hm hr no_more =
      elim (Bool-cases (starts_at s.sc 0)) [
        | inl frame ↦
            let starts = sym (starts_at-zero v) ∙ frame in
            let step = round_one env f s v starts lookahead allocates in
            let t = (step.0).1 in
            let e = step.2.soft in
            let rest =
              loop-Emptied m rounds true (if (step.0).0 then true else queued) t
                (rw e (advanced-RxValid v)) (omega arith) (omega arith)
                (λ k h l. rw e (later s.sc v no_more k h l)) in
            let count : waiting s.sc (suc m) 0 ≡ suc (waiting t.sc m 0) =
              waiting-suc s.sc m frame
              ∙ ap suc (
                  sym (
                    ap (λ c. waiting c m 0) e
                    ∙ waiting-advanced s.sc m 0 v.next_in (omega arith))) in
            (
              rest.0,
              loop_step rounds lookahead queued s step.0 starts step.1 ∙ rest.1,
              rw count
                  (Emptied-suc _ s t (rest.0).1 (bounded t.sc m 0 (omega arith)) v step.2 rest.2),
            )
        | inr idle ↦ rw (waiting_none s.sc m idle) (idle_loop rounds lookahead queued s v idle)
      ]
    where
      later :
          (sc : LncSoftc)
          → RxValid sc
          → ((k : ℕ) → suc m ≤ k → k < 32 → starts_at sc k ≡ false)
          → (k : ℕ) → m ≤ k
          → k < 32
          → starts_at (advanced sc) k ≡ false
      later sc v none_left k h l = elim (dec_lt k 31) [
        | yes p ↦
            starts_at-advanced sc k v.next_in p ∙ none_left (k + 1) (omega arith) (omega arith)
        | no p ↦ let last : k ≡ 31 = omega arith in rw (last, (head-advanced sc v.next_in).0)
      ]

pub finish_rint-lem :
    (s : PcNet)
    → let t = finish_rint s in (t.sc ≡ s.sc) × (inputs t.trace ≡ inputs s.trace) × (t.mem ≡ s.mem)
unfolding finish_rint write_csr inputs
finish_rint-lem s = ground arith

-- On a ring where every frame fits one buffer, and while packet buffers can be had, 34 units of fuel
-- are enough for `lnc_rint` to return normally. It hands the frames that wait to the interface, oldest
-- first, less those with an error and those from the station itself; it gives exactly their
-- descriptors back to the chip, leaves the others alone, and stops where no frame waits.
pub lnc_rint-Emptied :
    (env : Env) (f : ℕ) (queued : Bool) (s : PcNet)
    → 32 ≤ f
    → ((tr : List Event) (n : ℕ) → env.answer tr (allocate_packet n) ≡ true)
    → RxValid s.sc
    → (r : Bool × PcNet) × (lnc_rint env (suc (suc f)) queued s ≡ some (r.0, r.1))
      × Emptied (waiting s.sc 32 0) s r.1
unfolding lnc_rint
lnc_rint-Emptied env f queued s h allocates v =
    let r =
      loop-Emptied env f allocates 32 (suc (suc f)) false queued s v (omega arith) (omega arith)
        (λ k p q. absurd (omega arith)) in
    let d = r.2 in
    let e = finish_rint-lem (r.0).1 in
    (
      ((r.0).0, finish_rint (r.0).1),
      rw (r.1),
      record {
        valid = rw (e.0) d.valid;
        next = rw (e.0) d.next;
        given_back = rw (e.0) d.given_back;
        others = rw (e.0) d.others;
        handed = rw (e.1) d.handed;
        emptied = rw (e.0) d.emptied;
        soft = rw (e.0) d.soft;
        same_mem = e.2 ∙ d.same_mem;
        bufs = rw (e.0) d.bufs;
      },
    )
