-- ===== src/Rx/Span/Rint.antt =====
-- The whole of `lnc_rint` on such a ring.
use maxxuss_amdpcnet_v.Base.{
  ℕ, zero, suc, ◌+◌, ◌<◌, ◌≤◌, ◌≡◌, refl, arith, ap, sym, ◌∙◌, Bool, true, false, List, [], ◌∷◌,
  some, if◌then◌else◌, has, inl, inr, ℕ_discrete,
}
use maxxuss_amdpcnet_v.World.{Env, Event, allocate_packet}
use maxxuss_amdpcnet_v.Hw.Descriptors.{rmd_stp}
use maxxuss_amdpcnet_v.State.{PcNet}
use maxxuss_amdpcnet_v.Rx.{lnc_rint, rint_loop, finish_rint, recv_status}
use maxxuss_amdpcnet_v.Rx.Waiting.{place, starts_at}
use maxxuss_amdpcnet_v.Rx.Drain.{loop_stop, loop_step, finish_rint-lem}
use maxxuss_amdpcnet_v.Rx.Span.{Handled}
use maxxuss_amdpcnet_v.Rx.Span.Taken.{round_span}
use maxxuss_amdpcnet_v.Rx.Span.Mixed.{
  descriptors, accepted_frames, Holds, Handled-nil, Handled-append, flags-Handled, FramesAt-Handled,
  accepted_frames-Handled,
}

-- The ring without its first frame.
Holds-Handled :
    (m : ℕ) (ms : List ℕ) (xs : List (List ℕ)) (s t : PcNet)
    → Holds (m ∷ ms) s.sc
    → Handled (suc m) xs s t
    → Holds ms t.sc
unfolding descriptors
Holds-Handled m ms xs s t v d =
    let e : 0 + suc m ≡ suc m + 0 = omega arith in
    record {
      size = ap (λ c. c.nrdre) d.soft ∙ v.size;
      next_in = omega (arith, d.next);
      frames = FramesAt-Handled d ms 0 (omega (arith, v.fit)) (rw (sym e) v.frames.1);
      fit = omega (arith, v.fit);
      end = inr (elim (ℕ_discrete (descriptors (m ∷ ms)) 32) [
        | yes full ↦
            let back : place t.sc (descriptors ms) ≡ place s.sc 0 =
              omega (arith, d.next, full, v.next_in) in
            ap (λ j. has ((t.sc.recv_entries j).md.status) rmd_stp) back
            ∙ ap (λ x. has x rmd_stp) (d.given_back 0 (omega arith) (omega arith)).0
        | no less ↦ elim (v.end) [
          | inl full ↦ absurd (less full)
          | inr free ↦ flags-Handled d rmd_stp (descriptors ms) (omega (arith, v.fit, less)) ∙ free
        ]
      ]);
    }

module _ (env : Env) (f : ℕ) (enough : 32 ≤ f)
    (allocates : (tr : List Event) (n : ℕ) → env.answer tr (allocate_packet n) ≡ true) where
  abbrev HandlesAll : ℕ → Bool → Bool → List ℕ → PcNet → Type 0
  HandlesAll rounds lookahead queued ms s =
      (r : Bool × PcNet) × (rint_loop env (suc (suc f)) rounds lookahead queued s
        ≡ some (true, r.0, r.1))
      × Handled (descriptors ms) (accepted_frames s.mem s.sc ms 0) s r.1
      × (starts_at r.1.sc 0 ≡ false)

  loop-Handled :
      (ms : List ℕ) (rounds : ℕ) (lookahead queued : Bool) (s : PcNet)
      → Holds ms s.sc
      → descriptors ms < rounds
      → HandlesAll rounds lookahead queued ms s
  unfolding descriptors accepted_frames
  loop-Handled ms zero lookahead queued s v h = absurd (omega arith)
  loop-Handled [] (suc rounds) lookahead queued s v h = elim (v.end) [
    | inl full ↦ absurd (omega (arith, full))
    | inr idle ↦
        let here : place s.sc 0 ≡ s.sc.recv_next = omega (arith, v.next_in) in
        let stop : has (recv_status s s.sc.recv_next) rmd_stp ≡ false = rw (sym here) idle in
        (
          (queued, s),
          loop_stop env f allocates rounds lookahead queued s stop,
          Handled-nil s v.next_in,
          idle,
        )
  ]
  loop-Handled (m ∷ ms) (suc rounds) lookahead queued s v h =
      let here : place s.sc 0 ≡ s.sc.recv_next = omega (arith, v.next_in) in
      let frame = v.frames.0 in
      let starts : has (recv_status s s.sc.recv_next) rmd_stp ≡ true = rw (sym here) frame.starts in
      let (r, step, d) =
        round_span env (suc (suc f)) s v.size v.next_in m lookahead frame
          (omega (arith, frame.within)) allocates in
      let t = r.1 in
      let rest =
        loop-Handled ms rounds true (if r.0 then true else queued) t (Holds-Handled m ms _ s t v d)
          (omega arith) in
      let e : suc m + 0 ≡ 0 + suc m = omega arith in
      let others =
        accepted_frames-Handled d ms 0 (omega (arith, v.fit))
        ∙ ap (accepted_frames s.mem s.sc ms) e in
      (
        rest.0,
        loop_step env f allocates rounds lookahead queued s r starts step ∙ rest.1,
        rw (sym others) (Handled-append d v.fit rest.2),
        rest.3,
      )

finish_rint-Handled :
    (n : ℕ) (xs : List (List ℕ)) (s t : PcNet) → Handled n xs s t → Handled n xs s (finish_rint t)
finish_rint-Handled n xs s t d =
    let e = finish_rint-lem t in
    record {
      given_back = rw (e.0) d.given_back;
      others = rw (e.0) d.others;
      bufs = rw (e.0) d.bufs;
      soft = rw (e.0) d.soft;
      next = rw (e.0) d.next;
      handed = e.1 ∙ d.handed;
      same_mem = e.2 ∙ d.same_mem;
    }

-- On a ring of frames of any numbers of descriptors, 31 at most each, with an error or without, one
-- behind the other from the driver's place on, and while packets can be had, 34 units of fuel are enough
-- for `lnc_rint` to return normally. It joins each frame without error, hands those that are not from
-- the station itself to the interface, oldest first, gives exactly the frames' descriptors back to the
-- chip, and stops behind the last frame, where none begins.
pub lnc_rint-Handled :
    (env : Env) (f : ℕ) (queued : Bool) (ms : List ℕ) (s : PcNet)
    → 32 ≤ f
    → ((tr : List Event) (n : ℕ) → env.answer tr (allocate_packet n) ≡ true)
    → Holds ms s.sc
    → (r : Bool × PcNet) × (lnc_rint env (suc (suc f)) queued s ≡ some (r.0, r.1))
      × Handled (descriptors ms) (accepted_frames s.mem s.sc ms 0) s r.1
      × (starts_at r.1.sc 0 ≡ false)
unfolding lnc_rint
lnc_rint-Handled env f queued ms s h allocates v =
    let (r, e, d, idle) =
      loop-Handled env f h allocates ms (suc (suc f)) false queued s v (omega (arith, v.fit)) in
    let same = (finish_rint-lem r.1).0 in
    (
      (r.0, finish_rint r.1),
      rw e refl,
      finish_rint-Handled _ _ s r.1 d,
      ap (λ c. starts_at c 0) same ∙ idle,
    )
