-- ===== src/System/Deliver.antt =====
-- A frame that the chip receives, and the frames that `lnc_rint` hands on then.
use maxxuss_amdpcnet_v.Base.{
  ℕ, zero, suc, ◌+◌, ◌-◌, ◌%◌, ◌<◌, ◌≤◌, ◌≡◌, ◌≢◌, refl, arith, ap, ap₂, sym, ◌∙◌, Bool, true,
  false, has, List, ◌++◌, length, inl, inr, dec_lt, bit_or, some, ltb, if◌then◌else◌, ℕ_discrete,
  length-append,
}
use maxxuss_amdpcnet_v.World.{Env, allocate_packet, Event}
use maxxuss_amdpcnet_v.Hw.{Mds}
use maxxuss_amdpcnet_v.Hw.Descriptors.{rmd_own, rmd_stp, rmd_enp, rmd_err}
use maxxuss_amdpcnet_v.Softc.{LncSoftc, HostRingEntry, lnc_recvbufsize}
use maxxuss_amdpcnet_v.State.{PcNet}
use maxxuss_amdpcnet_v.Tx.{bcopy}
use maxxuss_amdpcnet_v.Tx.Output.{bcopy_outside}
use maxxuss_amdpcnet_v.Rx.{lnc_rint, recv_status}
use maxxuss_amdpcnet_v.Rx.Ring.{accepted, frame, frame_length}
use maxxuss_amdpcnet_v.Rx.Waiting.{place, starts_at, waiting, Emptied}
use maxxuss_amdpcnet_v.Rx.Drain.{lnc_rint-Emptied}
use maxxuss_amdpcnet_v.System.{IsReceived, with_recv_md}
use maxxuss_amdpcnet_v.System.Network.{kept}
use maxxuss_amdpcnet_v.System.Frames.{true-false, some-pair, bytes_at-bcopy_append}
use maxxuss_amdpcnet_v.System.Receive.{
  RecvInv, undelivered, station, due-cong, due-snoc, accepted-agree,
}

-- The chip receives a frame into the descriptor at its place.
module _ (base at w : ℕ) (s : PcNet) (failed : Bool) (m : Mds) (payload fcs : List ℕ)
    (i : RecvInv base s at w) (own : has (recv_status s at) rmd_own ≡ true)
    (got : IsReceived failed m payload fcs) where
  abbrev pub filled_one : PcNet
  filled_one = record (with_recv_md at m s) {
    mem = bcopy (payload ++ fcs) (s.sc.recv_entries at).buf_addr s.mem;
  }

  at_place : place s.sc w ≡ at
  at_place = sym i.behind

  room : w < 32
  room = elim (dec_lt w 32) [
    | yes p ↦ p
    | no p ↦
        let round : at ≡ place s.sc 0 = omega (arith, i.behind, i.most) in
        absurd (
          true-false
            (sym own ∙ ap (λ j. has (recv_status s j) rmd_own) round ∙ i.freed 0 (omega arith)))
  ]

  other_entry : (j : ℕ) → j ≢ at → filled_one.sc.recv_entries j ≡ s.sc.recv_entries j
  other_entry j ne = ground (arith, ne)

  this_entry : filled_one.sc.recv_entries at ≡ record (s.sc.recv_entries at) { md = m }
  this_entry = ground arith

  each_entry :
      (P : HostRingEntry → Type 0)
      → P (record (s.sc.recv_entries at) { md = m })
      → (j : ℕ) → P (s.sc.recv_entries j)
      → P (filled_one.sc.recv_entries j)
  each_entry P new j old = elim (ℕ_discrete j at) [
    | yes e ↦ rw (e, this_entry) new
    | no ne ↦ rw (other_entry j ne) old
  ]

  apart : (k : ℕ) → k < 32 → k ≢ w → place s.sc k ≢ at
  apart k h ne = omega (arith, i.behind, room, i.rx.next_in)

  -- What holds of the frames that waited and of the new one.
  each_place :
      (test : HostRingEntry → Bool) (b : Bool) (k : ℕ)
      → k < suc w
      → test (record (s.sc.recv_entries at) { md = m }) ≡ b
      → ((j : ℕ) → j < w → test (s.sc.recv_entries (place s.sc j)) ≡ b)
      → test (filled_one.sc.recv_entries (place s.sc k)) ≡ b
  each_place test b k h new old = elim (ℕ_discrete k w) [
    | yes e ↦
        ap (λ j. test (filled_one.sc.recv_entries (place s.sc j))) e
        ∙ ap (λ j. test (filled_one.sc.recv_entries j)) at_place
        ∙ ap test this_entry
        ∙ new
    | no ne ↦
        ap test (other_entry (place s.sc k) (apart k (omega (arith, room)) ne))
        ∙ old k (omega arith)
  ]

  length_lem : frame_length (record (s.sc.recv_entries at) { md = m }) ≡ length payload
  length_lem = rw got.counted (omega (arith, got.fits))

  pub receive-RecvInv : RecvInv base filled_one ((at + 1) % 32) (suc w)
  receive-RecvInv = record {
    rx = record {
      size = i.rx.size;
      next_in = i.rx.next_in;
      single = λ j h.
          each_entry
            (λ e. has e.md.status rmd_stp ≡ true → has e.md.status (bit_or rmd_enp rmd_err) ≡ true)
            (λ p. got.ends) j (i.rx.single j h);
      long = λ j h.
          each_entry
            (λ e.
              has e.md.status rmd_stp ≡ true
              → has e.md.status rmd_err ≡ false
              → 12 ≤ frame_length e)
            (λ p q. omega (arith, length_lem, got.header)) j (i.rx.long j h);
    };
    most = room;
    behind = omega (arith, i.behind);
    filled = λ k h. each_place (λ e. has e.md.status rmd_stp) true k h got.starts i.filled;
    freed = λ k h. each_place (λ e. has e.md.status rmd_own) false k h got.freed i.freed;
    empty = λ k h l.
        rw (other_entry (place s.sc k) (apart k l (omega arith))) (i.empty k (omega arith) l);
    bufs = λ j h. ground (arith, i.bufs j h);
  }

  frame_lem : frame filled_one.mem (filled_one.sc.recv_entries at) ≡ payload
  frame_lem =
      let buf = (s.sc.recv_entries at).buf_addr in
      let whole : (if ltb (length payload) lnc_recvbufsize then length payload else lnc_recvbufsize)
          ≡ length payload =
        ground (arith, got.fits) in
      ap (frame filled_one.mem) this_entry
      ∙ rw (length_lem, whole) (bytes_at-bcopy_append payload fcs buf s.mem)

  new_frame :
      accepted (station s) filled_one.mem (filled_one.sc.recv_entries at)
      ≡ kept (station s) failed payload
  unfolding accepted
  new_frame =
      let status : has ((filled_one.sc.recv_entries at).md.status) rmd_err ≡ failed =
        ap (λ e. has e.md.status rmd_err) this_entry ∙ got.error in
      rw (status, frame_lem) refl

  -- The frame stands in a buffer of its own.
  outside :
      (k : ℕ)
      → k < 32
      → k ≢ w
      → (x : ℕ) → (s.sc.recv_entries (place s.sc k)).buf_addr ≤ x
      → x < (s.sc.recv_entries (place s.sc k)).buf_addr + lnc_recvbufsize
      → filled_one.mem x ≡ s.mem x
  outside k h ne x p q =
      let here = i.bufs (place s.sc k) (omega arith) in
      let there = i.bufs at (omega (arith, i.behind)) in
      let other = apart k h ne in
      let small : length (payload ++ fcs) ≤ 1544 =
        omega (arith, length-append payload fcs, got.checksum, got.fits) in
      bcopy_outside (payload ++ fcs) _ s.mem x (elim (dec_lt x (s.sc.recv_entries at).buf_addr) [
        | yes below ↦ inl below
        | no above ↦ inr (omega (arith, here, there, other, small))
      ])

  -- The frame joins the end of those that wait, unless it is dropped.
  pub receive-undelivered :
      undelivered filled_one (suc w) ≡ undelivered s w ++ kept (station s) failed payload
  receive-undelivered =
      let at_last : place s.sc (0 + w) ≡ at = omega (arith, i.behind) in
      due-snoc filled_one.mem filled_one.sc w 0
      ∙ ap₂ ◌++◌
          (due-cong s.mem filled_one.mem s.sc filled_one.sc w 0 (λ k h.
            ap (accepted (station s) filled_one.mem)
              (other_entry (place s.sc (0 + k)) (apart (0 + k) (omega (arith, room)) (omega arith)))
            ∙ accepted-agree (station s) s.mem filled_one.mem
                (s.sc.recv_entries (place s.sc (0 + k)))
                (λ x p q. outside (0 + k) (omega (arith, room)) (omega arith) x p q)))
          (ap (λ j. accepted (station s) filled_one.mem (filled_one.sc.recv_entries j)) at_last
            ∙ new_frame)

waiting_count :
    (sc : LncSoftc) (w n k : ℕ)
    → w ≤ n
    → ((j : ℕ) → j < w → starts_at sc (k + j) ≡ true)
    → ((j : ℕ) → w ≤ j → j < n → starts_at sc (k + j) ≡ false)
    → waiting sc n k ≡ w
unfolding waiting
waiting_count sc zero zero k h filled empty = refl
waiting_count sc (suc w) zero k h filled empty = absurd (omega arith)
waiting_count sc zero (suc n) k h filled empty =
    let e : k + 0 ≡ k = omega arith in rw (rw e at (empty 0 (omega arith) (omega arith)))
waiting_count sc (suc w) (suc n) k h filled empty =
    let e : k + 0 ≡ k = omega arith in
    let on : (j : ℕ) → k + suc j ≡ k + 1 + j = λ j. omega arith in
    rw (rw e at (filled 0 (omega arith))) (
      ap suc (
        waiting_count sc w n (k + 1) (omega arith)
          (λ j l. rw (on j) at (filled (suc j) (omega arith)))
          (λ j l p. rw (on j) at (empty (suc j) (omega arith) (omega arith)))))

pub RecvInv-waiting : (base at w : ℕ) (s : PcNet) → RecvInv base s at w → waiting s.sc 32 0 ≡ w
RecvInv-waiting base at w s i =
    waiting_count s.sc w 32 0 i.most (λ j h. let z : 0 + j ≡ j = omega arith in rw z (i.filled j h))
      (λ j h l. let z : 0 + j ≡ j = omega arith in rw z (i.empty j h l))

-- `lnc_rint` hands on the frames that wait.
module _ (env : Env) (base at w f : ℕ) (queued : Bool) (s : PcNet) (i : RecvInv base s at w)
    (enough : 32 ≤ f)
    (allocates : (tr : List Event) (n : ℕ) → env.answer tr (allocate_packet n) ≡ true) (b : Bool)
    (t : PcNet) (e : lnc_rint env (suc (suc f)) queued s ≡ some (b, t)) where
  abbrev after_rint :
      (r : Bool × PcNet) × (lnc_rint env (suc (suc f)) queued s ≡ some (r.0, r.1))
      × Emptied (waiting s.sc 32 0) s r.1
  after_rint = lnc_rint-Emptied env f queued s enough allocates i.rx

  pub deliver-Emptied : Emptied w s t
  deliver-Emptied =
      let same : t ≡ (after_rint.0).1 = some-pair (sym e ∙ after_rint.1) in
      rw (same, ← RecvInv-waiting base at w s i) after_rint.2

  none_wait : (k : ℕ) → k < 32 → starts_at t.sc k ≡ false
  none_wait k h =
      let r = deliver-Emptied in
      elim (dec_lt (k + w) 32) [
        | yes p ↦
            let same : place t.sc k ≡ place s.sc (k + w) = omega (arith, r.next) in
            ap (λ j. has ((t.sc.recv_entries j).md.status) rmd_stp) same
            ∙ ap (λ x. has x.md.status rmd_stp) (r.others (k + w) (omega arith) p)
            ∙ i.empty (k + w) (omega arith) p
        | no p ↦
            let j = k + w - 32 in
            let same : place t.sc k ≡ place s.sc j = omega (arith, r.next, p) in
            ap (λ j. has ((t.sc.recv_entries j).md.status) rmd_stp) same
            ∙ ap (λ x. has x rmd_stp)
                (r.given_back j (omega (arith, i.most, p)) (omega (arith, i.most, p))).0
      ]

  pub deliver-RecvInv : RecvInv base t at 0
  deliver-RecvInv =
      let r = deliver-Emptied in
      record {
        rx = r.valid;
        most = omega arith;
        behind = i.behind ∙ omega (arith, r.next);
        filled = λ k h. absurd (omega arith);
        freed = λ k h. absurd (omega arith);
        empty = λ k h l. none_wait k l;
        bufs = λ j h. r.bufs j ∙ i.bufs j h;
      }
