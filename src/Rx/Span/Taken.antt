-- ===== src/Rx/Span/Taken.antt =====
-- The round itself: the search for the end of the frame, and what becomes of the packet.
use mathlib.Core.List.{append-nil}
use maxxuss_amdpcnet_v.Base.{
  ℕ, zero, suc, ◌+◌, ◌*◌, ◌<◌, ◌≤◌, ◌≡◌, refl, arith, ap, ap₂, sym, ◌∙◌, Bool, true, false, List,
  [], ◌∷◌, ◌++◌, some, if◌then◌else◌, has, bit_or, Bool-cases, inl, inr,
}
use maxxuss_amdpcnet_v.Base.Bits.{has-bit_or}
use maxxuss_amdpcnet_v.World.{Env, Event, allocate_packet}
use maxxuss_amdpcnet_v.Hw.{ether_addr_len}
use maxxuss_amdpcnet_v.Hw.Descriptors.{rmd_own, rmd_err, rmd_stp, rmd_enp}
use maxxuss_amdpcnet_v.Softc.{lnc_recvbufsize, lnc_inc_md_ptr}
use maxxuss_amdpcnet_v.State.{PcNet, with_sc}
use maxxuss_amdpcnet_v.Tx.{go_on}
use maxxuss_amdpcnet_v.Tx.Ring.{inc_lem}
use maxxuss_amdpcnet_v.Rx.{
  rint_round, find_rx_end, check_rx_end, take_packet, deliver, with_recv_next, recv_status,
  note_rx_error,
}
use maxxuss_amdpcnet_v.Rx.Ring.{frame_length, from_self, inputs}
use maxxuss_amdpcnet_v.Rx.Round.{deliver_lem, same_sender_lem, note_rx_error-frame}
use maxxuss_amdpcnet_v.Rx.Waiting.{place}
use maxxuss_amdpcnet_v.Rx.Copy.{take, stored, mbuf_packet-Returned}
use maxxuss_amdpcnet_v.Rx.Joined.{stop_mask, scan_end_lem}
use maxxuss_amdpcnet_v.Rx.Span.{
  entry_at, flags_at, FrameAt, frame_bytes, accepted_frame, Handled, drop_ring-Returned,
  Returned-Handled,
}

module _ (env : Env) (f : ℕ) (s : PcNet) (size : s.sc.nrdre ≡ 5)
    (next_in : s.sc.recv_next < 32) where
  first_place : place s.sc 0 ≡ s.sc.recv_next
  first_place = omega (arith, next_in)

  span_end :
      (m : ℕ) (lookahead : Bool)
      → FrameAt m 0 s.sc
      → m < f
      → find_rx_end env f lookahead s ≡ some (go_on, with_recv_next (place s.sc m) s)
  unfolding find_rx_end check_rx_end
  span_end zero lookahead v h =
      let e : has (recv_status s s.sc.recv_next) (bit_or rmd_enp rmd_err) ≡ true =
        ap (λ j. has ((s.sc.recv_entries j).md.status) (bit_or rmd_enp rmd_err)) (sym first_place)
        ∙ v.ends in
      rw (e, first_place) refl
  span_end (suc m) lookahead v h =
      let first : has (recv_status s s.sc.recv_next) (bit_or rmd_enp rmd_err) ≡ false =
        ap (λ j. has ((s.sc.recv_entries j).md.status) (bit_or rmd_enp rmd_err)) (sym first_place)
        ∙ v.goes_on 0 (omega arith) in
      let last : 0 + suc m ≡ m + 1 = omega arith in
      let st = flags_at s.sc (m + 1) in
      let outer = has-bit_or st (bit_or (bit_or rmd_stp rmd_own) rmd_enp) rmd_err in
      let enp = has-bit_or st (bit_or rmd_stp rmd_own) rmd_enp in
      let either = has-bit_or st rmd_enp rmd_err in
      let at_end : (mask : ℕ) → has st mask ≡ has (flags_at s.sc (0 + suc m)) mask =
        λ mask. ap (λ j. has (flags_at s.sc j) mask) (sym last) in
      let ends = at_end (bit_or rmd_enp rmd_err) ∙ v.ends in
      let stops : has st stop_mask ≡ true = ground (arith, outer, enp, either, ends) in
      let inner : (k : ℕ) → k < m → has (flags_at s.sc (1 + k)) stop_mask ≡ false = λ k p.
        let here : 0 + suc k ≡ 1 + k = omega arith in
        ap (λ j. has (flags_at s.sc j) stop_mask) (sym here) ∙ v.inner k (omega arith) in
      let scan =
        scan_end_lem s.sc.recv_entries stop_mask m f s.sc.recv_next next_in (omega arith) inner
          stops in
      let no_start = at_end rmd_stp ∙ v.last_starts (omega arith) in
      let freed = at_end rmd_own ∙ v.last_freed (omega arith) in
      let place_end : place s.sc (suc m) ≡ place s.sc (m + 1) = omega arith in
      rw (first, size, scan, no_start, freed, place_end) refl

  -- The end of the frame, and what follows it.
  at_last : (m : ℕ) → entry_at s.sc (0 + m) ≡ entry_at s.sc m
  at_last m = let e : 0 + m ≡ m = omega arith in ap (entry_at s.sc) e

  error_last : (m : ℕ) → has (flags_at s.sc (0 + m)) rmd_err ≡ has (flags_at s.sc m) rmd_err
  error_last m = ap (λ x. has x.md.status rmd_err) (at_last m)

  after_last : (m : ℕ) → lnc_inc_md_ptr (place s.sc m) s.sc.nrdre ≡ place s.sc (suc m)
  after_last m = inc_lem (place s.sc m) s.sc.nrdre size (omega arith) ∙ omega arith

  -- The frame's bytes, with the place of its first descriptor as the driver has it.
  abbrev span_bytes : ℕ → List ℕ
  span_bytes m = take (frame_length (entry_at s.sc m)) (stored s.mem s.sc (suc m) s.sc.recv_next)

  span_bytes_lem : (m : ℕ) → frame_bytes s.mem s.sc m 0 ≡ span_bytes m
  span_bytes_lem m =
      ap₂ take (ap frame_length (at_last m)) (ap (stored s.mem s.sc (suc m)) first_place)

  accepted_bad : (m : ℕ) → has (flags_at s.sc m) rmd_err ≡ true → accepted_frame s.mem s.sc m 0 ≡ []
  unfolding accepted_frame
  accepted_bad m bad = rw (error_last m, bad) refl

  accepted_good :
      (m : ℕ)
      → has (flags_at s.sc m) rmd_err ≡ false
      → accepted_frame s.mem s.sc m 0 ≡ (
          if from_self ether_addr_len 0 s.sc.init_block.phys_addr (span_bytes m)
          then []
          else span_bytes m ∷ [])
  unfolding accepted_frame
  accepted_good m good = rw (span_bytes_lem m) (rw (error_last m, good) refl)

  abbrev Takes : ℕ → Type 0
  Takes m =
      (r : Bool × PcNet) × (take_packet env f s.sc.recv_next (with_recv_next (place s.sc m) s)
        ≡ some (r.0, r.1))
      × Handled (suc m) (accepted_frame s.mem s.sc m 0) s r.1

  take_dropped : (m : ℕ) → m ≤ 30 → suc m < f → has (flags_at s.sc m) rmd_err ≡ true → Takes m
  unfolding take_packet
  take_dropped m within h bad =
      let s1 = with_recv_next (place s.sc (suc m)) s in
      let flags = flags_at s.sc m in
      let fr = note_rx_error-frame flags s1 in
      let (t, e, r) =
        drop_ring-Returned (suc m) f s.sc.recv_next s1.sc h (omega arith) next_in size refl in
      let u = with_sc t (note_rx_error flags s1) in
      let quiet : inputs u.trace ≡ inputs s.trace = ap {A = PcNet} (λ x. inputs x.trace) fr in
      let mem : u.mem ≡ s.mem = ap {A = PcNet} (λ x. x.mem) fr in
      (
        (false, u),
        rw (bad, after_last m, fr, e) refl,
        Returned-Handled (suc m) (accepted_frame s.mem s.sc m 0) s u r
            (quiet
              ∙ sym (append-nil (inputs s.trace))
              ∙ ap (λ l. inputs s.trace ++ l) (sym (accepted_bad m bad)))
            mem,
      )

  take_kept :
      (m : ℕ)
      → m ≤ 30
      → suc m < f
      → ((tr : List Event) (k : ℕ) → env.answer tr (allocate_packet k) ≡ true)
      → has (flags_at s.sc m) rmd_err ≡ false
      → 12 ≤ frame_length (entry_at s.sc m)
      → frame_length (entry_at s.sc m) ≤ suc m * lnc_recvbufsize
      → Takes m
  unfolding take_packet inputs stored
  take_kept m within h allocates good header fits =
      let len = frame_length (entry_at s.sc m) in
      let s1 = with_recv_next (place s.sc (suc m)) s in
      let k =
        mbuf_packet-Returned env (suc m) f s.sc.recv_next len s1 h (omega arith) next_in
          (omega arith) size refl (allocates s.trace len) in
      let t = k.0 in
      let d = deliver_lem env t (span_bytes m) len in
      let same = k.4 in
      let address : t.sc.init_block.phys_addr ≡ s.sc.init_block.phys_addr =
        ap (λ c. c.init_block.phys_addr) k.3.soft in
      let sender =
        same_sender_lem env 6 0 (span_bytes m) t (omega (arith, k.2 fits, header))
        ∙ ap (λ a. from_self ether_addr_len 0 a (span_bytes m)) address in
      let quiet : inputs t.trace ≡ inputs s.trace = ap {A = PcNet} (λ x. inputs x.trace) same in
      let r = deliver env (some (span_bytes m)) len t in
      (
        r,
        rw (good, after_last m, k.1) refl,
        Returned-Handled (suc m) (accepted_frame s.mem s.sc m 0) s r.1 (rw d.0 k.3)
            (d.2 ∙ rw (sender, quiet, accepted_good m good) refl)
            (d.1 ∙ ap {A = PcNet} (λ x. x.mem) same),
      )

  -- While packets can be had, and with fuel above the number of the frame's descriptors, a round takes
  -- the frame at the place of the ring.
  pub round_span :
      (m : ℕ) (lookahead : Bool)
      → FrameAt m 0 s.sc
      → suc m < f
      → ((tr : List Event) (k : ℕ) → env.answer tr (allocate_packet k) ≡ true)
      → (r : Bool × PcNet) × (rint_round env f lookahead s ≡ some (go_on, r.0, r.1))
        × Handled (suc m) (accepted_frame s.mem s.sc m 0) s r.1
  unfolding rint_round
  round_span m lookahead v h allocates =
      let found = span_end m lookahead v (omega arith) in
      elim (Bool-cases (has (flags_at s.sc m) rmd_err)) [
        | inl bad ↦ let (r, e, d) = take_dropped m v.within h bad in (r, rw (found, e) refl, d)
        | inr good ↦
            let same = error_last m ∙ good in
            let (r, e, d) =
              take_kept m v.within h allocates good (rw (at_last m) at (v.long same))
                (rw (at_last m) at (v.fits same)) in
            (r, rw (found, e) refl, d)
      ]
