-- ===== src/Rx/Round.antt =====
-- One round of `lnc_rint` on such a ring.
use mathlib.Core.List.{append-nil}
use maxxuss_amdpcnet_v.Base.{
  ℕ, zero, suc, ◌+◌, ◌%◌, ◌<◌, ◌≤◌, ◌≡◌, ◌≢◌, refl, arith, Bool, true, false, has, if◌then◌else◌,
  List, [], ◌∷◌, ◌++◌, bytes_at, get_or, ◌==◌, ==_iff, length, length-bytes_at, some, ◌∙◌, sym,
  Bool-cases, inl, inr, ltb,
}
use maxxuss_amdpcnet_v.World.{Env, Event, allocate_packet}
use maxxuss_amdpcnet_v.Hw.{ether_addr_len, ether_shost_offset}
use maxxuss_amdpcnet_v.Hw.Descriptors.{rmd_err, rmd_stp}
use maxxuss_amdpcnet_v.Softc.{LncSoftc, lnc_recvbufsize, lnc_inc_md_ptr}
use maxxuss_amdpcnet_v.State.{PcNet, ask, with_sc}
use maxxuss_amdpcnet_v.Tx.{go_on}
use maxxuss_amdpcnet_v.Tx.Ring.{inc_lem}
use maxxuss_amdpcnet_v.Rx.{
  give_back, copy_ring, drop_ring, mbuf_packet, note_rx_error, find_rx_end, same_sender, deliver,
  take_packet, rint_round, recv_status, with_recv_next,
}
use maxxuss_amdpcnet_v.Rx.Ring.{RxValid, frame_length, frame, from_self, accepted, inputs}

eq_test : (a : ℕ) → (a == a) ≡ true
eq_test a = (==_iff a a).1 refl

ne_test : (a b : ℕ) → a ≢ b → (a == b) ≡ false
ne_test a b ne = ground arith

module _ (f h : ℕ) (sc : LncSoftc) (step : lnc_inc_md_ptr h sc.nrdre ≡ sc.recv_next)
    (ne : h ≢ sc.recv_next) where
  copy_one :
      (mem : ℕ → ℕ) (at len : ℕ)
      → copy_ring (suc (suc f)) mem h at lnc_recvbufsize len [] sc
        ≡ some (
          bytes_at mem at (if ltb len lnc_recvbufsize then len else lnc_recvbufsize),
          give_back h sc,
        )
  unfolding copy_ring
  copy_one mem at len = rw (ne_test h sc.recv_next ne, step, eq_test sc.recv_next)

  drop_one : drop_ring (suc (suc f)) h sc ≡ some (give_back h sc)
  unfolding drop_ring
  drop_one = rw (ne_test h sc.recv_next ne, step, eq_test sc.recv_next)

get_or_default : (xs : List ℕ) (i d e : ℕ) → i < length xs → get_or xs i d ≡ get_or xs i e
get_or_default [] i d e h = absurd (omega arith)
get_or_default (x ∷ xs) zero d e h = refl
get_or_default (x ∷ xs) (suc i) d e h = get_or_default xs i d e (omega arith)

pub same_sender_lem :
    (env : Env) (n i : ℕ) (pkt : List ℕ) (s : PcNet)
    → 6 + i + n ≤ length pkt
    → same_sender env n i pkt s ≡ from_self n i s.sc.init_block.phys_addr pkt
unfolding same_sender from_self
same_sender_lem env zero i pkt s h = refl
same_sender_lem env (suc n) i pkt s h = rw (
  get_or_default pkt (ether_shost_offset + i) (env.fresh_byte s.trace (ether_shost_offset + i)) 0
      (omega arith),
  same_sender_lem env n (i + 1) pkt s (omega arith),
)

pub note_rx_error-frame :
    (flags : ℕ) (s : PcNet)
    → note_rx_error flags s ≡ record s { counters = (note_rx_error flags s).counters }
unfolding note_rx_error
note_rx_error-frame flags s = ground arith

-- The soft state after the frame at `recv_next` is taken.
abbrev pub advanced : LncSoftc → LncSoftc
advanced sc = record (give_back sc.recv_next sc) { recv_next = (sc.recv_next + 1) % 32 }

-- `t` is `s` after one frame: its descriptor is the chip's again, and it is handed on if it is due.
pub record Received (s t : PcNet) : Type 0 where
  pub soft : t.sc ≡ advanced s.sc
  pub same_mem : t.mem ≡ s.mem
  pub handed :
      inputs t.trace
      ≡ inputs s.trace
        ++ accepted s.sc.init_block.phys_addr s.mem (s.sc.recv_entries s.sc.recv_next)

module _ (env : Env) (s : PcNet) where
  -- The state that `deliver` leaves for a packet in hand.
  pub deliver_lem :
      (pkt : List ℕ) (n : ℕ)
      → let t = (deliver env (some pkt) n s).1 in
        (t.sc ≡ s.sc)
        × (t.mem ≡ s.mem)
        × (inputs t.trace
            ≡ inputs s.trace ++ (if same_sender env ether_addr_len 0 pkt s then [] else pkt ∷ []))
  unfolding deliver inputs
  deliver_lem pkt n = elim (Bool-cases (same_sender env ether_addr_len 0 pkt s)) [
    | inl own ↦ rw own (refl, refl, sym (append-nil (inputs s.trace)))
    | inr other ↦ rw other (refl, refl, refl)
  ]

module _ (env : Env) (f : ℕ) (s : PcNet) (v : RxValid s.sc)
    (starts : has (recv_status s s.sc.recv_next) rmd_stp ≡ true) where
  pub find_one : (lookahead : Bool) → find_rx_end env f lookahead s ≡ some (go_on, s)
  unfolding find_rx_end
  find_one lookahead = rw (v.single s.sc.recv_next v.next_in starts)

  pub step_one : lnc_inc_md_ptr s.sc.recv_next s.sc.nrdre ≡ (s.sc.recv_next + 1) % 32
  step_one = inc_lem s.sc.recv_next s.sc.nrdre v.size v.next_in

  take_bad :
      has (recv_status s s.sc.recv_next) rmd_err ≡ true
      → (t : PcNet) × (take_packet env (suc (suc f)) s.sc.recv_next s ≡ some (false, t))
        × Received s t
  unfolding take_packet give_back accepted
  take_bad bad =
      let s1 = with_recv_next ((s.sc.recv_next + 1) % 32) s in
      let flags = recv_status s s.sc.recv_next in
      let fr = note_rx_error-frame flags s1 in
      let t = with_sc (advanced s.sc) (note_rx_error flags s1) in
      (
        t,
        rw (bad, step_one, fr) (rw (drop_one f s.sc.recv_next s1.sc step_one (omega arith))),
        rw fr (record {
          soft = refl;
          same_mem = refl;
          handed = rw bad (sym (append-nil (inputs s.trace)));
        }),
      )

  take_good :
      ((tr : List Event) (n : ℕ) → env.answer tr (allocate_packet n) ≡ true)
      → has (recv_status s s.sc.recv_next) rmd_err ≡ false
      → (r : Bool × PcNet) × (take_packet env (suc (suc f)) s.sc.recv_next s ≡ some r)
        × Received s r.1
  unfolding take_packet give_back mbuf_packet accepted inputs
  take_good allocates good =
      let e = s.sc.recv_entries s.sc.recv_next in
      let s1 = with_recv_next ((s.sc.recv_next + 1) % 32) s in
      let n = frame_length e in
      let pkt = frame s.mem e in
      let s2 = with_sc (advanced s.sc) (ask env (allocate_packet n) s1).1 in
      let d = deliver_lem env s2 pkt n in
      let fits : 12 ≤ length pkt =
        rw length-bytes_at (ground (arith, v.long s.sc.recv_next v.next_in starts good)) in
      let sender = same_sender_lem env 6 0 pkt s2 fits in
      (
        deliver env (some pkt) n s2,
        rw (good, step_one, allocates s.trace n)
            (rw (copy_one f s.sc.recv_next s1.sc step_one (omega arith))),
        record { soft = d.0; same_mem = d.1; handed = d.2 ∙ rw (sender, good) },
      )

  pub round_one :
      (lookahead : Bool)
      → ((tr : List Event) (n : ℕ) → env.answer tr (allocate_packet n) ≡ true)
      → (r : Bool × PcNet) × (rint_round env (suc (suc f)) lookahead s ≡ some (go_on, r.0, r.1))
        × Received s r.1
  unfolding rint_round find_rx_end
  round_one lookahead allocates = elim (Bool-cases (has (recv_status s s.sc.recv_next) rmd_err)) [
    | inl bad ↦
        let r = take_bad bad in
        ((false, r.0), rw (v.single s.sc.recv_next v.next_in starts) (rw (r.1)), r.2)
    | inr good ↦
        let r = take_good allocates good in
        (r.0, rw (v.single s.sc.recv_next v.next_in starts) (rw (r.1)), r.2)
  ]
