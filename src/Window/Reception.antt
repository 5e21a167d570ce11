-- ===== src/Window/Reception.antt =====
-- Reception, and what becomes of the packets that it allocates.
use maxxuss_amdpcnet_v.Base.{
  ℕ, zero, suc, ◌+◌, ◌-◌, ◌^◌, ◌≡◌, inl, inr, arith, Bool, true, false, Bool-cases, List, [],
  Option, none, some, refl, has, if_both, if_cases, if◌then◌else◌, bit_or, bit_and, u16,
}
use maxxuss_amdpcnet_v.World.{Env, allocate_packet}
use maxxuss_amdpcnet_v.Hw.{ether_crc_len}
use maxxuss_amdpcnet_v.Hw.Descriptors.{rmd_stp, rmd_own, rmd_enp, rmd_err, mdhead_len_mask}
use maxxuss_amdpcnet_v.Port.{write_csr}
use maxxuss_amdpcnet_v.Softc.{LncSoftc, lnc_recvbufsize, lnc_inc_md_ptr}
use maxxuss_amdpcnet_v.State.{PcNet, ask, with_sc}
use maxxuss_amdpcnet_v.Tx.{Flow, go_on, leave, bail, scan_end}
use maxxuss_amdpcnet_v.Rx.{
  check_rx_end, find_rx_end, mbuf_packet, copy_ring, drop_ring, deliver, take_packet, rint_round,
  rint_loop, finish_rint, lnc_rint, note_rx_error, with_recv_next, recv_status, bump_rx_resets,
}
use maxxuss_amdpcnet_v.Window.{
  WellTyped, EveryResult, every_some, every_none, bind-EveryResult, Second, allocated, consumed,
  Flow-cases, Any, always,
}
use maxxuss_amdpcnet_v.Window.Chip.{lnc_reset-Steady}
use maxxuss_amdpcnet_v.Window.Registers.{write_csr-Steady}
use maxxuss_amdpcnet_v.Init.{lnc_reset}

-- The accesses are well typed if `T` holds, and as many packets were allocated as handed on or freed, but for a
-- difference that is given as a pair of counts.
abbrev pub Balanced : Type 0 → ℕ → ℕ → PcNet → Type 0
Balanced T x y s = (T → WellTyped s) × (allocated s.trace + y ≡ consumed s.trace + x)

abbrev Beside : Type 0 → ℕ → ℕ → Bool × PcNet → Type 0
Beside T x y r = Balanced T x y r.1

abbrev Found : Type 0 → ℕ → ℕ → Flow × PcNet → Type 0
Found T x y r = Balanced T x y r.1

abbrev Rounds : Type 0 → ℕ → ℕ → Flow × Bool × PcNet → Type 0
Rounds T x y r = Balanced T x y r.2

abbrev Loops : Type 0 → ℕ → ℕ → Bool × Bool × PcNet → Type 0
Loops T x y r = Balanced T x y r.2

-- A packet in hand is one more than was handed on or freed.
abbrev Pending : Type 0 → ℕ → ℕ → Option (List ℕ) × PcNet → Type 0
Pending T x y (none, s) = Balanced T x y s
Pending T x y (some p, s) = Balanced T (suc x) y s

balanced_start :
    (s : PcNet) → allocated s.trace + consumed s.trace ≡ consumed s.trace + allocated s.trace
balanced_start s = omega arith

module _ (T : Type 0) (x y : ℕ) (s : PcNet) (h : Balanced T x y s) where
  lnc_reset-Balanced : (env : Env) → Balanced T x y (lnc_reset env s)
  lnc_reset-Balanced env =
      let r = lnc_reset-Steady env {T = T} s (h.0, refl, refl, refl) in
      (r.0, omega (arith, r.2, r.3, h.1))

  write_csr-Balanced : (port val : ℕ) → Balanced T x y (write_csr port val s)
  write_csr-Balanced port val =
      let r = write_csr-Steady port val {T = T} s (h.0, refl, refl, refl) in
      (r.0, omega (arith, r.2, r.3, h.1))

module _ (env : Env) (T : Type 0) (x y : ℕ) where
  check_rx_end-Balanced :
      (l : Bool) (i : ℕ) (s : PcNet) → Balanced T x y s → Balanced T x y (check_rx_end env l i s).1
  unfolding check_rx_end
  check_rx_end-Balanced l i s h = ground (arith, lnc_reset-Balanced T x y (bump_rx_resets s) h env)

  find_rx_end-Balanced :
      (f : ℕ) (l : Bool) (s : PcNet)
      → Balanced T x y s
      → EveryResult (Found T x y) (find_rx_end env f l s)
  unfolding find_rx_end
  find_rx_end-Balanced f l s h =
      let sc = s.sc in
      let mask = bit_or (bit_or (bit_or rmd_stp rmd_own) rmd_enp) rmd_err in
      let scan = scan_end f sc.recv_entries sc.nrdre mask sc.recv_next in
      let rest = bind-EveryResult {A = ℕ} Any (Found T x y) scan _ (always scan) (λ i _.
        every_some (Found T x y) _
          (check_rx_end-Balanced l s.sc.recv_next (with_recv_next i s) h)) in
      if_both (EveryResult (Found T x y))
        (has (recv_status s sc.recv_next) (bit_or rmd_enp rmd_err)) _ _
        (every_some (Found T x y) (go_on, s) h) rest

  mbuf_packet-Pending :
      (f start n : ℕ) (s : PcNet)
      → Balanced T x y s
      → EveryResult (Pending T x y) (mbuf_packet env f start n s)
  unfolding mbuf_packet
  mbuf_packet-Pending f start n s h =
      let s1 = (ask env (allocate_packet n) s).1 in
      let buf = (s1.sc.recv_entries start).buf_addr in
      let copied = copy_ring f s1.mem start buf lnc_recvbufsize n [] s1.sc in
      if_cases (EveryResult (Pending T x y)) (env.answer s.trace (allocate_packet n)) _ _
        (λ ok.
          let got : Balanced T (suc x) y s1 = ground (arith, ok, h) in
          bind-EveryResult {A = List ℕ × LncSoftc} Any (Pending T x y) copied _ (always copied)
            (λ r _. every_some (Pending T x y) (some r.0, with_sc r.1 s1) got))
        (λ no.
          let missed : Balanced T x y s1 = ground (arith, no, h) in
          every_some (Pending T x y) (none, s1) missed)

  deliver-Balanced :
      (p : Option (List ℕ)) (n : ℕ) (s : PcNet)
      → Pending T x y (p, s)
      → Balanced T x y (deliver env p n s).1
  unfolding deliver
  deliver-Balanced none n s h = h
  deliver-Balanced (some p) n s h = ground arith

  note_rx_error-Balanced :
      (st : ℕ) (s : PcNet) → Balanced T x y s → Balanced T x y (note_rx_error st s)
  unfolding note_rx_error
  note_rx_error-Balanced st s h = ground arith

  take_packet-Balanced :
      (f start : ℕ) (s : PcNet)
      → Balanced T x y s
      → EveryResult (Beside T x y) (take_packet env f start s)
  unfolding take_packet
  take_packet-Balanced f start s h =
      let m = (s.sc.recv_entries s.sc.recv_next).md in
      let len = u16 (bit_and m.rx_msg_length mdhead_len_mask + 2 ^ 16 - ether_crc_len) in
      let s1 = with_recv_next (lnc_inc_md_ptr s.sc.recv_next s.sc.nrdre) s in
      let s2 = note_rx_error m.status s1 in
      let dropped = drop_ring f start s2.sc in
      if_both (EveryResult (Beside T x y)) (has m.status rmd_err) _ _
        (bind-EveryResult {A = LncSoftc} Any (Beside T x y) dropped _ (always dropped) (λ sc _.
          every_some (Beside T x y) (false, with_sc sc s2) (note_rx_error-Balanced m.status s1 h)))
        (bind-EveryResult (Pending T x y) (Beside T x y) (mbuf_packet env f start len s1) _
          (mbuf_packet-Pending f start len s1 h)
          (λ r k. every_some (Beside T x y) _ (deliver-Balanced r.0 len r.1 k)))

  rint_round-Balanced :
      (f : ℕ) (l : Bool) (s : PcNet)
      → Balanced T x y s
      → EveryResult (Rounds T x y) (rint_round env f l s)
  unfolding rint_round
  rint_round-Balanced f l s h =
      bind-EveryResult (Found T x y) (Rounds T x y) (find_rx_end env f l s) _
        (find_rx_end-Balanced f l s h)
        (λ r k. elim (Flow-cases r.0) [
          | inl e ↦ rw e (
              bind-EveryResult (Beside T x y) (Rounds T x y) (take_packet env f s.sc.recv_next r.1)
                _ (take_packet-Balanced f s.sc.recv_next r.1 k)
                (λ t k'. every_some (Rounds T x y) (go_on, t.0, t.1) k'))
          | inr (inl e) ↦ rw e (every_some (Rounds T x y) (leave, false, r.1) k)
          | inr (inr e) ↦ rw e (every_some (Rounds T x y) (bail, false, r.1) k)
        ])

  rint_loop-Balanced :
      (f n : ℕ) (l q : Bool) (s : PcNet)
      → Balanced T x y s
      → EveryResult (Loops T x y) (rint_loop env f n l q s)
  unfolding rint_loop
  rint_loop-Balanced f zero l q s h = every_none (Loops T x y)
  rint_loop-Balanced f (suc n) l q s h =
      elim (Bool-cases (has (recv_status s s.sc.recv_next) rmd_stp)) [
        | inr idle ↦ rw (idle, rint_loop) (every_some (Loops T x y) (true, q, s) h)
        | inl starts ↦
            rw (starts, rint_loop)
              (bind-EveryResult (Rounds T x y) (Loops T x y) (rint_round env f l s) _
                (rint_round-Balanced f l s h)
                (λ r k. elim (Flow-cases r.0) [
                  | inl e ↦ rw e (rint_loop-Balanced f n true (if r.1 then true else q) r.2 k)
                  | inr (inl e) ↦ rw e (every_some (Loops T x y) (true, q, r.2) k)
                  | inr (inr e) ↦ rw e (every_some (Loops T x y) (false, q, r.2) k)
                ]))
      ]

  finish_rint-Balanced : (s : PcNet) → Balanced T x y s → Balanced T x y (finish_rint s)
  unfolding finish_rint
  finish_rint-Balanced s h = write_csr-Balanced T x y _ h _ _

  pub lnc_rint-Balanced :
      (f : ℕ) (q : Bool) (s : PcNet)
      → Balanced T x y s
      → EveryResult (Beside T x y) (lnc_rint env f q s)
  unfolding lnc_rint
  lnc_rint-Balanced f q s h =
      bind-EveryResult (Loops T x y) (Beside T x y) (rint_loop env f f false q s) _
        (rint_loop-Balanced f f false q s h)
        (λ r k.
          if_both (EveryResult (Beside T x y)) r.0 _ _
            (every_some (Beside T x y) (r.1, finish_rint r.2) (finish_rint-Balanced r.2 k))
            (every_some (Beside T x y) (r.1, r.2) k))

-- For the proofs on interrupts: the accesses stay well typed.
pub lnc_rint-WellTyped :
    (env : Env) (f : ℕ) (q : Bool) (s : PcNet)
    → WellTyped s
    → EveryResult (Second {A = Bool}) (lnc_rint env f q s)
lnc_rint-WellTyped env f q s h =
    let all =
      lnc_rint-Balanced env (Unit {0}) (allocated s.trace) (consumed s.trace) f q s
        (λ x. h, balanced_start s) in
    record { holds = λ r e. (all.holds r e).0 tt }

-- Whatever the ring holds and the chip and I/O Kit answer: when `lnc_rint` returns, also by a reset, it
-- has handed to the stack or freed as many packets as it allocated.
pub lnc_rint-accounts :
    (env : Env) (f : ℕ) (q : Bool) (s : PcNet) (r : Bool × PcNet)
    → lnc_rint env f q s ≡ some r
    → allocated r.1.trace + consumed s.trace ≡ consumed r.1.trace + allocated s.trace
lnc_rint-accounts env f q s r e =
    let all =
      lnc_rint-Balanced env (¬ Unit {0}) (allocated s.trace) (consumed s.trace) f q s
        (λ x. absurd (x tt), balanced_start s) in
    (all.holds r e).1
