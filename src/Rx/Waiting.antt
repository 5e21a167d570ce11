-- ===== src/Rx/Waiting.antt =====
-- The frames that wait in the receive ring, and the ring without the oldest of them.
use mathlib.Core.List.{append-nil, append_assoc}
use maxxuss_amdpcnet_v.Base.{
  ℕ, zero, suc, ◌+◌, ◌-◌, ◌%◌, ◌<◌, ◌≤◌, ◌≡◌, refl, arith, Bool, true, false, has, if◌then◌else◌,
  List, [], ◌++◌, neg16, ◌∙◌, ap, sym, ap₂, dec_lt,
}
use maxxuss_amdpcnet_v.Hw.Descriptors.{rmd_own, rmd_stp}
use maxxuss_amdpcnet_v.Softc.{LncSoftc, lnc_recvbufsize}
use maxxuss_amdpcnet_v.State.{PcNet}
use maxxuss_amdpcnet_v.Rx.{give_back}
use maxxuss_amdpcnet_v.Rx.Ring.{RxValid, accepted, inputs}
use maxxuss_amdpcnet_v.Rx.Round.{Received, advanced}

abbrev pub place : LncSoftc → ℕ → ℕ
place sc k = (sc.recv_next + k) % 32

abbrev pub starts_at : LncSoftc → ℕ → Bool
starts_at sc k = has ((sc.recv_entries (place sc k)).md.status) rmd_stp

-- How many of the `n` descriptors from place `k` on hold a frame, up to the first that does not.
unfoldable pub waiting : LncSoftc → ℕ → ℕ → ℕ
waiting sc zero k = 0
waiting sc (suc n) k = if starts_at sc k then suc (waiting sc n (k + 1)) else 0

-- What is due for the `n` descriptors from place `k` on.
unfoldable pub due : (ℕ → ℕ) → LncSoftc → ℕ → ℕ → List (List ℕ)
due mem sc zero k = []
due mem sc (suc n) k =
    accepted sc.init_block.phys_addr mem (sc.recv_entries (place sc k)) ++ due mem sc n (k + 1)

-- `t` is `s` after `n` frames.
pub record Emptied (n : ℕ) (s t : PcNet) : Type 0 where
  pub valid : RxValid t.sc
  pub next : t.sc.recv_next ≡ (s.sc.recv_next + n) % 32
  pub given_back :
      (k : ℕ)
      → k < n
      → k < 32
      → let m = (t.sc.recv_entries (place s.sc k)).md in
        (m.status ≡ rmd_own) × (m.msg_size ≡ neg16 lnc_recvbufsize)
  pub others :
      (k : ℕ) → n ≤ k → k < 32 → t.sc.recv_entries (place s.sc k) ≡ s.sc.recv_entries (place s.sc k)
  pub handed : inputs t.trace ≡ inputs s.trace ++ due s.mem s.sc n 0
  pub emptied : starts_at t.sc 0 ≡ false
  pub soft : t.sc ≡ record s.sc { recv_entries = t.sc.recv_entries; recv_next = t.sc.recv_next }
  pub same_mem : t.mem ≡ s.mem
  pub bufs : (j : ℕ) → (t.sc.recv_entries j).buf_addr ≡ (s.sc.recv_entries j).buf_addr

pub advanced-RxValid : {sc : LncSoftc} → RxValid sc → RxValid (advanced sc)
unfolding give_back
advanced-RxValid {sc} v = record {
  size = v.size;
  next_in = omega arith;
  single = λ i h p. ground (arith, v.single i);
  long = λ i h p e. ground (arith, v.long i);
}

-- The places of the ring move by one.
place-advanced : (sc : LncSoftc) (k : ℕ) → place (advanced sc) k ≡ place sc (k + 1)
place-advanced sc k = omega arith

entries-advanced :
    (sc : LncSoftc) (k : ℕ)
    → sc.recv_next < 32
    → k < 31
    → (advanced sc).recv_entries (place (advanced sc) k) ≡ sc.recv_entries (place sc (k + 1))
unfolding give_back
entries-advanced sc k h l = rw (place-advanced sc k) (ground arith)

pub head-advanced :
    (sc : LncSoftc)
    → sc.recv_next < 32
    → let m = ((advanced sc).recv_entries (place (advanced sc) 31)).md in
      (m.status ≡ rmd_own) × (m.msg_size ≡ neg16 lnc_recvbufsize)
unfolding give_back
head-advanced sc h = ground arith

pub starts_at-advanced :
    (sc : LncSoftc) (k : ℕ)
    → sc.recv_next < 32
    → k < 31
    → starts_at (advanced sc) k ≡ starts_at sc (k + 1)
starts_at-advanced sc k h l = ap (λ e. has e.md.status rmd_stp) (entries-advanced sc k h l)

pub waiting-advanced :
    (sc : LncSoftc) (n k : ℕ)
    → sc.recv_next < 32
    → k + n ≤ 31
    → waiting (advanced sc) n k ≡ waiting sc n (k + 1)
unfolding waiting
waiting-advanced sc zero k h l = refl
waiting-advanced sc (suc n) k h l =
    rw (starts_at-advanced sc k h (omega arith), waiting-advanced sc n (k + 1) h (omega arith))

due-advanced :
    (mem : ℕ → ℕ) (sc : LncSoftc) (n k : ℕ)
    → sc.recv_next < 32
    → k + n ≤ 31
    → due mem (advanced sc) n k ≡ due mem sc n (k + 1)
unfolding due give_back
due-advanced mem sc zero k h l = refl
due-advanced mem sc (suc n) k h l =
    ap₂ ◌++◌ (ap (accepted sc.init_block.phys_addr mem) (entries-advanced sc k h (omega arith)))
      (due-advanced mem sc n (k + 1) h (omega arith))

advanced-soft :
    (a b c : LncSoftc)
    → b ≡ advanced a
    → record b { recv_entries = c.recv_entries; recv_next = c.recv_next }
      ≡ record a { recv_entries = c.recv_entries; recv_next = c.recv_next }
unfolding give_back
advanced-soft a b c e =
    ap {A = LncSoftc} (λ x. record x { recv_entries = c.recv_entries; recv_next = c.recv_next }) e

advanced-bufs :
    (sc : LncSoftc) (j : ℕ) → ((advanced sc).recv_entries j).buf_addr ≡ (sc.recv_entries j).buf_addr
unfolding give_back
advanced-bufs sc j = ground arith

pub Emptied-zero : (s : PcNet) → RxValid s.sc → starts_at s.sc 0 ≡ false → Emptied 0 s s
unfolding due
Emptied-zero s v e = record {
  valid = v;
  next = omega (arith, v.next_in);
  given_back = λ k h l. absurd (omega arith);
  others = λ k h l. refl;
  handed = sym (append-nil (inputs s.trace));
  emptied = e;
  soft = refl;
  same_mem = refl;
  bufs = λ j. refl;
}

pub Emptied-suc :
    (n : ℕ) (s t u : PcNet)
    → n ≤ 31
    → RxValid s.sc
    → Received s t
    → Emptied n t u
    → Emptied (suc n) s u
unfolding due
Emptied-suc n s t u hn v r d = record {
  valid = d.valid;
  next = d.next ∙ rw r.soft (omega arith);
  given_back = λ k h l. elim (dec_lt 0 k) [
    | yes p ↦ rw (move k p) (d.given_back (k - 1) (omega arith) (omega arith))
    | no p ↦ rw (last k p, d.others 31 hn (omega arith), r.soft) (head-advanced s.sc v.next_in)
  ];
  others = λ k h l.
      let p : 0 < k = omega arith in
      let back : k - 1 + 1 ≡ k = omega arith in
      rw (move k p, d.others (k - 1) (omega arith) (omega arith), r.soft)
        (entries-advanced s.sc (k - 1) v.next_in (omega arith)
          ∙ ap s.sc.recv_entries (omega arith));
  handed =
      let head : place s.sc 0 ≡ s.sc.recv_next = omega (arith, v.next_in) in
      d.handed
      ∙ rw (r.handed, r.same_mem, r.soft, due-advanced s.mem s.sc n 0 v.next_in (omega arith), head)
          (append_assoc (inputs s.trace) _ _);
  emptied = d.emptied;
  soft = d.soft ∙ advanced-soft s.sc t.sc u.sc r.soft;
  same_mem = d.same_mem ∙ r.same_mem;
  bufs = λ j. d.bufs j ∙ rw r.soft (advanced-bufs s.sc j);
}
  where
    move : (k : ℕ) → 0 < k → place s.sc k ≡ place t.sc (k - 1)
    move k p = rw r.soft (omega arith)

    last : (k : ℕ) → ¬ (0 < k) → place s.sc k ≡ place t.sc 31
    last k p = rw r.soft (omega (arith, v.next_in))

pub starts_at-zero :
    {sc : LncSoftc}
    → RxValid sc
    → starts_at sc 0 ≡ has ((sc.recv_entries sc.recv_next).md.status) rmd_stp
starts_at-zero {sc} v =
    let e : place sc 0 ≡ sc.recv_next = omega (arith, v.next_in) in
    ap (λ i. has ((sc.recv_entries i).md.status) rmd_stp) e

pub waiting-suc :
    (sc : LncSoftc) (m : ℕ) → starts_at sc 0 ≡ true → waiting sc (suc m) 0 ≡ suc (waiting sc m 1)
unfolding waiting
waiting-suc sc m e = rw e

pub waiting_none : (sc : LncSoftc) (m : ℕ) → starts_at sc 0 ≡ false → waiting sc (suc m) 0 ≡ 0
unfolding waiting
waiting_none sc m e = rw e

waiting-le : (sc : LncSoftc) (m k : ℕ) → waiting sc m k ≤ m
unfolding waiting
waiting-le sc zero k = omega arith
waiting-le sc (suc m) k = ground (arith, waiting-le sc m (k + 1))

pub bounded : (sc : LncSoftc) (m k : ℕ) → m ≤ 31 → waiting sc m k ≤ 31
bounded sc m k h = omega (arith, waiting-le sc m k)
