-- ===== src/Tx/Ring.antt =====
-- The transmit ring as a queue: the descriptors from `trans_next` on, as many as are pending, hold a
-- whole packet each, and the others are free.
use maxxuss_amdpcnet_v.Base.{ℕ, ◌+◌, ◌%◌, ◌<◌, ◌≤◌, ◌≡◌, ◌≢◌, arith, true, has, ◌∙◌, ap, dec_lt}
use maxxuss_amdpcnet_v.Hw.{Mds}
use maxxuss_amdpcnet_v.Hw.Descriptors.{tmd_stp, tmd_enp, tmd_own}
use maxxuss_amdpcnet_v.Softc.{LncSoftc, lnc_inc_md_ptr, set_md}
use maxxuss_amdpcnet_v.Tx.{enqueue}

abbrev pub slot : LncSoftc → ℕ → ℕ
slot sc k = (sc.trans_next + k) % 32

-- The status of the descriptor `k` places behind `trans_next`.
abbrev pub slot_status : LncSoftc → ℕ → ℕ
slot_status sc k = (sc.trans_entries (slot sc k)).md.status

pub record TxValid (sc : LncSoftc) : Type 0 where
  pub size : sc.ntdre ≡ 5
  pub next_in : sc.trans_next < 32
  pub pending_in : sc.pending_transmits ≤ 32
  pub order : sc.next_to_send ≡ (sc.trans_next + sc.pending_transmits) % 32
  pub starts : (k : ℕ) → k < sc.pending_transmits → has (slot_status sc k) tmd_stp ≡ true
  pub ends : (k : ℕ) → k < sc.pending_transmits → has (slot_status sc k) tmd_enp ≡ true
  pub free : (k : ℕ) → sc.pending_transmits ≤ k → k < 32 → slot_status sc k ≡ 0

pub inc_lem : (i len2 : ℕ) → len2 ≡ 5 → i < 32 → lnc_inc_md_ptr i len2 ≡ (i + 1) % 32
inc_lem i len2 e h = rw e (ground arith)

-- A packet that finds a free descriptor keeps the ring a queue.
pub enqueue-TxValid :
    {sc : LncSoftc} (len : ℕ) → TxValid sc → sc.pending_transmits < 32 → TxValid (enqueue sc len)
unfolding enqueue
enqueue-TxValid {sc} len v room = record {
  size = v.size;
  next_in = v.next_in;
  pending_in = omega arith;
  order = ground (arith, inc_lem sc.next_to_send sc.ntdre v.size (omega (arith, v.order)), v.order);
  starts = λ k h. ground (arith, v.order, v.starts k);
  ends = λ k h. ground (arith, v.order, v.ends k);
  free = λ k h l. ground (arith, v.order, v.free k);
}

-- The flags of the interface are no part of the ring.
pub TxValid-flags : {sc : LncSoftc} (f : ℕ) → TxValid sc → TxValid (record sc { if_drv_flags = f })
TxValid-flags f v = record {
  size = v.size;
  next_in = v.next_in;
  pending_in = v.pending_in;
  order = v.order;
  starts = v.starts;
  ends = v.ends;
  free = v.free;
}

-- The chip may write a descriptor that it owns, and leaves the marks of a packet's start and end.
pub data ChipStep : LncSoftc → LncSoftc → Type 0 where
  transmit :
      (sc : LncSoftc) (i : ℕ) (m : Mds)
      → has ((sc.trans_entries i).md.status) tmd_own ≡ true
      → has m.status tmd_stp ≡ has ((sc.trans_entries i).md.status) tmd_stp
      → has m.status tmd_enp ≡ has ((sc.trans_entries i).md.status) tmd_enp
      → ChipStep sc (record sc { trans_entries = set_md sc.trans_entries i m })

pub ChipStep-TxValid : {sc sc' : LncSoftc} → ChipStep sc sc' → TxValid sc → TxValid sc'
ChipStep-TxValid (transmit sc i m own stp enp) v = record {
  size = v.size;
  next_in = v.next_in;
  pending_in = v.pending_in;
  order = v.order;
  starts = λ k h. ground (arith, v.starts k);
  ends = λ k h. ground (arith, v.ends k);
  free = λ k h l. ground (arith, v.free k);
}

-- `b` is `a` with its oldest packet taken off.
pub record Dequeued (a b : LncSoftc) : Type 0 where
  pub size : b.ntdre ≡ a.ntdre
  pub next : b.trans_next ≡ (a.trans_next + 1) % 32
  pub send : b.next_to_send ≡ a.next_to_send
  pub fewer : b.pending_transmits + 1 ≡ a.pending_transmits
  pub cleared : (b.trans_entries a.trans_next).md.status ≡ 0
  pub others : (j : ℕ) → j ≢ a.trans_next → b.trans_entries j ≡ a.trans_entries j
  pub bufs : (j : ℕ) → (b.trans_entries j).buf_addr ≡ (a.trans_entries j).buf_addr

pub slot-Dequeued :
    {a b : LncSoftc}
    → Dequeued a b
    → TxValid a
    → (k : ℕ) → k < 31
    → b.trans_entries (slot b k) ≡ a.trans_entries (slot a (k + 1))
slot-Dequeued {a} {b} d v k h =
    let e : slot b k ≡ slot a (k + 1) = omega (arith, d.next) in
    rw e (d.others (slot a (k + 1)) (omega (arith, v.next_in)))

pub slot_status-Dequeued :
    {a b : LncSoftc}
    → Dequeued a b
    → TxValid a
    → (k : ℕ) → k < 31
    → slot_status b k ≡ slot_status a (k + 1)
slot_status-Dequeued d v k h = ap (λ e. e.md.status) (slot-Dequeued d v k h)

pub Dequeued-TxValid : {a b : LncSoftc} → Dequeued a b → TxValid a → TxValid b
Dequeued-TxValid {a} {b} d v = record {
  size = d.size ∙ v.size;
  next_in = omega (arith, d.next);
  pending_in = omega (arith, d.fewer, v.pending_in);
  order = omega (arith, d.next, d.send, d.fewer, v.order);
  starts = λ k h.
      rw (slot_status-Dequeued d v k (omega (arith, d.fewer, v.pending_in)))
        (v.starts (k + 1) (omega (arith, d.fewer)));
  ends = λ k h.
      rw (slot_status-Dequeued d v k (omega (arith, d.fewer, v.pending_in)))
        (v.ends (k + 1) (omega (arith, d.fewer)));
  free = λ k h l. elim (dec_lt k 31) [
    | yes p ↦
        rw (slot_status-Dequeued d v k p) (v.free (k + 1) (omega (arith, d.fewer)) (omega arith))
    | no p ↦
        let e : slot b k ≡ a.trans_next = omega (arith, d.next, v.next_in) in
        rw (slot_status, e) d.cleared
  ];
}
