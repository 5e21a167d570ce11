-- ===== src/System/Send.antt =====
-- The transmit ring between the driver and the chip: which packets the chip has still to send, and that
-- no other packet's bytes are touched.
use maxxuss_amdpcnet_v.Base.{
  ℕ, suc, ◌+◌, ◌-◌, ◌*◌, ◌%◌, ◌<◌, ◌≤◌, ◌≡◌, ◌≢◌, refl, arith, ap, ap₂, sym, ◌∙◌, true, false, has,
  List, [], ◌∷◌, ◌++◌, length, inl, inr, dec_lt, bit_or, neg16,
}
use mathlib.Core.List.{flatten}
use maxxuss_amdpcnet_v.Hw.{Mds}
use maxxuss_amdpcnet_v.Hw.Descriptors.{tmd_own, tmd_stp, tmd_enp}
use maxxuss_amdpcnet_v.Softc.{HostRingEntry, lnc_transbufsize}
use maxxuss_amdpcnet_v.State.{PcNet}
use maxxuss_amdpcnet_v.Tx.{
  Mbuf, enqueue, lnc_output_packet, output_success, output_stall, mbuf_to_buffer, bcopy,
}
use maxxuss_amdpcnet_v.Tx.Ring.{TxValid, TxValid-flags, enqueue-TxValid, slot, slot_status}
use maxxuss_amdpcnet_v.Tx.Output.{
  Fits, accepted, copy_chain_lem, bytes_at-bcopy, bcopy_outside, lnc_output_packet_full,
}
use maxxuss_amdpcnet_v.Tx.Reclaim.{NoUnderflow}
use maxxuss_amdpcnet_v.Tx.Drain.{finished}
use maxxuss_amdpcnet_v.System.{sent_frame, byte_count}
use maxxuss_amdpcnet_v.System.Frames.{
  frames, frames-cong, frames-snoc, bytes_at-agree, finished_count, byte_count_lem,
}

pub stalled : output_stall ≢ output_success
stalled e = cc

-- The chip has sent the `d` oldest pending packets and not the others; its place is behind them.
pub record SendInv (base : ℕ) (s : PcNet) (place d : ℕ) : Type 0 where
  pub tx : TxValid s.sc
  pub some_sent : d ≤ s.sc.pending_transmits
  pub at : place ≡ (s.sc.trans_next + d) % 32
  pub done : (k : ℕ) → k < d → has (slot_status s.sc k) tmd_own ≡ false
  pub owned : (k : ℕ) → d ≤ k → k < s.sc.pending_transmits → has (slot_status s.sc k) tmd_own ≡ true
  pub fine : (k : ℕ) → k < s.sc.pending_transmits → NoUnderflow (s.sc.trans_entries (slot s.sc k))
  pub sized :
      (k : ℕ)
      → k < s.sc.pending_transmits
      → byte_count ((s.sc.trans_entries (slot s.sc k)).md) ≤ lnc_transbufsize
  pub bufs : (i : ℕ) → i < 32 → (s.sc.trans_entries i).buf_addr ≡ base + i * lnc_transbufsize

pub SendInv-finished :
    (base place d : ℕ) (s : PcNet)
    → SendInv base s place d
    → finished s.sc s.sc.pending_transmits 0 ≡ d
SendInv-finished base place d s i =
    finished_count s.sc d s.sc.pending_transmits 0 i.some_sent
      (λ j h. let z : 0 + j ≡ j = omega arith in rw z (i.done j h))
      (λ j h l. let z : 0 + j ≡ j = omega arith in rw z (i.owned j h l))

-- The packets still to be sent.
abbrev pub unsent : PcNet → ℕ → List (List ℕ)
unsent s d = frames s.mem s.sc (s.sc.pending_transmits - d) d

-- The invariant and the packets depend on the transmit ring and its buffers alone.
pub record SameSend (base : ℕ) (s t : PcNet) : Type 0 where
  pub ntdre : t.sc.ntdre ≡ s.sc.ntdre
  pub trans_entries : t.sc.trans_entries ≡ s.sc.trans_entries
  pub trans_next : t.sc.trans_next ≡ s.sc.trans_next
  pub pending : t.sc.pending_transmits ≡ s.sc.pending_transmits
  pub next_to_send : t.sc.next_to_send ≡ s.sc.next_to_send
  pub mem : (x : ℕ) → base ≤ x → x < base + 32 * lnc_transbufsize → t.mem x ≡ s.mem x

module _ (base place d : ℕ) (s t : PcNet) (e : SameSend base s t) (i : SendInv base s place d) where
  pub SendInv-SameSend : SendInv base t place d
  SendInv-SameSend = record {
    tx = record {
      size = e.ntdre ∙ i.tx.size;
      next_in = rw (e.trans_next) i.tx.next_in;
      pending_in = rw (e.pending) i.tx.pending_in;
      order = e.next_to_send ∙ rw (e.trans_next, e.pending) i.tx.order;
      starts = rw (e.pending, e.trans_entries, e.trans_next) i.tx.starts;
      ends = rw (e.pending, e.trans_entries, e.trans_next) i.tx.ends;
      free = rw (e.pending, e.trans_entries, e.trans_next) i.tx.free;
    };
    some_sent = rw (e.pending) i.some_sent;
    at = i.at ∙ rw (e.trans_next) refl;
    done = rw (e.trans_entries, e.trans_next) i.done;
    owned = rw (e.pending, e.trans_entries, e.trans_next) i.owned;
    fine = rw (e.pending, e.trans_entries, e.trans_next) i.fine;
    sized = rw (e.pending, e.trans_entries, e.trans_next) i.sized;
    bufs = rw (e.trans_entries) i.bufs;
  }

  pub unsent-SameSend : unsent t d ≡ unsent s d
  unsent-SameSend =
      ap (λ n. frames t.mem t.sc (n - d) d) e.pending
      ∙ (frames-cong s.mem t.mem s.sc t.sc (s.sc.pending_transmits - d) d d (λ k h.
          let small = i.sized (d + k) (omega (arith, i.some_sent)) in
          let at = i.bufs (slot s.sc (d + k)) (omega arith) in
          rw (e.trans_entries, e.trans_next)
            (bytes_at-agree s.mem t.mem _ _
              (λ x p q. e.mem x (omega (arith, at)) (omega (arith, at, small))))))

module _ (base place d : ℕ) (s : PcNet) (pkt : Mbuf) (i : SendInv base s place d) (fits : Fits pkt)
    (some_bytes : 0 < pkt.pkthdr_len) (ok : (lnc_output_packet pkt s).0 ≡ output_success) where
  abbrev after : PcNet
  after = (lnc_output_packet pkt s).1

  has_room : s.sc.pending_transmits < 32
  has_room = elim (dec_lt s.sc.pending_transmits 32) [
    | yes p ↦ p
    | no p ↦
        let full = lnc_output_packet_full pkt s i.tx (omega (arith, i.tx.pending_in)) in
        absurd (stalled (sym (ap (λ r. r.0) full) ∙ ok))
  ]

  soft_after :
      after.sc ≡ record (enqueue s.sc pkt.pkthdr_len) { if_drv_flags = after.sc.if_drv_flags }
  soft_after = (accepted pkt s i.tx has_room).2

  pub mem_after :
      after.mem ≡ bcopy (flatten pkt.chain) (s.sc.trans_entries s.sc.next_to_send).buf_addr s.mem
  unfolding mbuf_to_buffer
  mem_after =
      (accepted pkt s i.tx has_room).1
      ∙ copy_chain_lem pkt.chain (s.sc.trans_entries s.sc.next_to_send).buf_addr s.mem

  pending_after : after.sc.pending_transmits ≡ s.sc.pending_transmits + 1
  unfolding enqueue
  pending_after = rw soft_after (omega (arith, has_room))

  next_after : after.sc.trans_next ≡ s.sc.trans_next
  unfolding enqueue
  next_after = rw soft_after refl

  -- The descriptors of the packets before, and that of the new one.
  old_entry :
      (k : ℕ)
      → k < s.sc.pending_transmits
      → after.sc.trans_entries (slot after.sc k) ≡ s.sc.trans_entries (slot s.sc k)
  unfolding enqueue
  old_entry k h = rw soft_after (ground (arith, i.tx.order, has_room))

  abbrev new_md : Mds
  new_md = record ((s.sc.trans_entries s.sc.next_to_send).md) {
    ext_status = 0;
    msg_size = neg16 pkt.pkthdr_len;
    status = bit_or (bit_or tmd_own tmd_stp) tmd_enp;
  }

  new_entry :
      (k : ℕ)
      → k ≡ s.sc.pending_transmits
      → after.sc.trans_entries (slot after.sc k)
        ≡ record (s.sc.trans_entries s.sc.next_to_send) { md = new_md }
  unfolding enqueue
  new_entry k h = rw (soft_after, h, ← i.tx.order) (ground arith)

  -- A property of every pending packet's entry.
  each_entry :
      (P : HostRingEntry → Type 0)
      → P (record (s.sc.trans_entries s.sc.next_to_send) { md = new_md })
      → ((k : ℕ) → k < s.sc.pending_transmits → P (s.sc.trans_entries (slot s.sc k)))
      → (k : ℕ) → k < after.sc.pending_transmits
      → P (after.sc.trans_entries (slot after.sc k))
  each_entry P new old k h = elim (dec_lt k s.sc.pending_transmits) [
    | yes p ↦ rw (old_entry k p) (old k p)
    | no p ↦ rw (new_entry k (omega (arith, pending_after))) new
  ]

  same_buf : (j : ℕ) → (after.sc.trans_entries j).buf_addr ≡ (s.sc.trans_entries j).buf_addr
  unfolding enqueue
  same_buf j = rw soft_after (ground arith)

  -- The new packet's bytes stand in a buffer of their own.
  old_bytes :
      (k : ℕ)
      → k < s.sc.pending_transmits
      → sent_frame after.mem (s.sc.trans_entries (slot s.sc k))
        ≡ sent_frame s.mem (s.sc.trans_entries (slot s.sc k))
  old_bytes k h =
      let here = i.bufs (slot s.sc k) (omega arith) in
      let there = i.bufs s.sc.next_to_send (omega (arith, i.tx.order)) in
      let small = i.sized k h in
      let apart : slot s.sc k ≢ s.sc.next_to_send = omega (arith, i.tx.order, has_room) in
      bytes_at-agree s.mem after.mem _ _ (λ x p q.
        ap (λ m. m x) mem_after
        ∙ bcopy_outside (flatten pkt.chain) _ s.mem x
            (elim (dec_lt x (s.sc.trans_entries s.sc.next_to_send).buf_addr) [
              | yes below ↦ inl below
              | no above ↦ inr (omega (arith, here, there, small, apart, fits.stated, fits.small))
            ]))

  new_bytes :
      sent_frame after.mem (record (s.sc.trans_entries s.sc.next_to_send) { md = new_md })
      ≡ flatten pkt.chain
  new_bytes =
      let at = (s.sc.trans_entries s.sc.next_to_send).buf_addr in
      let count : 4096 - neg16 pkt.pkthdr_len % 4096 ≡ length (flatten pkt.chain) =
        byte_count_lem pkt.pkthdr_len some_bytes fits.small ∙ fits.stated in
      rw (mem_after, count) (bytes_at-bcopy (flatten pkt.chain) at s.mem)

  pub submit-SendInv : SendInv base after place d
  submit-SendInv = record {
    tx = rw soft_after (TxValid-flags _ (enqueue-TxValid pkt.pkthdr_len i.tx has_room));
    some_sent = omega (arith, i.some_sent, pending_after);
    at = rw next_after i.at;
    done = λ k h.
        ap (λ e. has e.md.status tmd_own) (old_entry k (omega (arith, i.some_sent))) ∙ i.done k h;
    owned = λ k h l. elim (dec_lt k s.sc.pending_transmits) [
      | yes p ↦ ap (λ e. has e.md.status tmd_own) (old_entry k p) ∙ i.owned k h p
      | no p ↦ ap (λ e. has e.md.status tmd_own) (new_entry k (omega (arith, pending_after))) ∙ refl
    ];
    fine = each_entry NoUnderflow refl i.fine;
    sized =
        each_entry (λ e. byte_count e.md ≤ lnc_transbufsize)
          (omega (arith, byte_count_lem pkt.pkthdr_len some_bytes fits.small, fits.small)) i.sized;
    bufs = λ j h. same_buf j ∙ i.bufs j h;
  }

  -- The packet joins the end of those still to be sent.
  pub submit-unsent : unsent after d ≡ unsent s d ++ (flatten pkt.chain ∷ [])
  submit-unsent =
      let n = s.sc.pending_transmits - d in
      let more : after.sc.pending_transmits - d ≡ suc n =
        omega (arith, pending_after, i.some_sent) in
      let last : d + n ≡ s.sc.pending_transmits = omega (arith, i.some_sent) in
      ap (λ k. frames after.mem after.sc k d) more
      ∙ frames-snoc after.mem after.sc n d
      ∙ ap₂ (λ l p. l ++ (p ∷ []))
          (frames-cong s.mem after.mem s.sc after.sc n d d (λ k h.
            ap (sent_frame after.mem) (old_entry (d + k) (omega arith))
            ∙ old_bytes (d + k) (omega arith)))
          (ap (sent_frame after.mem) (new_entry (d + n) last) ∙ new_bytes)
