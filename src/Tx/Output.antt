-- ===== src/Tx/Output.antt =====
-- `lnc_output_packet`: a full ring stalls the queue, and any other takes the packet.
use mathlib.Core.List.{flatten}
use maxxuss_amdpcnet_v.Base.{
  ℕ, ◌+◌, ◌<◌, ◌≤◌, ◌≡◌, ◌≢◌, ◌⊎◌, refl, arith, has, ◌==◌, List, [], ◌∷◌, ◌++◌, bit_or, update, ◌∙◌,
  ap, ap₂, length, bytes_at, neg16, sym, ◌||◌,
}
use maxxuss_amdpcnet_v.Hw.Descriptors.{tmd_stp, tmd_enp, tmd_own}
use maxxuss_amdpcnet_v.Softc.{lnc_transbufsize, lnc_iff_drv_oactive}
use maxxuss_amdpcnet_v.State.{PcNet}
use maxxuss_amdpcnet_v.Tx.{
  Mbuf, bcopy, copy_chain, mbuf_to_buffer, output_success, output_stall, enqueue, lnc_output_packet,
}
use maxxuss_amdpcnet_v.Tx.Ring.{TxValid, enqueue-TxValid, TxValid-flags}
use maxxuss_amdpcnet_v.Base.Bits.{has_of-bit_or}

pub bcopy_outside :
    (bs : List ℕ) (at : ℕ) (m : ℕ → ℕ) (x : ℕ)
    → (x < at) ⊎ (at + length bs ≤ x)
    → bcopy bs at m x ≡ m x
unfolding bcopy
bcopy_outside [] at m x h = refl
bcopy_outside (b ∷ bs) at m x h =
    bcopy_outside bs (at + 1) (update m at b) x (omega arith) ∙ (ground arith)

pub bytes_at-bcopy :
    (bs : List ℕ) (at : ℕ) (m : ℕ → ℕ) → bytes_at (bcopy bs at m) at (length bs) ≡ bs
unfolding bcopy bytes_at
bytes_at-bcopy [] at m = refl
bytes_at-bcopy (b ∷ bs) at m =
    ap₂ ◌∷◌ (bcopy_outside bs (at + 1) (update m at b) at (omega arith) ∙ ground arith)
      (bytes_at-bcopy bs (at + 1) (update m at b))

bcopy-append :
    (xs ys : List ℕ) (at : ℕ) (m : ℕ → ℕ)
    → bcopy (xs ++ ys) at m ≡ bcopy ys (at + length xs) (bcopy xs at m)
unfolding bcopy
bcopy-append [] ys at m = ap (λ a. bcopy ys a m) (omega arith)
bcopy-append (x ∷ xs) ys at m =
    bcopy-append xs ys (at + 1) (update m at x)
    ∙ ap (λ a. bcopy ys a (bcopy xs (at + 1) (update m at x))) (omega arith)

-- Copying a chain is copying its bytes in one piece.
pub copy_chain_lem :
    (ds : List (List ℕ)) (at : ℕ) (m : ℕ → ℕ) → copy_chain ds at m ≡ bcopy (flatten ds) at m
unfolding copy_chain bcopy flatten
copy_chain_lem [] at m = refl
copy_chain_lem (d ∷ ds) at m =
    copy_chain_lem ds (at + length d) (bcopy d at m) ∙ sym (bcopy-append d (flatten ds) at m)

-- A packet whose header states the length of its chain, which fits a transmit buffer.
pub record Fits (pkt : Mbuf) : Type 0 where
  pub stated : pkt.pkthdr_len ≡ length (flatten pkt.chain)
  pub small : pkt.pkthdr_len ≤ lnc_transbufsize

-- `t` is `s` after taking the packet.
pub record Taken (pkt : Mbuf) (s t : PcNet) : Type 0 where
  pub valid : TxValid t.sc
  pub counted : t.sc.pending_transmits ≡ s.sc.pending_transmits + 1
  pub given :
      (t.sc.trans_entries s.sc.next_to_send).md.status ≡ bit_or (bit_or tmd_own tmd_stp) tmd_enp
  pub sized :
      (t.sc.trans_entries s.sc.next_to_send).md.msg_size ≡ neg16 (length (flatten pkt.chain))
  pub copied :
      bytes_at t.mem (s.sc.trans_entries s.sc.next_to_send).buf_addr (length (flatten pkt.chain))
      ≡ flatten pkt.chain
  pub elsewhere :
      (x : ℕ)
      → let at = (s.sc.trans_entries s.sc.next_to_send).buf_addr in
        (x < at) ⊎ (at + lnc_transbufsize ≤ x) → t.mem x ≡ s.mem x
  pub others : (j : ℕ) → j ≢ s.sc.next_to_send → t.sc.trans_entries j ≡ s.sc.trans_entries j

-- With a full ring the packet is refused and nothing changes.
pub lnc_output_packet_full :
    (pkt : Mbuf) (s : PcNet)
    → TxValid s.sc
    → s.sc.pending_transmits ≡ 32
    → lnc_output_packet pkt s ≡ (output_stall, s)
unfolding lnc_output_packet
lnc_output_packet_full pkt s v full = rw (full, v.size) refl

-- The memory after the copy.
abbrev pub copied_mem : Mbuf → PcNet → ℕ → ℕ
copied_mem pkt s = (mbuf_to_buffer pkt (s.sc.trans_entries s.sc.next_to_send).buf_addr s.mem).1

pub accepted :
    (pkt : Mbuf) (s : PcNet)
    → TxValid s.sc
    → s.sc.pending_transmits < 32
    → let t = (lnc_output_packet pkt s).1 in
      ((lnc_output_packet pkt s).0 ≡ output_success)
      × (t.mem ≡ copied_mem pkt s)
      × (t.sc ≡ record (enqueue s.sc pkt.pkthdr_len) { if_drv_flags = t.sc.if_drv_flags })
unfolding lnc_output_packet
accepted pkt s v room = ground (arith, v.size)

-- While the ring is not full, a packet that fits a buffer is accepted: its bytes stand in the buffer
-- of the descriptor `next_to_send`, no other memory changes, that descriptor is given to the chip as a
-- whole packet of the right length, the others stay, and the ring is a queue with one packet more.
pub lnc_output_packet-Taken :
    (pkt : Mbuf) (s : PcNet)
    → Fits pkt
    → TxValid s.sc
    → s.sc.pending_transmits < 32
    → ((lnc_output_packet pkt s).0 ≡ output_success) × Taken pkt s (lnc_output_packet pkt s).1
unfolding enqueue mbuf_to_buffer
lnc_output_packet-Taken pkt s f v room =
    let (r, m, c) = accepted pkt s v room in
    let at = (s.sc.trans_entries s.sc.next_to_send).buf_addr in
    let mem_eq : (lnc_output_packet pkt s).1.mem ≡ bcopy (flatten pkt.chain) at s.mem =
      m ∙ copy_chain_lem pkt.chain at s.mem in
    (
      r,
      record {
        valid = rw c (TxValid-flags _ (enqueue-TxValid pkt.pkthdr_len v room));
        counted = rw c (omega arith);
        given = rw c (ground arith);
        sized = rw c (ground (arith, f.stated));
        copied = rw mem_eq (bytes_at-bcopy (flatten pkt.chain) at s.mem);
        elsewhere = λ x h.
            rw mem_eq
              (bcopy_outside (flatten pkt.chain) at s.mem x (omega (arith, f.stated, f.small)));
        others = λ j h. rw c (ground arith);
      },
    )

-- While the ring is not full, the packet that fills it marks the interface as busy, and any other
-- leaves the mark as it is.
pub lnc_output_packet_busy :
    (pkt : Mbuf) (s : PcNet)
    → TxValid s.sc
    → s.sc.pending_transmits < 32
    → has (lnc_output_packet pkt s).1.sc.if_drv_flags lnc_iff_drv_oactive
      ≡ (s.sc.pending_transmits == 31 || has s.sc.if_drv_flags lnc_iff_drv_oactive)
unfolding lnc_output_packet
lnc_output_packet_busy pkt s v room =
    ground (arith, v.size, has_of-bit_or s.sc.if_drv_flags lnc_iff_drv_oactive lnc_iff_drv_oactive)
