-- ===== src/Tx/Frame.antt =====
-- What transmission leaves alone: the receive ring, the memory and the packets handed to the stack.
use maxxuss_amdpcnet_v.Base.{ℕ, ◌+◌, ◌%◌, ◌≡◌, refl, arith, ap, ◌∙◌, Bool-cases, inl, inr, has}
use maxxuss_amdpcnet_v.Hw.Descriptors.{tmd_err}
use maxxuss_amdpcnet_v.State.{PcNet, bump}
use maxxuss_amdpcnet_v.Port.{write_csr}
use maxxuss_amdpcnet_v.Tx.{
  Mbuf, lnc_output_packet, enqueue, mbuf_to_buffer, note_lcol, note_lcar, note_rtry, note_tx_errors,
  note_tx_done, finish_tint, with_trans_next,
}
use maxxuss_amdpcnet_v.Tx.Reclaim.{moved, released}
use maxxuss_amdpcnet_v.Rx.Ring.{inputs}

-- `t` is `s` but for the transmit ring, the counters and the history, which hands on no packet.
pub record TxOnly (s t : PcNet) : Type 0 where
  pub state : t ≡ record s {
    sc = record s.sc {
      trans_entries = t.sc.trans_entries;
      trans_next = t.sc.trans_next;
      pending_transmits = t.sc.pending_transmits;
      if_drv_flags = t.sc.if_drv_flags;
    };
    counters = t.counters;
    trace = t.trace;
  }
  pub quiet : inputs t.trace ≡ inputs s.trace

module _ (s t u : PcNet) where
  pub TxOnly-trans : TxOnly s t → TxOnly t u → TxOnly s u
  TxOnly-trans p q = record {
    state =
        q.state
        ∙ ap {A = PcNet}
            (λ x. record x {
              sc = record x.sc {
                trans_entries = u.sc.trans_entries;
                trans_next = u.sc.trans_next;
                pending_transmits = u.sc.pending_transmits;
                if_drv_flags = u.sc.if_drv_flags;
              };
              counters = u.counters;
              trace = u.trace;
            })
            p.state;
    quiet = q.quiet ∙ p.quiet;
  }

module _ (ext : ℕ) (s : PcNet) where
  note_lcol-TxOnly : TxOnly s (note_lcol ext s)
  unfolding note_lcol
  note_lcol-TxOnly = ground arith

  note_lcar-TxOnly : TxOnly s (note_lcar ext s)
  unfolding note_lcar
  note_lcar-TxOnly = ground arith

  note_rtry-TxOnly : TxOnly s (note_rtry ext s)
  unfolding note_rtry
  note_rtry-TxOnly = ground arith

  note_tx_done-TxOnly : TxOnly s (note_tx_done ext s)
  unfolding note_tx_done
  note_tx_done-TxOnly = ground arith

pub finish_tint-TxOnly : (s : PcNet) → TxOnly s (finish_tint s)
unfolding finish_tint write_csr inputs
finish_tint-TxOnly s = ground arith

released-TxOnly : (i : ℕ) (s : PcNet) → TxOnly s (released i s)
unfolding released inputs
released-TxOnly i s = ground arith

note_tx_errors-TxOnly : (ext : ℕ) (s : PcNet) → TxOnly s (note_tx_errors ext s)
unfolding note_tx_errors
note_tx_errors-TxOnly ext s =
    let s1 = record s {
      counters = record s.counters { output_errors = bump s.counters.output_errors };
    } in
    let s2 = note_lcol ext s1 in
    let s3 = note_lcar ext s2 in
    let start : TxOnly s s1 = record { state = refl; quiet = refl } in
    TxOnly-trans s s1 (note_rtry ext s3) start (
      TxOnly-trans s1 s2 (note_rtry ext s3) (note_lcol-TxOnly ext s1)
        (TxOnly-trans s2 s3 (note_rtry ext s3) (note_lcar-TxOnly ext s2) (note_rtry-TxOnly ext s3)))

module _ (i : ℕ) (s : PcNet) where
  with_trans_next-TxOnly : TxOnly s (with_trans_next i s)
  with_trans_next-TxOnly = record { state = refl; quiet = refl }

moved-TxOnly : (s : PcNet) → TxOnly s (moved s)
unfolding moved
moved-TxOnly s =
    let head = (s.sc.trans_entries s.sc.trans_next).md in
    let i = (s.sc.trans_next + 1) % 32 in
    elim (Bool-cases (has head.status tmd_err)) [
      | inl bad ↦
          let s1 = note_tx_errors head.ext_status s in
          rw bad (
            TxOnly-trans s s1 (with_trans_next i s1) (note_tx_errors-TxOnly head.ext_status s)
              (with_trans_next-TxOnly i s1))
      | inr good ↦
          let s1 = note_tx_done head.status s in
          rw good (
            TxOnly-trans s s1 (with_trans_next i s1) (note_tx_done-TxOnly head.status s)
              (with_trans_next-TxOnly i s1))
    ]

pub release-TxOnly : (s : PcNet) → TxOnly s (released s.sc.trans_next (moved s))
release-TxOnly s =
    TxOnly-trans s (moved s) (released s.sc.trans_next (moved s)) (moved-TxOnly s)
      (released-TxOnly s.sc.trans_next (moved s))

-- What `lnc_output_packet` leaves alone.
pub lnc_output_packet-quiet :
    (pkt : Mbuf) (s : PcNet)
    → let t = (lnc_output_packet pkt s).1 in
      (t.sc ≡ record s.sc {
        trans_entries = t.sc.trans_entries;
        next_to_send = t.sc.next_to_send;
        pending_transmits = t.sc.pending_transmits;
        if_drv_flags = t.sc.if_drv_flags;
      })
      × (inputs t.trace ≡ inputs s.trace)
unfolding lnc_output_packet enqueue write_csr inputs mbuf_to_buffer
lnc_output_packet-quiet pkt s = ground arith
