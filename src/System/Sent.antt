-- ===== src/System/Sent.antt =====
-- A packet that the chip sends, and the packets that `lnc_tint` takes off then.
use maxxuss_amdpcnet_v.Base.{
  ℕ, suc, ◌+◌, ◌-◌, ◌%◌, ◌<◌, ◌≤◌, ◌≡◌, ◌≢◌, arith, ap, ap₂, sym, ◌∙◌, Bool, true, false, has, ◌∷◌,
  dec_lt, some, ℕ_discrete,
}
use maxxuss_amdpcnet_v.World.{Env}
use maxxuss_amdpcnet_v.Hw.{Mds}
use maxxuss_amdpcnet_v.Hw.Descriptors.{tmd_own}
use maxxuss_amdpcnet_v.Softc.{HostRingEntry, lnc_transbufsize}
use maxxuss_amdpcnet_v.State.{PcNet}
use maxxuss_amdpcnet_v.Tx.{lnc_tint, trans_status}
use maxxuss_amdpcnet_v.Tx.Ring.{slot, slot_status, transmit, ChipStep-TxValid}
use maxxuss_amdpcnet_v.Tx.Reclaim.{NoUnderflow}
use maxxuss_amdpcnet_v.Tx.Frame.{TxOnly}
use maxxuss_amdpcnet_v.Tx.Drain.{reclaimable, Drained, lnc_tint-Drained}
use maxxuss_amdpcnet_v.System.{sent_frame, byte_count, IsSent, with_trans_md}
use maxxuss_amdpcnet_v.System.Frames.{frames, frames-cong, finished_count, true-false, some-pair}
use maxxuss_amdpcnet_v.System.Send.{SendInv, unsent}

-- The chip sends the packet at its place, which is the oldest of those still to be sent.
module _ (base place d : ℕ) (s : PcNet) (m : Mds) (i : SendInv base s place d)
    (own : has (trans_status s place) tmd_own ≡ true)
    (sent : IsSent ((s.sc.trans_entries place).md) m)
    (same_size : m.msg_size ≡ (s.sc.trans_entries place).md.msg_size) where
  abbrev chip_done : PcNet
  chip_done = with_trans_md place m s

  -- A ring that is sent has no descriptor of the chip.
  none_owned : d ≡ s.sc.pending_transmits → has (slot_status s.sc d) tmd_own ≡ false
  none_owned all = elim (dec_lt d 32) [
    | yes p ↦ ap (λ n. has n tmd_own) (i.tx.free d (omega (arith, all)) p)
    | no p ↦
        let full : d ≡ 32 = omega (arith, all, i.tx.pending_in) in
        let round : slot s.sc d ≡ slot s.sc 0 = omega (arith, full) in
        ap (λ j. has ((s.sc.trans_entries j).md.status) tmd_own) round
        ∙ i.done 0 (omega (arith, full))
  ]

  at_slot : slot s.sc d ≡ place
  at_slot = sym i.at

  not_all_sent : d < s.sc.pending_transmits
  not_all_sent = elim (dec_lt d s.sc.pending_transmits) [
    | yes p ↦ p
    | no p ↦
        let free = none_owned (omega (arith, i.some_sent)) in
        let owned = ap (λ j. has ((s.sc.trans_entries j).md.status) tmd_own) at_slot ∙ own in
        absurd (true-false (sym owned ∙ free))
  ]

  other_entry :
      (k : ℕ)
      → k < 32
      → k ≢ d
      → chip_done.sc.trans_entries (slot s.sc k) ≡ s.sc.trans_entries (slot s.sc k)
  other_entry k h ne =
      let apart : slot s.sc k ≢ place = omega (arith, i.at, not_all_sent, i.tx.pending_in) in
      ground (arith, apart)

  this_entry :
      (k : ℕ)
      → k ≡ d
      → chip_done.sc.trans_entries (slot s.sc k) ≡ record (s.sc.trans_entries place) { md = m }
  this_entry k e = rw (e, at_slot) (ground arith)

  each_entry :
      (P : HostRingEntry → Type 0)
      → P (record (s.sc.trans_entries place) { md = m })
      → (k : ℕ) → k < s.sc.pending_transmits
      → P (s.sc.trans_entries (slot s.sc k))
      → P (chip_done.sc.trans_entries (slot s.sc k))
  each_entry P new k h old = elim (ℕ_discrete k d) [
    | yes e ↦ rw (this_entry k e) new
    | no ne ↦ rw (other_entry k (omega (arith, i.tx.pending_in)) ne) old
  ]

  small_here : byte_count m ≤ 1544
  small_here =
      let old = i.sized d not_all_sent in
      let same : (s.sc.trans_entries (slot s.sc d)).md.msg_size ≡ m.msg_size =
        ap (λ j. (s.sc.trans_entries j).md.msg_size) at_slot ∙ sym same_size in
      omega (arith, same, old)

  pub transmit-SendInv : SendInv base chip_done ((place + 1) % 32) (suc d)
  transmit-SendInv = record {
    tx = ChipStep-TxValid (transmit s.sc place m own sent.starts sent.ends) i.tx;
    some_sent = not_all_sent;
    at = omega (arith, i.at);
    done = λ k h. elim (ℕ_discrete k d) [
      | yes e ↦ ap (λ x. has x.md.status tmd_own) (this_entry k e) ∙ sent.freed
      | no ne ↦
          ap (λ x. has x.md.status tmd_own)
            (other_entry k (omega (arith, not_all_sent, i.tx.pending_in)) ne)
          ∙ i.done k (omega arith)
    ];
    owned = λ k h l.
        ap (λ x. has x.md.status tmd_own)
          (other_entry k (omega (arith, i.tx.pending_in)) (omega arith))
        ∙ i.owned k (omega arith) l;
    fine = λ k h. each_entry (λ x. NoUnderflow x) sent.fine k h (i.fine k h);
    sized =
        λ k h. each_entry (λ x. byte_count x.md ≤ lnc_transbufsize) small_here k h (i.sized k h);
    bufs = λ j h. ground (arith, i.bufs j h);
  }

  pub transmit-unsent :
      unsent s d ≡ sent_frame s.mem (s.sc.trans_entries place) ∷ unsent chip_done (suc d)
  unfolding frames
  transmit-unsent =
      let n = s.sc.pending_transmits - suc d in
      let more : s.sc.pending_transmits - d ≡ suc n = omega (arith, not_all_sent) in
      let next : d + 1 ≡ suc d = omega arith in
      ap (λ k. frames s.mem s.sc k d) more
      ∙ ap₂ ◌∷◌ (ap (λ j. sent_frame s.mem (s.sc.trans_entries j)) at_slot) (
          frames-cong s.mem s.mem chip_done.sc s.sc n (suc d) (d + 1) (λ k h. rw next (
            sym (
              ap (sent_frame s.mem)
                (other_entry (suc d + k) (omega (arith, i.tx.pending_in)) (omega arith))))))

-- `lnc_tint` takes off the packets that were sent.
module _ (env : Env) (base place d f : ℕ) (s : PcNet) (i : SendInv base s place d) (enough : 32 ≤ f)
    (pending : 0 < s.sc.pending_transmits)
    (sent : has (trans_status s s.sc.trans_next) tmd_own ≡ false) (b : Bool) (t : PcNet)
    (e : lnc_tint env (suc f) s ≡ some (b, t)) where
  head_slot : slot s.sc 0 ≡ s.sc.trans_next
  head_slot = omega (arith, i.tx.next_in)

  one_sent : 0 < d
  one_sent = elim (dec_lt 0 d) [
    | yes p ↦ p
    | no p ↦
        let owned = i.owned 0 (omega arith) pending in
        let free = ap (λ j. has ((s.sc.trans_entries j).md.status) tmd_own) head_slot ∙ sent in
        absurd (true-false (sym owned ∙ free))
  ]

  all_taken : reclaimable s.sc ≡ d
  unfolding reclaimable
  all_taken =
      let c =
        finished_count s.sc (d - 1) (s.sc.pending_transmits - 1) 1 (omega (arith, i.some_sent))
          (λ j h. i.done (1 + j) (omega arith))
          (λ j h l. i.owned (1 + j) (omega (arith, one_sent)) (omega arith)) in
      omega (arith, c, one_sent)

  abbrev drained :
      (u : PcNet) × (lnc_tint env (suc f) s ≡ some (true, u))
      × Drained s.sc u.sc (reclaimable s.sc)
      × TxOnly s u
  drained = lnc_tint-Drained env f s enough i.tx pending i.fine

  same_result : t ≡ drained.0
  same_result = some-pair (sym e ∙ drained.1)

  taken_off : Drained s.sc t.sc d
  taken_off = rw (same_result, ← all_taken) drained.2

  pub reclaim-TxOnly : TxOnly s t
  reclaim-TxOnly = rw same_result drained.3

  pub reclaim-SendInv : SendInv base t place 0
  reclaim-SendInv =
      let r = taken_off in
      let entry = r.kept in
      record {
        tx = r.valid;
        some_sent = omega arith;
        at = i.at ∙ omega (arith, r.next);
        done = λ k h. absurd (omega arith);
        owned = λ k h l.
            ap (λ x. has x.md.status tmd_own) (entry k l)
            ∙ i.owned (k + d) (omega arith) (omega (arith, r.fewer));
        fine = λ k h. rw (entry k h) (i.fine (k + d) (omega (arith, r.fewer)));
        sized = λ k h. rw (entry k h) (i.sized (k + d) (omega (arith, r.fewer)));
        bufs = λ j h. r.bufs j ∙ i.bufs j h;
      }

  pub reclaim-unsent : unsent t 0 ≡ unsent s d
  reclaim-unsent =
      let r = taken_off in
      let n = s.sc.pending_transmits - d in
      let left : t.sc.pending_transmits - 0 ≡ n = omega (arith, r.fewer) in
      let same_mem : t.mem ≡ s.mem = ap {A = PcNet} (λ x. x.mem) reclaim-TxOnly.state in
      ap (λ k. frames t.mem t.sc k 0) left
      ∙ frames-cong s.mem t.mem s.sc t.sc n d 0 (λ k h.
        let at0 : 0 + k ≡ k = omega arith in
        let swap : d + k ≡ k + d = omega arith in
        rw (at0, swap, same_mem) (ap (sent_frame s.mem) (r.kept k (omega (arith, r.fewer)))))
