-- ===== src/Tx.antt =====
-- Transmission, Source/PCNet_lnc.cpp: `lnc_output_packet` and `mbuf_to_buffer`, and `lnc_tint`, which
-- takes finished packets off the ring. A loop that the ring's contents end takes fuel, and `none` is
-- a loop that has not ended when the fuel is used up.
pub mod Ring
pub mod Output
pub mod Reclaim
pub mod Frame
pub mod Drain
pub mod Underflow
pub mod Idle
use maxxuss_amdpcnet_v.Base.{
  ℕ, zero, suc, ◌+◌, ◌-◌, ◌^◌, ◌%◌, ◌==◌, Bool, true, false, not, ◌&&◌, List, [], ◌∷◌, Option, none,
  some, bit_and, bit_or, u32, neg16, not16, not32, has, ltb, leb, length, update, if◌then◌else◌,
}
use maxxuss_amdpcnet_v.World.{Env, service_queue_async}
use maxxuss_amdpcnet_v.Hw.{Mds}
use maxxuss_amdpcnet_v.Hw.Registers.{csr, csr_tdmd, csr_iena, csr_tint}
use maxxuss_amdpcnet_v.Hw.Descriptors.{
  tmd_own, tmd_err, tmd_more, tmd_one, tmd_stp, tmd_enp, tmd_tbuff, tmd_uflo, tmd_lcol, tmd_lcar,
  tmd_rtry,
}
use maxxuss_amdpcnet_v.Softc.{
  LncSoftc, HostRingEntry, lnc_ndesc, lnc_inc_md_ptr, lnc_iff_drv_oactive, set_md, set_status,
}
use maxxuss_amdpcnet_v.State.{PcNet, Counters, with_sc, act, bump}
use maxxuss_amdpcnet_v.Port.{write_csr}
use maxxuss_amdpcnet_v.Init.{lnc_reset}

-- A packet as the mbuf calls show it: `mbuf_pkthdr_len`, and the data of each mbuf of the chain.
pub record Mbuf : Type 0 where
  pub pkthdr_len : ℕ
  pub chain : List (List ℕ)

-- `bcopy` of the bytes to an address.
unfoldable pub bcopy : List ℕ → ℕ → (ℕ → ℕ) → ℕ → ℕ
bcopy [] at m = m
bcopy (b ∷ bs) at m = bcopy bs (at + 1) (update m at b)

-- The loop of `mbuf_to_buffer` over the chain.
unfoldable pub copy_chain : List (List ℕ) → ℕ → (ℕ → ℕ) → ℕ → ℕ
unfolding bcopy
copy_chain [] at m = m
copy_chain (d ∷ ds) at m = copy_chain ds (at + length d) (bcopy d at m)

unfoldable pub mbuf_to_buffer : Mbuf → ℕ → (ℕ → ℕ) → ℕ × (ℕ → ℕ)
unfolding copy_chain
mbuf_to_buffer pkt buffer m = (pkt.pkthdr_len, copy_chain pkt.chain buffer m)

-- kIOReturnOutputSuccess and kIOReturnOutputStall.
pub data OutputReturn : Type 0 where
  output_success output_stall : OutputReturn

-- `a >= n` of an `int`, as a bit pattern, with a number below 2 ^ 31.
abbrev pub int_ge : ℕ → ℕ → Bool
int_ge a n = ltb a (2 ^ 31) && leb n a

-- `a--` of an `int`.
abbrev pub int_dec : ℕ → ℕ
int_dec a = u32 (a + 2 ^ 32 - 1)

-- The soft state with the packet in the ring.
unfoldable pub enqueue : LncSoftc → ℕ → LncSoftc
enqueue sc len =
    let md' : Mds = record ((sc.trans_entries sc.next_to_send).md) {
      ext_status = 0;
      msg_size = neg16 len;
      status = bit_or (bit_or tmd_own tmd_stp) tmd_enp;
    } in
    record sc {
      pending_transmits = u32 (sc.pending_transmits + 1);
      trans_entries = set_md sc.trans_entries sc.next_to_send md';
      next_to_send = lnc_inc_md_ptr sc.next_to_send sc.ntdre;
    }

unfoldable pub lnc_output_packet : Mbuf → PcNet → OutputReturn × PcNet
unfolding enqueue mbuf_to_buffer write_csr
lnc_output_packet pkt s =
    if int_ge s.sc.pending_transmits (lnc_ndesc s.sc.ntdre)
    then (output_stall, s)
    else (let (len, mem') =
          mbuf_to_buffer pkt (s.sc.trans_entries s.sc.next_to_send).buf_addr s.mem in
        let s1 = record s { sc = enqueue s.sc len; mem = mem' } in
        let s2 = write_csr csr (bit_or csr_tdmd csr_iena) s1 in
        if int_ge s2.sc.pending_transmits (lnc_ndesc s2.sc.ntdre)
        then (
          output_success,
          with_sc (record s2.sc { if_drv_flags = bit_or s2.sc.if_drv_flags lnc_iff_drv_oactive })
              s2,
        )
        else (output_success, s2))

-- `do { LNC_INC_MD_PTR(next, len2) } while (!(status & mask))`: the index where it stops.
unfoldable pub scan_end : ℕ → (ℕ → HostRingEntry) → ℕ → ℕ → ℕ → Option ℕ
scan_end zero ring len2 mask i = none
scan_end (suc fuel) ring len2 mask i =
    let i' = lnc_inc_md_ptr i len2 in
    let rest = scan_end fuel ring len2 mask i' in
    if has ((ring i').md.status) mask then some i' else rest

-- How a part of a loop's body leaves it: on to the next part, by `break`, or by `return`.
pub data Flow : Type 0 where
  go_on leave bail : Flow

abbrev pub trans_status : PcNet → ℕ → ℕ
trans_status s i = (s.sc.trans_entries i).md.status

abbrev pub with_trans_next : ℕ → PcNet → PcNet
with_trans_next i s = with_sc (record s.sc { trans_next = i }) s

abbrev pub with_counters : Counters → PcNet → PcNet
with_counters c s = record s { counters = c }

abbrev pub bump_tx_resets : PcNet → PcNet
bump_tx_resets s = with_counters (record s.counters { tx_resets = bump s.counters.tx_resets }) s

infixl 5 ◌>>=◌
abbrev pub ◌>>=◌ {ℓ κ} : {A : Type ℓ} {B : Type κ} → Option A → (A → Option B) → Option B
none >>= f = none
some a >>= f = f a

module _ (env : Env) where
  -- What the scan ran into: the start of another packet, a descriptor of the chip, or the end.
  unfoldable pub check_tx_end : Bool → ℕ → PcNet → Flow × PcNet
  check_tx_end lookahead start s =
      let st = trans_status s s.sc.trans_next in
      if has st tmd_stp
      then (bail, lnc_reset env (bump_tx_resets s))
      else if has st tmd_own
      then (if lookahead
          then (leave, with_trans_next start s)
          else (bail, lnc_reset env (bump_tx_resets s)))
      else (go_on, s)

  unfoldable pub find_tx_end : ℕ → Bool → PcNet → Option (Flow × PcNet)
  find_tx_end fuel lookahead s =
      let sc = s.sc in
      let mask = bit_or (bit_or (bit_or tmd_stp tmd_own) tmd_enp) tmd_err in
      if has (trans_status s sc.trans_next) (bit_or tmd_enp tmd_err)
      then some (go_on, s)
      else scan_end fuel sc.trans_entries sc.ntdre mask sc.trans_next >>= λ i.
          some (check_tx_end lookahead sc.trans_next (with_trans_next i s))

-- `ext_status &= ~TMD_TBUFF` at the descriptor `i`.
abbrev pub clear_tbuff : ℕ → PcNet → PcNet
clear_tbuff i s =
    let m = (s.sc.trans_entries i).md in
    let m' = record m { ext_status = bit_and m.ext_status (not16 tmd_tbuff) } in
    with_sc (record s.sc { trans_entries = set_md s.sc.trans_entries i m' }) s

-- The three flags of a failed packet, by the extended status `ext` that was read first.
unfoldable pub note_lcol : ℕ → PcNet → PcNet
note_lcol ext s =
    if has ext tmd_lcol
    then clear_tbuff s.sc.trans_next
        (with_counters (record s.counters { late_collisions = bump s.counters.late_collisions }) s)
    else s

unfoldable pub note_lcar : ℕ → PcNet → PcNet
note_lcar ext s =
    if has ext tmd_lcar
    then with_counters
        (record s.counters { carrier_sense_errors = bump s.counters.carrier_sense_errors }) s
    else s

unfoldable pub note_rtry : ℕ → PcNet → PcNet
note_rtry ext s =
    if has ext tmd_rtry
    then clear_tbuff s.sc.trans_next (
        with_counters
          (record s.counters { excessive_collisions = bump s.counters.excessive_collisions }) s)
    else s

unfoldable pub note_tx_errors : ℕ → PcNet → PcNet
note_tx_errors ext s = note_rtry ext (
    note_lcar ext (
      note_lcol ext
        (with_counters (record s.counters { output_errors = bump s.counters.output_errors }) s)))

-- The counters of a packet that was sent.
unfoldable pub note_tx_done : ℕ → PcNet → PcNet
note_tx_done st s =
    let c = s.counters in
    let c1 =
      if has st tmd_more
      then record c { multiple_collision_frames = bump c.multiple_collision_frames }
      else c in
    let c2 =
      if has st tmd_one
      then record c1 { single_collision_frames = bump c1.single_collision_frames }
      else c1 in
    with_counters c2 s

-- `do { LNC_INC_MD_PTR } while (!(status & TMD_STP) && trans_next != next_to_send)`.
unfoldable pub skip_packet : ℕ → LncSoftc → ℕ → Option ℕ
skip_packet zero sc i = none
skip_packet (suc fuel) sc i =
    let i' = lnc_inc_md_ptr i sc.ntdre in
    let rest = skip_packet fuel sc i' in
    if not (has ((sc.trans_entries i').md.status) tmd_stp) && not (i' == sc.next_to_send)
    then rest
    else some i'

-- `do { status = 0; pending_transmits--; LNC_INC_MD_PTR(start) } while (start != trans_next)`.
unfoldable pub clear_packet : ℕ → ℕ → LncSoftc → Option LncSoftc
clear_packet zero start sc = none
clear_packet (suc fuel) start sc =
    let sc1 = record sc {
      trans_entries = set_status sc.trans_entries start 0;
      pending_transmits = int_dec sc.pending_transmits;
    } in
    let start' = lnc_inc_md_ptr start sc.ntdre in
    let rest = clear_packet fuel start' sc1 in if start' == sc.trans_next then some sc1 else rest

-- What follows the loop of `lnc_tint`.
unfoldable pub finish_tint : PcNet → PcNet
finish_tint s =
    let c = s.counters in
    write_csr csr (bit_or csr_tint csr_iena)
      (with_counters (record c { tx_interrupts = bump c.tx_interrupts }) s)

module _ (env : Env) where
  -- The packet's fate: an underflow resets the chip; otherwise `trans_next` moves behind the packet.
  unfoldable pub tx_outcome : ℕ → PcNet → Option (Flow × PcNet)
  tx_outcome fuel s =
      let i = s.sc.trans_next in
      let ext = (s.sc.trans_entries i).md.ext_status in
      if has (trans_status s i) tmd_err
      then (let s1 = note_tx_errors ext s in
          if has ext tmd_uflo
          then (let s2 =
                with_counters (record s1.counters { tx_underruns = bump s1.counters.tx_underruns })
                  s1 in
              some (bail, lnc_reset env (bump_tx_resets s2)))
          else skip_packet fuel s1.sc i >>= λ i'. some (go_on, with_trans_next i' s1))
      else some
          (go_on, with_trans_next (lnc_inc_md_ptr i s.sc.ntdre) (note_tx_done (trans_status s i) s))

  -- The packet's descriptors are free again.
  unfoldable pub release_packet : ℕ → ℕ → PcNet → Option PcNet
  release_packet fuel start s = clear_packet fuel start s.sc >>= λ sc.
      let s1 =
        with_sc (record sc { if_drv_flags = bit_and sc.if_drv_flags (not32 lnc_iff_drv_oactive) })
          s in
      some (
        if s1.transmit_queue && not (s1.sc.pending_transmits == 0)
        then act service_queue_async s1
        else s1)

  -- One round of the loop of `lnc_tint`.
  unfoldable pub tint_round : ℕ → Bool → PcNet → Option (Flow × PcNet)
  tint_round fuel lookahead s = find_tx_end env fuel lookahead s >>= λ r. elim (r.0) [
    | leave ↦ some (leave, r.1)
    | bail ↦ some (bail, r.1)
    | go_on ↦ tx_outcome fuel r.1 >>= λ o. elim (o.0) [
      | leave ↦ some (leave, o.1)
      | bail ↦ some (bail, o.1)
      | go_on ↦ release_packet fuel s.sc.trans_next o.1 >>= λ s1. some (go_on, s1)
    ]
  ]

  -- `while (sc.pending_transmits && !(next->md->status & TMD_OWN))`.
  abbrev pub more_finished : PcNet → Bool
  more_finished s =
      not (s.sc.pending_transmits == 0) && not (has (trans_status s s.sc.trans_next) tmd_own)

  -- The loop, with `rounds` rounds at most. The flag is whether it ended without `return`.
  unfoldable pub tint_loop : ℕ → ℕ → Bool → PcNet → Option (Bool × PcNet)
  tint_loop fuel zero lookahead s = none
  tint_loop fuel (suc rounds) lookahead s = tint_round fuel lookahead s >>= λ r. elim (r.0) [
    | leave ↦ some (true, r.1)
    | bail ↦ some (false, r.1)
    | go_on ↦ elim (more_finished r.1) [
      | true ↦ tint_loop fuel rounds true r.1
      | false ↦ some (true, r.1)
    ]
  ]

  -- `lnc_tint`, and whether it sets `*reclaimed`.
  unfoldable pub lnc_tint : ℕ → PcNet → Option (Bool × PcNet)
  lnc_tint fuel s = tint_loop fuel fuel false s >>= λ r.
      if r.0 then some (true, finish_tint r.1) else some (false, r.1)
