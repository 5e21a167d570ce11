-- ===== src/Rx.antt =====
-- Reception, Source/PCNet_lnc.cpp: `lnc_rint` and `mbuf_packet`. As in `Tx`, a loop that the ring's
-- contents end takes fuel. A packet buffer is the list of the bytes copied into it.
pub mod Ring
pub mod Round
pub mod Waiting
pub mod Drain
pub mod Failed
pub mod Copy
pub mod Joined
pub mod Span
use maxxuss_amdpcnet_v.Base.{
  ℕ, zero, suc, ◌+◌, ◌-◌, ◌^◌, ◌%◌, ◌==◌, Bool, true, false, not, ◌&&◌, List, [], ◌∷◌, ◌++◌, Option,
  none, some, bit_and, bit_or, u16, neg16, has, ltb, get_or, bytes_at, if◌then◌else◌,
}
use maxxuss_amdpcnet_v.World.{Env, allocate_packet, free_packet, input_packet}
use maxxuss_amdpcnet_v.Hw.{Mds, ether_addr_len, ether_crc_len, ether_shost_offset}
use maxxuss_amdpcnet_v.Hw.Registers.{csr, csr_iena, csr_rint}
use maxxuss_amdpcnet_v.Hw.Descriptors.{
  rmd_own, rmd_err, rmd_fram, rmd_oflo, rmd_crc, rmd_stp, rmd_enp, mdhead_len_mask,
}
use maxxuss_amdpcnet_v.Softc.{
  LncSoftc, HostRingEntry, lnc_inc_md_ptr, lnc_iff_promisc, lnc_recvbufsize, set_md,
}
use maxxuss_amdpcnet_v.State.{PcNet, Counters, with_sc, act, ask, bump}
use maxxuss_amdpcnet_v.Port.{write_csr}
use maxxuss_amdpcnet_v.Init.{lnc_reset}
use maxxuss_amdpcnet_v.Tx.{Flow, go_on, leave, bail, scan_end, ◌>>=◌, with_counters}

abbrev pub recv_status : PcNet → ℕ → ℕ
recv_status s i = (s.sc.recv_entries i).md.status

abbrev pub with_recv_next : ℕ → PcNet → PcNet
with_recv_next i s = with_sc (record s.sc { recv_next = i }) s

-- The two stores that give a descriptor to the chip.
unfoldable pub give_back : ℕ → LncSoftc → LncSoftc
give_back i sc =
    let m' : Mds = record ((sc.recv_entries i).md) {
      status = rmd_own;
      msg_size = neg16 lnc_recvbufsize;
    } in
    record sc { recv_entries = set_md sc.recv_entries i m' }

-- The loop of `mbuf_packet` from the descriptor `start` on; `got` is what was copied. Each round copies
-- `amount = blen` bytes, so that `blen -= amount` is 0 and the round goes on to the next descriptor.
unfoldable pub copy_ring :
    ℕ → (ℕ → ℕ) → ℕ → ℕ → ℕ → ℕ → List ℕ → LncSoftc → Option (List ℕ × LncSoftc)
unfolding give_back
copy_ring zero mem start at blen pkt_len got sc = none
copy_ring (suc fuel) mem start at blen pkt_len got sc =
    let amount = if ltb pkt_len blen then pkt_len else blen in
    let got' = got ++ bytes_at mem at amount in
    let left = u16 (pkt_len + 2 ^ 16 - amount) in
    let start' = lnc_inc_md_ptr start sc.nrdre in
    let sc' = give_back start sc in
    let rest =
      copy_ring fuel mem start' (sc'.recv_entries start').buf_addr lnc_recvbufsize left got' sc' in
    if start == sc.recv_next then some (got, sc) else rest

-- `none` inside is the null pointer of an allocation that failed.
unfoldable pub mbuf_packet : Env → ℕ → ℕ → ℕ → PcNet → Option (Option (List ℕ) × PcNet)
mbuf_packet env fuel start pkt_len s =
    let (ok, s1) = ask env (allocate_packet pkt_len) s in
    if ok
    then (copy_ring fuel s1.mem start (s1.sc.recv_entries start).buf_addr lnc_recvbufsize pkt_len []
          s1.sc
        >>= λ r. some (some r.0, with_sc r.1 s1))
    else some (none, s1)

-- `while (start != recv_next)` of a packet that is dropped.
unfoldable pub drop_ring : ℕ → ℕ → LncSoftc → Option LncSoftc
unfolding give_back
drop_ring zero start sc = none
drop_ring (suc fuel) start sc =
    let rest = drop_ring fuel (lnc_inc_md_ptr start sc.nrdre) (give_back start sc) in
    if start == sc.recv_next then some sc else rest

-- The counters of a packet with the error flag, by its last descriptor's flags.
unfoldable pub note_rx_error : ℕ → PcNet → PcNet
note_rx_error flags s =
    let s1 = with_counters (record s.counters { input_errors = bump s.counters.input_errors }) s in
    let c = s1.counters in
    if not (has flags rmd_oflo) && (has flags rmd_enp && not (has s.sc.if_flags lnc_iff_promisc))
    then (if has flags rmd_fram
        then with_counters (record c { alignment_errors = bump c.alignment_errors }) s1
        else if has flags rmd_crc
        then with_counters (record c { fcs_errors = bump c.fcs_errors }) s1
        else s1)
    else s1

abbrev pub bump_rx_resets : PcNet → PcNet
bump_rx_resets s =
    with_counters
      (record s.counters {
        input_errors = bump s.counters.input_errors;
        rx_resets = bump s.counters.rx_resets;
      })
      s

module _ (env : Env) where
  unfoldable pub check_rx_end : Bool → ℕ → PcNet → Flow × PcNet
  check_rx_end lookahead start s =
      let st = recv_status s s.sc.recv_next in
      if has st rmd_stp
      then (bail, lnc_reset env (bump_rx_resets s))
      else if has st rmd_own
      then (if lookahead
          then (leave, with_recv_next start s)
          else (bail, lnc_reset env (bump_rx_resets s)))
      else (go_on, s)

  unfoldable pub find_rx_end : ℕ → Bool → PcNet → Option (Flow × PcNet)
  find_rx_end fuel lookahead s =
      let sc = s.sc in
      let mask = bit_or (bit_or (bit_or rmd_stp rmd_own) rmd_enp) rmd_err in
      if has (recv_status s sc.recv_next) (bit_or rmd_enp rmd_err)
      then some (go_on, s)
      else scan_end fuel sc.recv_entries sc.nrdre mask sc.recv_next >>= λ i.
          some (check_rx_end lookahead sc.recv_next (with_recv_next i s))

  -- `bcmp(eh->ether_shost, phys_addr, ETHER_ADDR_LEN) == 0` from the byte `i` on.
  unfoldable pub same_sender : ℕ → ℕ → List ℕ → PcNet → Bool
  same_sender zero i pkt s = true
  same_sender (suc n) i pkt s =
      get_or pkt (ether_shost_offset + i) (env.fresh_byte s.trace (ether_shost_offset + i))
        == s.sc.init_block.phys_addr i
      && same_sender n (i + 1) pkt s

  -- What becomes of a packet without error: the flag is whether it was queued.
  unfoldable pub deliver : Option (List ℕ) → ℕ → PcNet → Bool × PcNet
  deliver none pkt_len s = (
    false,
    with_counters (record s.counters { rx_resource_errors = bump s.counters.rx_resource_errors }) s,
  )
  deliver (some pkt) pkt_len s =
      if same_sender ether_addr_len 0 pkt s
      then (false, act free_packet s)
      else (let s1 = act (input_packet pkt pkt_len) s in
          (
            true,
            with_counters (record s1.counters { input_packets = bump s1.counters.input_packets })
                s1,
          ))

  -- The packet from `start` to the descriptor `recv_next`, which holds its end.
  unfoldable pub take_packet : ℕ → ℕ → PcNet → Option (Bool × PcNet)
  take_packet fuel start s =
      let m = (s.sc.recv_entries s.sc.recv_next).md in
      let pkt_len = u16 (bit_and m.rx_msg_length mdhead_len_mask + 2 ^ 16 - ether_crc_len) in
      let s1 = with_recv_next (lnc_inc_md_ptr s.sc.recv_next s.sc.nrdre) s in
      if has m.status rmd_err
      then (let s2 = note_rx_error m.status s1 in
          drop_ring fuel start s2.sc >>= λ sc. some (false, with_sc sc s2))
      else mbuf_packet env fuel start pkt_len s1 >>= λ r. some (deliver r.0 pkt_len r.1)

  -- One round of the loop of `lnc_rint`; the flag is whether a packet was queued.
  unfoldable pub rint_round : ℕ → Bool → PcNet → Option (Flow × Bool × PcNet)
  rint_round fuel lookahead s = find_rx_end fuel lookahead s >>= λ r. elim (r.0) [
    | leave ↦ some (leave, false, r.1)
    | bail ↦ some (bail, false, r.1)
    | go_on ↦ take_packet fuel s.sc.recv_next r.1 >>= λ t. some (go_on, t.0, t.1)
  ]

  -- The loop, with `rounds` rounds at most: whether it ended without `return`, and `*queued`.
  unfoldable pub rint_loop : ℕ → ℕ → Bool → Bool → PcNet → Option (Bool × Bool × PcNet)
  rint_loop fuel zero lookahead queued s = none
  rint_loop fuel (suc rounds) lookahead queued s =
      elim (has (recv_status s s.sc.recv_next) rmd_stp) [
        | false ↦ some (true, queued, s)
        | true ↦ rint_round fuel lookahead s >>= λ r. elim (r.0) [
          | leave ↦ some (true, queued, r.2)
          | bail ↦ some (false, queued, r.2)
          | go_on ↦ rint_loop fuel rounds true (if r.1 then true else queued) r.2
        ]
      ]

-- What follows the loop of `lnc_rint`.
unfoldable pub finish_rint : PcNet → PcNet
finish_rint s =
    let c = s.counters in
    write_csr csr (bit_or csr_rint csr_iena)
      (with_counters (record c { rx_interrupts = bump c.rx_interrupts }) s)

module _ (env : Env) where
  -- `lnc_rint`, and the value of `*queued` after it.
  unfoldable pub lnc_rint : ℕ → Bool → PcNet → Option (Bool × PcNet)
  lnc_rint fuel queued s = rint_loop env fuel fuel false queued s >>= λ r.
      if r.0 then some (r.1, finish_rint r.2) else some (r.1, r.2)
