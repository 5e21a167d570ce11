-- ===== src/Intr.antt =====
-- The interrupt: `lnc_intr` of Source/PCNet_lnc.cpp, and `handleInterrupt`, `outputPacket` and the
-- flags of Source/PCNet_Private.cpp. The chip ends the loop of `lnc_intr` by its answers, so the loop
-- takes fuel, as the loops of `Rx` and `Tx` do.
pub mod Hang
pub mod Served
pub mod MemoryError
use maxxuss_amdpcnet_v.Base.{
  ℕ, zero, suc, Bool, true, false, Option, none, some, has, u16, if◌then◌else◌,
}
use maxxuss_amdpcnet_v.World.{Env, flush_input_queue, service_queue, free_packet}
use maxxuss_amdpcnet_v.Hw.Registers.{
  pcnet32_wio_rap, pcnet32_dwio_rap, csr, csr_err, csr_babl, csr_cerr, csr_miss, csr_merr, csr_rint,
  csr_tint, csr_intr,
}
use maxxuss_amdpcnet_v.State.{PcNet, act, bump}
use maxxuss_amdpcnet_v.Port.{csr_read16, csr_read32, csr_write16, csr_write32, read_csr, write_csr}
use maxxuss_amdpcnet_v.Init.{lnc_reset}
use maxxuss_amdpcnet_v.Tx.{
  Mbuf, OutputReturn, output_success, output_stall, lnc_output_packet, lnc_tint, with_counters,
  ◌>>=◌,
}
use maxxuss_amdpcnet_v.Rx.{lnc_rint}

unfoldable pub enable_hardware_interrupts : PcNet → PcNet
enable_hardware_interrupts s = record s { interrupt_enabled = true }

unfoldable pub disable_hardware_interrupts : PcNet → PcNet
disable_hardware_interrupts s = record s { interrupt_enabled = false }

-- The counters of the error bits, from the bits that were read.
unfoldable pub note_csr_errors : ℕ → PcNet → PcNet
note_csr_errors csr0 s =
    let c = s.counters in
    let c1 =
      if has csr0 csr_cerr then record c { sqe_test_errors = bump c.sqe_test_errors } else c in
    let c2 =
      if has csr0 csr_babl then record c1 { tx_phy_errors = bump c1.tx_phy_errors } else c1 in
    let c3 =
      if has csr0 csr_miss then record c2 { missed_frames = bump c2.missed_frames } else c2 in
    with_counters c3 s

module _ (env : Env) (fuel : ℕ) where
  -- The receive and the transmit part of a round; the flags are `*flushInputQ` and
  -- `*serviceOutputQ`.
  unfoldable pub serve_rings : ℕ → Bool → Bool → PcNet → Option (Bool × Bool × PcNet)
  serve_rings csr0 flush service s =
      (if has csr0 csr_rint then lnc_rint env fuel flush s else some (flush, s)) >>= λ r.
      (if has csr0 csr_tint then lnc_tint env fuel r.1 else some (false, r.1)) >>= λ t.
      some (r.0, if t.0 then true else service, t.1)

  -- The loop's body. A memory error resets the chip and goes on to the next round at once.
  unfoldable pub intr_round : ℕ → Bool → Bool → PcNet → Option (Bool × Bool × PcNet)
  intr_round csr0 flush service s =
      let s1 = write_csr csr csr0 s in
      let s2 = if has csr0 csr_err then note_csr_errors csr0 s1 else s1 in
      if has csr0 csr_err
      then (if has csr0 csr_merr
          then some (flush, service, lnc_reset env s2)
          else serve_rings csr0 flush service s2)
      else serve_rings csr0 flush service s2

  -- `while ((csr0 = read_csr(CSR)) & CSR_INTR)`, `rounds` rounds at most.
  unfoldable pub intr_loop : ℕ → Bool → Bool → PcNet → Option (Bool × Bool × PcNet)
  intr_loop zero flush service s = none
  intr_loop (suc rounds) flush service s =
      let (csr0, s1) = read_csr env csr s in
      elim (has csr0 csr_intr) [
        | false ↦ some (flush, service, s1)
        | true ↦ intr_round csr0 flush service s1 >>= λ r. intr_loop rounds r.0 r.1 r.2
      ]

-- The register address is read before the loop and written back behind it, in the mode of the time.
unfoldable pub read_rap : Env → PcNet → ℕ × PcNet
read_rap env s =
    if s.sc.dwio then csr_read32 env pcnet32_dwio_rap s else csr_read16 env pcnet32_wio_rap s

unfoldable pub write_rap : ℕ → PcNet → PcNet
write_rap rap s =
    if s.sc.dwio then csr_write32 pcnet32_dwio_rap rap s else csr_write16 pcnet32_wio_rap rap s

module _ (env : Env) (fuel : ℕ) where
  unfoldable pub lnc_intr : Bool → Bool → PcNet → Option (Bool × Bool × PcNet)
  lnc_intr flush service s =
      let (rap, s1) = read_rap env s in
      intr_loop env fuel fuel flush service s1 >>= λ r. some (r.0, r.1, write_rap (u16 rap) r.2)

  unfoldable pub handle_interrupt : PcNet → Option PcNet
  handle_interrupt s =
      if s.interrupt_enabled
      then (lnc_intr false false s >>= λ r.
          let s1 = if r.0 then act flush_input_queue r.2 else r.2 in
          some (if r.1 then act service_queue s1 else s1))
      else some s

unfoldable pub output_packet : Mbuf → PcNet → OutputReturn × PcNet
output_packet pkt s =
    let (ret, s1) = lnc_output_packet pkt s in
    elim ret [
      | output_success ↦ (
        output_success,
        with_counters (record s1.counters { output_packets = bump s1.counters.output_packets })
            (act free_packet s1),
      )
      | output_stall ↦ (output_stall, s1)
    ]
