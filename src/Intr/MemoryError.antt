-- ===== src/Intr/MemoryError.antt =====
-- An interrupt for a memory error of the chip, which resets it (the part of `lnc_intr` of
-- Source/PCNet_lnc.cpp before the rings are served).
use maxxuss_amdpcnet_v.Base.{
  ℕ, suc, ◌≡◌, refl, arith, ap, ◌∙◌, true, false, has, some, u16, if◌then◌else◌,
}
use maxxuss_amdpcnet_v.World.{Env}
use maxxuss_amdpcnet_v.Hw.Registers.{csr, csr_err, csr_merr, csr_intr}
use maxxuss_amdpcnet_v.State.{PcNet, Counters, bump}
use maxxuss_amdpcnet_v.Port.{read_csr, write_csr, csr_read32, csr_read16, csr_write32, csr_write16}
use maxxuss_amdpcnet_v.Init.{lnc_reset}
use maxxuss_amdpcnet_v.Init.Frame.{lnc_reset-frame}
use maxxuss_amdpcnet_v.Init.Ready.{IsReady}
use maxxuss_amdpcnet_v.Init.Rings.{IsAllocated}
use maxxuss_amdpcnet_v.Intr.{
  note_csr_errors, intr_round, read_rap, write_rap, lnc_intr, handle_interrupt,
}
use maxxuss_amdpcnet_v.Intr.Hang.{lnc_reset-IsReady}
use maxxuss_amdpcnet_v.Intr.Served.{
  at_loop, causes, acknowledged, loop_stops, loop_goes, if_true, read_rap-lem, write_rap-lem,
  read_csr-lem, write_csr-lem,
}

-- `t` counts what the bits of CSR0 in `csr0` report, and nothing else: a collision error (bit 13) as a
-- failed heartbeat test, a transmission that was too long (bit 14) as an error of the line, and a missed
-- frame (bit 12).
pub record Noted (csr0 : ℕ) (c t : Counters) : Type 0 where
  pub heartbeat :
      t.sqe_test_errors ≡ (if has csr0 0x2000 then bump c.sqe_test_errors else c.sqe_test_errors)
  pub babble : t.tx_phy_errors ≡ (if has csr0 0x4000 then bump c.tx_phy_errors else c.tx_phy_errors)
  pub missed : t.missed_frames ≡ (if has csr0 0x1000 then bump c.missed_frames else c.missed_frames)
  pub others : t ≡ record c {
    sqe_test_errors = t.sqe_test_errors;
    tx_phy_errors = t.tx_phy_errors;
    missed_frames = t.missed_frames;
  }

note_csr_errors-Noted :
    (csr0 : ℕ) (s : PcNet) → Noted csr0 s.counters (note_csr_errors csr0 s).counters
unfolding note_csr_errors
note_csr_errors-Noted csr0 s = ground arith

module _ (env : Env) (f : ℕ) (s : PcNet) where
  -- The state behind the reset.
  abbrev pub recovered : PcNet
  recovered = lnc_reset env (note_csr_errors (causes env f s) (acknowledged env f s))

  reset_round :
      has (causes env f s) csr_err ≡ true
      → has (causes env f s) csr_merr ≡ true
      → intr_round env
          (suc (suc f))
          (causes env f s)
          false
          false
          (read_csr env csr (at_loop env f s)).1
        ≡ some (false, false, recovered)
  unfolding intr_round
  reset_round err merr = rw (err, merr) refl

  after_reset : PcNet
  after_reset = write_rap (u16 (read_rap env s).0) (read_csr env csr recovered).1

  recovers :
      s.interrupt_enabled ≡ true
      → has (causes env f s) csr_intr ≡ true
      → has (causes env f s) csr_err ≡ true
      → has (causes env f s) csr_merr ≡ true
      → has (read_csr env csr recovered).0 csr_intr ≡ false
      → handle_interrupt env (suc (suc f)) s ≡ some after_reset
  unfolding handle_interrupt lnc_intr after_reset
  recovers on intr err merr calm =
      let fuel = suc (suc f) in
      let loop =
        loop_goes env fuel (suc f) (at_loop env f s) false false recovered intr
          (reset_round err merr)
        ∙ loop_stops env fuel f false false recovered calm in
      if_true s.interrupt_enabled _ (some s) on ∙ rw loop refl

  same_before : (acknowledged env f s).sc ≡ s.sc
  same_before =
      let r = read_csr env csr (at_loop env f s) in
      (write_csr-lem (causes env f s) r.1).0
      ∙ (read_csr-lem env (at_loop env f s)).0
      ∙ (read_rap-lem env s).0

  counters_before : (acknowledged env f s).counters ≡ s.counters
  unfolding read_csr write_csr read_rap csr_read32 csr_read16 csr_write32 csr_write16
  counters_before = ground arith

  counters_after : after_reset.counters ≡ recovered.counters
  unfolding after_reset read_csr write_rap csr_read32 csr_read16 csr_write32 csr_write16
  counters_after = ground arith

  same_after : after_reset.sc ≡ recovered.sc
  unfolding after_reset
  same_after =
      let u = (read_csr env csr recovered).1 in
      (write_rap-lem (u16 (read_rap env s).0) u).0 ∙ (read_csr-lem env recovered).0

  noted :
      (a b : PcNet)
      → a.counters ≡ b.counters
      → (note_csr_errors (causes env f s) a).counters
        ≡ (note_csr_errors (causes env f s) b).counters
  unfolding note_csr_errors
  noted a b e = rw e refl

  noted-sc : (a : PcNet) → (note_csr_errors (causes env f s) a).sc ≡ a.sc
  unfolding note_csr_errors
  noted-sc a = refl

  -- With the interrupts on and the memory allocated: if the chip reports a memory error, and no interrupt
  -- any more once it is reset, `handleInterrupt` returns with 34 units of fuel, both rings are as after
  -- the initialization, and exactly the counters of the errors that the value read from CSR0 reports are
  -- counted up: the heartbeat test's by CERR, the line errors' by BABL, the missed frames' by MISS.
  pub handle_interrupt-recovers :
      s.interrupt_enabled ≡ true
      → IsAllocated s.sc
      → has (causes env f s) csr_intr ≡ true
      → has (causes env f s) csr_err ≡ true
      → has (causes env f s) csr_merr ≡ true
      → has (read_csr env csr recovered).0 csr_intr ≡ false
      → (t : PcNet) × (handle_interrupt env (suc (suc f)) s ≡ some t)
        × IsReady t.sc
        × Noted (causes env f s) s.counters t.counters
  handle_interrupt-recovers on ok intr err merr calm =
      let a = note_csr_errors (causes env f s) (acknowledged env f s) in
      let ready = lnc_reset-IsReady env a (rw (noted-sc (acknowledged env f s) ∙ same_before) ok) in
      let counters = ap {A = PcNet} (λ x. x.counters) (lnc_reset-frame env a) in
      (
        after_reset,
        recovers on intr err merr calm,
        rw same_after ready,
        rw (counters_after ∙ counters ∙ noted (acknowledged env f s) s counters_before)
            (note_csr_errors-Noted (causes env f s) s),
      )
