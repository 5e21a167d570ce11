-- ===== src/Examples/Recovery.antt =====
-- The same for an underflow and for a memory error.
use maxxuss_amdpcnet_v.Base.{
  ℕ, ◌≡◌, refl, arith, false, List, [], ◌∷◌, some, has, ◌==◌, if◌then◌else◌,
}
use maxxuss_amdpcnet_v.World.{Env, Event, read32}
use maxxuss_amdpcnet_v.Hw.Registers.{csr, csr_intr}
use maxxuss_amdpcnet_v.Softc.{LncSoftc}
use maxxuss_amdpcnet_v.State.{PcNet}
use maxxuss_amdpcnet_v.Port.{read_csr, pcnet32_start}
use maxxuss_amdpcnet_v.Init.{start_chip, lnc_init, lnc_reset}
use maxxuss_amdpcnet_v.Init.Ready.{IsReady}
use maxxuss_amdpcnet_v.Intr.{read_rap, handle_interrupt}
use maxxuss_amdpcnet_v.Intr.Served.{causes}
use maxxuss_amdpcnet_v.Intr.MemoryError.{Noted, recovered, handle_interrupt-recovers}
use maxxuss_amdpcnet_v.Examples.{quiet, soft, driver, soft-IsAllocated}

-- A packet that the chip sent, and behind it one that it failed to send by an underflow.
abbrev starved : LncSoftc
starved = record soft {
  trans_entries = λ i.
      if i == 0
      then (let e = soft.trans_entries 0 in record e { md = record e.md { status = 0x0300 } })
      else if i == 1
      then (let e = soft.trans_entries 1 in
          record e { md = record e.md { status = 0x4300; ext_status = 0x4000 } })
      else soft.trans_entries i;
  pending_transmits = 2;
  next_to_send = 2;
}

-- A chip that reports a memory error when the register address was just read, as `lnc_intr` does first,
-- and that its initialization is done otherwise.
abbrev failed : List Event → ℕ
failed [] = 0x0100
failed (a ∷ []) = 0x0100
failed (a ∷ read32 port v ∷ tr) = if port == 20 then 0x8880 else 0x0100
failed (a ∷ b ∷ tr) = 0x0100

abbrev failing : Env
failing = record quiet { port16 = λ tr a. failed tr; port32 = λ tr a. failed tr }

started-calm : (s : PcNet) → has (read_csr failing csr (start_chip failing s)).0 csr_intr ≡ false
unfolding read_csr start_chip pcnet32_start
started-calm s = ground arith

failing-calm : has (read_csr failing csr (recovered failing 32 (driver soft))).0 csr_intr ≡ false
unfolding lnc_reset lnc_init
failing-calm = started-calm _

handle_interrupt-recovers_example :
    (t : PcNet) × (handle_interrupt failing 34 (driver soft) ≡ some t)
    × IsReady t.sc
    × Noted (causes failing 32 (driver soft)) (driver soft).counters t.counters
unfolding read_csr read_rap
handle_interrupt-recovers_example =
    handle_interrupt-recovers failing 32 (driver soft) refl soft-IsAllocated refl refl refl
      failing-calm
