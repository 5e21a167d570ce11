-- ===== src/Examples/Runs.antt =====
-- A short run of the driver and the chip: a frame arrives, a packet is accepted, and the frame is handed
-- on.
use mathlib.Core.List.{flatten}
use maxxuss_amdpcnet_v.Base.{
  ◌+◌, ◌%◌, ◌≡◌, refl, arith, Bool, some, true, false, List, [], ◌∷◌, ◌++◌, has, ℕ,
}
use maxxuss_amdpcnet_v.Hw.{Mds}
use maxxuss_amdpcnet_v.Hw.Descriptors.{rmd_own, rmd_stp, rmd_enp}
use maxxuss_amdpcnet_v.Init.Ready.{lnc_init-IsReady}
use maxxuss_amdpcnet_v.Tx.{lnc_output_packet, output_success, bcopy}
use maxxuss_amdpcnet_v.Tx.Output.{accepted}
use maxxuss_amdpcnet_v.Rx.{lnc_rint, recv_status}
use maxxuss_amdpcnet_v.Rx.Ring.{inputs}
use maxxuss_amdpcnet_v.Rx.Waiting.{waiting}
use maxxuss_amdpcnet_v.State.{PcNet}
use maxxuss_amdpcnet_v.System.{System, Step, IsReceived, received, submitted, with_recv_md}
use maxxuss_amdpcnet_v.System.Network.{
  Network, NetStep, Label, submit, receive, deliver, submits, sends, arrivals, quiet_network,
  OnlySends,
}
use maxxuss_amdpcnet_v.System.Receive.{station}
use maxxuss_amdpcnet_v.System.Steps.{Refines}
use maxxuss_amdpcnet_v.System.Refine.{Step-NetStep}
use maxxuss_amdpcnet_v.System.Run.{
  Run, start, later, started, Run-order, Run-NetRun, started-Refines, buffers_of, outbox_of,
  inbox_of,
}
use maxxuss_amdpcnet_v.System.Progress.{Run-accepts, Run-delivers}
use maxxuss_amdpcnet_v.Examples.{quiet, soft, driver, soft-IsAllocated, packet, packet-Fits}

abbrev hello : List ℕ
hello = 255 ∷ 255 ∷ 255 ∷ 255 ∷ 255 ∷ 255 ∷ 2 ∷ 0 ∷ 0 ∷ 0 ∷ 0 ∷ 9 ∷ 8 ∷ 0 ∷ 104 ∷ 105 ∷ []

abbrev fcs : List ℕ
fcs = 1 ∷ 2 ∷ 3 ∷ 4 ∷ []

abbrev x0 : System
x0 = started quiet (driver soft)

abbrev hello_md : Mds
hello_md = record ((x0.driver.sc.recv_entries 0).md) {
  status = rmd_stp + rmd_enp;
  rx_msg_length = 20;
}

abbrev x1 : System
x1 = record x0 {
  driver = record (with_recv_md 0 hello_md x0.driver) {
    mem = bcopy (hello ++ fcs) (x0.driver.sc.recv_entries 0).buf_addr x0.driver.mem;
  };
  receive_at = (0 + 1) % 32;
}

arrived : Step quiet x0 x1 (receive false hello)
arrived =
    let ready = lnc_init-IsReady quiet (driver soft) soft-IsAllocated in
    let own : has (recv_status x0.driver 0) rmd_own ≡ true =
      rw (ready.chip_owns 0 (omega arith)) refl in
    let got : IsReceived false hello_md hello fcs = record {
      freed = refl;
      starts = refl;
      ends = refl;
      error = refl;
      checksum = refl;
      header = omega arith;
      counted = refl;
      fits = omega arith;
    } in
    received false hello_md hello fcs own got refl

abbrev x2 : System
x2 = record x1 { driver = (lnc_output_packet packet x1.driver).1 }

given : Step quiet x1 x2 (submit (flatten packet.chain))
given =
    let (b, net, r) =
      Run-NetRun quiet (buffers_of x0) _ x0 _ (λ tr n. refl)
        (started-Refines quiet (driver soft) soft-IsAllocated) (later start arrived) in
    let ready = lnc_init-IsReady quiet (driver soft) soft-IsAllocated in
    let ok = (accepted packet x1.driver r.send.tx (omega (arith, ready.idle))).0 in
    submitted packet packet-Fits (omega arith) ok refl

run2 : Run quiet x0 (submit (flatten packet.chain) ∷ receive false hello ∷ []) x2
run2 = later (later start arrived) given

Step-NetStep_example :
    (b : Network) × NetStep
      (station x0.driver)
      (quiet_network (inputs x0.driver.trace))
      b
      (receive false hello)
    × Refines (buffers_of x0) (station x0.driver) x1 b
Step-NetStep_example =
    Step-NetStep quiet (buffers_of x0) (station x0.driver) x0 x1
      (quiet_network (inputs x0.driver.trace)) (receive false hello) (λ tr n. refl)
      (started-Refines quiet (driver soft) soft-IsAllocated) arrived

Run-order_example :
    let ls = submit (flatten packet.chain) ∷ receive false hello ∷ [] in
    (submits ls ≡ sends ls ++ outbox_of x2.driver)
    × (inputs x0.driver.trace ++ arrivals (station x0.driver) ls
        ≡ inputs x2.driver.trace ++ inbox_of x2.driver)
Run-order_example =
    Run-order quiet (driver soft) (submit (flatten packet.chain) ∷ receive false hello ∷ []) x2
      (λ tr n. refl) soft-IsAllocated run2

Run-accepts_example :
    (more : List Label) × (y : System) × Run quiet x2 more y
    × OnlySends more
    × ((lnc_output_packet packet y.driver).0 ≡ output_success)
Run-accepts_example =
    Run-accepts quiet (driver soft) (submit (flatten packet.chain) ∷ receive false hello ∷ []) x2
      packet (λ tr n. refl) soft-IsAllocated run2

Run-delivers_example :
    (r : Bool × PcNet) × (lnc_rint quiet 34 false x2.driver ≡ some (r.0, r.1))
    × (inputs r.1.trace ≡ inputs x2.driver.trace ++ inbox_of x2.driver)
    × (waiting r.1.sc 32 0 ≡ 0)
    × Step quiet x2 (record x2 { driver = r.1 }) deliver
Run-delivers_example =
    Run-delivers quiet (driver soft) (submit (flatten packet.chain) ∷ receive false hello ∷ []) x2
      (λ tr n. refl) soft-IsAllocated run2
