-- ===== src/System/Run.antt =====
-- Runs of the driver and the chip from the state that `lnc_init` leaves.
use maxxuss_amdpcnet_v.Base.{
  ℕ, ◌+◌, ◌%◌, ◌≡◌, refl, arith, ap, ap₂, sym, ◌∙◌, true, List, [], ◌∷◌, ◌++◌,
}
use maxxuss_amdpcnet_v.World.{Env, allocate_packet, Event}
use maxxuss_amdpcnet_v.State.{PcNet}
use maxxuss_amdpcnet_v.Init.{lnc_init}
use maxxuss_amdpcnet_v.Init.Rings.{IsAllocated}
use maxxuss_amdpcnet_v.Init.Ready.{lnc_init-IsReady}
use maxxuss_amdpcnet_v.Rx.Ring.{inputs}
use maxxuss_amdpcnet_v.Rx.Waiting.{due, waiting}
use maxxuss_amdpcnet_v.Tx.Drain.{finished}
use maxxuss_amdpcnet_v.System.{System, Step}
use maxxuss_amdpcnet_v.System.Network
use maxxuss_amdpcnet_v.System.Network.{
  Label, Network, NetRun, NetRun-order, quiet_network, submits, sends, arrivals,
}
use maxxuss_amdpcnet_v.System.Frames.{frames}
use maxxuss_amdpcnet_v.System.Send.{unsent, SendInv-finished}
use maxxuss_amdpcnet_v.System.Receive.{undelivered, station}
use maxxuss_amdpcnet_v.System.Deliver.{RecvInv-waiting}
use maxxuss_amdpcnet_v.System.Steps.{Refines, trans_base}
use maxxuss_amdpcnet_v.System.Refine.{Step-NetStep}

-- A sequence of steps, by its labels, the last one first.
pub data Run (env : Env) (x : System) : List Label → System → Type 0 where
  start : Run env x [] x
  later :
      {ls : List Label} {l : Label} {y z : System}
      → Run env x ls y
      → Step env y z l
      → Run env x (l ∷ ls) z

-- The driver after `lnc_init`, and the chip at the first descriptors, as the initialization leaves it.
abbrev pub started : Env → PcNet → System
started env s = record { driver = lnc_init env s; send_at = 0; receive_at = 0 }

-- Where the receive buffers start.
abbrev pub buffers_of : System → ℕ
buffers_of x = x.driver.sc.recv_ring + 1568

module _ (env : Env) (s : PcNet) (ok : IsAllocated s.sc) where
  abbrev x0 : System
  x0 = started env s

  pub started-Refines :
      Refines (buffers_of x0) (station x0.driver) x0 (quiet_network (inputs x0.driver.trace))
  unfolding frames due
  started-Refines =
      let r = lnc_init-IsReady env s ok in
      let sc = x0.driver.sc in
      record {
        finished = 0;
        waits = 0;
        send = record {
          tx = r.tx;
          some_sent = omega arith;
          at = omega (arith, r.trans_start);
          done = λ k h. absurd (omega arith);
          owned = λ k h l. absurd (omega (arith, r.idle));
          fine = λ k h. absurd (omega (arith, r.idle));
          sized = λ k h. absurd (omega (arith, r.idle));
          bufs = λ j h. r.trans_bufs j h ∙ omega arith;
        };
        recv = record {
          rx = r.rx;
          most = omega arith;
          behind = omega (arith, r.recv_start);
          filled = λ k h. absurd (omega arith);
          freed = λ k h. absurd (omega arith);
          empty = λ k h l. rw (r.chip_owns ((sc.recv_next + k) % 32) (omega arith)) refl;
          bufs = r.recv_bufs;
        };
        address = refl;
        outbox = rw (r.idle) refl;
        inbox = refl;
        handed = refl;
      }

module _ (env : Env) (base : ℕ) (addr : ℕ → ℕ) (x : System) (a : Network)
    (allocates : (tr : List Event) (n : ℕ) → env.answer tr (allocate_packet n) ≡ true)
    (r : Refines base addr x a) where
  pub Run-NetRun :
      {ls : List Label} {y : System}
      → Run env x ls y
      → (b : Network) × NetRun addr a ls b × Refines base addr y b
  Run-NetRun start = (a, Network.start, r)
  Run-NetRun (later {l} {y} {z} run step) =
      let (b, net, i) = Run-NetRun run in
      let (c, next, j) = Step-NetStep env base addr y z b l allocates i step in
      (c, Network.later net next, j)

-- The packets that stand in the transmit ring and are the chip's, oldest first.
abbrev pub outbox_of : PcNet → List (List ℕ)
outbox_of s = unsent s (finished s.sc s.sc.pending_transmits 0)

-- The frames that stand in the receive ring, oldest first, less those that `lnc_rint` drops.
abbrev pub inbox_of : PcNet → List (List ℕ)
inbox_of s = undelivered s (waiting s.sc 32 0)

-- After any run from the state that `lnc_init` leaves, with the memory allocated and while packet
-- buffers can be had, the packets that were accepted are those that the chip has sent, in the same
-- order and with the same bytes, followed by those that it still owns in the transmit ring; and the
-- frames that arrived, less those with an error and those from the station itself, are those handed
-- to the stack, in the same order, followed by those that still wait in the receive ring.
pub Run-order :
    (env : Env) (s : PcNet) (ls : List Label) (y : System)
    → ((tr : List Event) (n : ℕ) → env.answer tr (allocate_packet n) ≡ true)
    → IsAllocated s.sc
    → Run env (started env s) ls y
    → let x = (started env s).driver in
      (submits ls ≡ sends ls ++ outbox_of y.driver)
      × (inputs x.trace ++ arrivals (station x) ls ≡ inputs y.driver.trace ++ inbox_of y.driver)
Run-order env s ls y allocates ok run =
    let x0 = started env s in
    let base = buffers_of x0 in
    let (b, net, r) =
      Run-NetRun env base (station x0.driver) x0 _ allocates (started-Refines env s ok) run in
    let order = NetRun-order net in
    let d = SendInv-finished (trans_base base) y.send_at r.finished y.driver r.send in
    let w = RecvInv-waiting base y.receive_at r.waits y.driver r.recv in
    (
      order.0 ∙ ap (λ l. sends ls ++ l) (r.outbox ∙ ap (unsent y.driver) (sym d)),
      order.1 ∙ ap₂ ◌++◌ r.handed (r.inbox ∙ ap (undelivered y.driver) (sym w)),
    )
