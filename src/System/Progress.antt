-- ===== src/System/Progress.antt =====
-- The rings never stop for good: a full transmit ring can be emptied, and frames that wait are handed on.
use maxxuss_amdpcnet_v.Base.{
  ℕ, ◌+◌, ◌%◌, ◌<◌, ◌≡◌, refl, arith, ap, sym, ◌∙◌, Bool, some, true, false, List, [], ◌∷◌, ◌++◌,
  has, bit_or, dec_lt,
}
use maxxuss_amdpcnet_v.World.{Env, allocate_packet, Event}
use maxxuss_amdpcnet_v.Hw.{Mds}
use maxxuss_amdpcnet_v.Hw.Descriptors.{tmd_own, tmd_stp, tmd_enp}
use maxxuss_amdpcnet_v.State.{PcNet}
use maxxuss_amdpcnet_v.Init.Rings.{IsAllocated}
use maxxuss_amdpcnet_v.Tx.{Mbuf, lnc_output_packet, output_success, trans_status}
use maxxuss_amdpcnet_v.Tx.Ring.{TxValid, slot}
use maxxuss_amdpcnet_v.Tx.Output.{accepted}
use maxxuss_amdpcnet_v.Tx.Drain.{reclaimable, lnc_tint-Drained}
use maxxuss_amdpcnet_v.Rx.Ring.{inputs}
use maxxuss_amdpcnet_v.Rx.Waiting.{waiting, waiting_none}
use maxxuss_amdpcnet_v.Rx.{lnc_rint}
use maxxuss_amdpcnet_v.Rx.Drain.{lnc_rint-Emptied}
use maxxuss_amdpcnet_v.System.{
  System, Step, transmitted, reclaimed, delivered, IsSent, sent_frame, with_trans_md,
}
use maxxuss_amdpcnet_v.System.Network.{
  Label, reclaim, send, deliver, OnlySends, nothing, sending, reclaiming,
}
use maxxuss_amdpcnet_v.System.Send.{SendInv}
use maxxuss_amdpcnet_v.System.Sent.{transmit-SendInv}
use maxxuss_amdpcnet_v.System.Steps.{trans_base}
use maxxuss_amdpcnet_v.System.Run.{
  Run, start, later, started, buffers_of, started-Refines, Run-NetRun, inbox_of,
}

-- The oldest packet is sent: `lnc_tint` makes room.
module _ (env : Env) (base d : ℕ) (x : System) (i : SendInv base x.driver x.send_at d) where
  reclaim_one :
      0 < d
      → (t : PcNet) × Step env x (record x { driver = t }) reclaim
        × (t.sc.pending_transmits < 32)
        × TxValid t.sc
  unfolding reclaimable
  reclaim_one one =
      let s = x.driver in
      let pending : 0 < s.sc.pending_transmits = omega (arith, i.some_sent) in
      let head : slot s.sc 0 ≡ s.sc.trans_next = omega (arith, i.tx.next_in) in
      let sent : has (trans_status s s.sc.trans_next) tmd_own ≡ false =
        ap (λ j. has ((s.sc.trans_entries j).md.status) tmd_own) (sym head) ∙ i.done 0 one in
      let (t, run, drained, only) = lnc_tint-Drained env 32 s (omega arith) i.tx pending i.fine in
      (
        t,
        reclaimed 32 true t (omega arith) pending sent run refl,
        omega (arith, drained.fewer, i.tx.pending_in),
        drained.valid,
      )

-- The chip sends the oldest packet.
module _ (env : Env) (base : ℕ) (x : System) (i : SendInv base x.driver x.send_at 0)
    (pending : 0 < x.driver.sc.pending_transmits) where
  abbrev sent_md : Mds
  sent_md = record ((x.driver.sc.trans_entries x.send_at).md) {
    ext_status = 0;
    status = bit_or tmd_stp tmd_enp;
  }

  abbrev after_send : System
  after_send = record x {
    driver = with_trans_md x.send_at sent_md x.driver;
    send_at = (x.send_at + 1) % 32;
  }

  head_at : slot x.driver.sc 0 ≡ x.send_at
  head_at = sym i.at

  own_lem : has (trans_status x.driver x.send_at) tmd_own ≡ true
  own_lem =
      ap (λ j. has ((x.driver.sc.trans_entries j).md.status) tmd_own) (sym head_at)
      ∙ i.owned 0 (omega arith) pending

  sent_lem : IsSent ((x.driver.sc.trans_entries x.send_at).md) sent_md
  sent_lem = record {
    freed = refl;
    starts = sym (
        ap (λ j. has ((x.driver.sc.trans_entries j).md.status) tmd_stp) (sym head_at)
        ∙ i.tx.starts 0 pending);
    ends = sym (
        ap (λ j. has ((x.driver.sc.trans_entries j).md.status) tmd_enp) (sym head_at)
        ∙ i.tx.ends 0 pending);
    fine = refl;
  }

  send_one :
      Step env x after_send (send (sent_frame x.driver.mem (x.driver.sc.trans_entries x.send_at)))
      × SendInv base after_send.driver after_send.send_at 1
  send_one = (
    transmitted sent_md own_lem sent_lem refl refl,
    transmit-SendInv base x.send_at 0 x.driver sent_md i own_lem sent_lem refl,
  )

-- From each state that a run from the state that `lnc_init` leaves can reach, with the memory allocated
-- and while packet buffers can be had, a packet is accepted at once or after a run of which every step
-- is one of the chip that sends or a call of `lnc_tint`.
pub Run-accepts :
    (env : Env) (s : PcNet) (ls : List Label) (x : System) (pkt : Mbuf)
    → ((tr : List Event) (n : ℕ) → env.answer tr (allocate_packet n) ≡ true)
    → IsAllocated s.sc
    → Run env (started env s) ls x
    → (more : List Label) × (y : System) × Run env x more y
      × OnlySends more
      × ((lnc_output_packet pkt y.driver).0 ≡ output_success)
Run-accepts env s ls x pkt allocates ok run =
    let x0 = started env s in
    let base = buffers_of x0 in
    let (b, net, r) = Run-NetRun env base _ x0 _ allocates (started-Refines env s ok) run in
    let tx = trans_base base in
    elim (dec_lt x.driver.sc.pending_transmits 32) [
      | yes room ↦ ([], x, start, nothing, (accepted pkt x.driver r.send.tx room).0)
      | no full ↦ elim (dec_lt 0 r.finished) [
        | yes one ↦
            let (t, step, room, valid) = reclaim_one env tx r.finished x r.send one in
            (
              reclaim ∷ [],
              record x { driver = t },
              later start step,
              reclaiming nothing,
              (accepted pkt t valid room).0,
            )
        | no none_sent ↦
            let zero_sent : r.finished ≡ 0 = omega arith in
            let i : SendInv tx x.driver x.send_at 0 = rw zero_sent at r.send in
            let (sends_it, j) = send_one env tx x i (omega arith) in
            let z = after_send env tx x i (omega arith) in
            let (t, step, room, valid) = reclaim_one env tx 1 z j (omega arith) in
            (
              reclaim ∷ send _ ∷ [],
              record z { driver = t },
              later (later start sends_it) step,
              reclaiming (sending _ nothing),
              (accepted pkt t valid room).0,
            )
      ]
    ]

-- From each state that a run from the state that `lnc_init` leaves can reach, with the memory allocated
-- and while packet buffers can be had, `lnc_rint` returns with 34 units of fuel. It has handed on, in
-- order, the frames that waited, less those with an error and those from the station itself; after it
-- the descriptor at `recv_next` starts no frame, so that none waits; and the call is a step of the system.
pub Run-delivers :
    (env : Env) (s : PcNet) (ls : List Label) (x : System)
    → ((tr : List Event) (n : ℕ) → env.answer tr (allocate_packet n) ≡ true)
    → IsAllocated s.sc
    → Run env (started env s) ls x
    → (r : Bool × PcNet) × (lnc_rint env 34 false x.driver ≡ some (r.0, r.1))
      × (inputs r.1.trace ≡ inputs x.driver.trace ++ inbox_of x.driver)
      × (waiting r.1.sc 32 0 ≡ 0)
      × Step env x (record x { driver = r.1 }) deliver
Run-delivers env s ls x allocates ok run =
    let x0 = started env s in
    let (b, net, r) =
      Run-NetRun env (buffers_of x0) _ x0 _ allocates (started-Refines env s ok) run in
    let (res, e, d) = lnc_rint-Emptied env 32 false x.driver (omega arith) allocates r.recv.rx in
    (
      res,
      e,
      d.handed,
      waiting_none res.1.sc 31 d.emptied,
      delivered 32 false res.0 res.1 (omega arith) e refl,
    )
