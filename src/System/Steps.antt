-- ===== src/System/Steps.antt =====
-- Each step of the driver and the chip as a step of the network of `System.Network`.
use mathlib.Core.List.{flatten}
use maxxuss_amdpcnet_v.Base.{
  ℕ, suc, ◌+◌, ◌*◌, ◌%◌, ◌<◌, ◌≤◌, ◌≡◌, refl, arith, ap, ap₂, sym, ◌∙◌, Bool, true, false, has,
  List, [], ◌∷◌, ◌++◌, inl, inr, some, length, dec_lt, length-append,
}
use maxxuss_amdpcnet_v.World.{Env, allocate_packet, Event}
use maxxuss_amdpcnet_v.Hw.{Mds}
use maxxuss_amdpcnet_v.Hw.Descriptors.{tmd_own, rmd_own}
use maxxuss_amdpcnet_v.Softc.{lnc_recvbufsize}
use maxxuss_amdpcnet_v.State.{PcNet}
use maxxuss_amdpcnet_v.Tx.{
  Mbuf, lnc_output_packet, lnc_tint, output_success, output_stall, bcopy, trans_status,
}
use maxxuss_amdpcnet_v.Tx.Output.{Fits, accepted, lnc_output_packet_full, bcopy_outside}
use maxxuss_amdpcnet_v.Tx.Frame.{lnc_output_packet-quiet}
use maxxuss_amdpcnet_v.Rx.{lnc_rint, recv_status}
use maxxuss_amdpcnet_v.Rx.Ring.{inputs}
use maxxuss_amdpcnet_v.Rx.Waiting.{due}
use maxxuss_amdpcnet_v.System.{System, sent_frame, IsSent, IsReceived, with_trans_md, with_recv_md}
use maxxuss_amdpcnet_v.System.Network.{Label, Network, NetStep, NetRun, kept}
use maxxuss_amdpcnet_v.System.Network
use maxxuss_amdpcnet_v.System.Send.{
  SendInv, SameSend, SendInv-SameSend, unsent, unsent-SameSend, submit-SendInv, submit-unsent,
  mem_after, stalled,
}
use maxxuss_amdpcnet_v.System.Sent.{
  transmit-SendInv, transmit-unsent, reclaim-SendInv, reclaim-unsent, reclaim-TxOnly,
}
use maxxuss_amdpcnet_v.System.Receive.{
  RecvInv, SameRecv, RecvInv-SameRecv, undelivered, undelivered-SameRecv, station,
}
use maxxuss_amdpcnet_v.System.Deliver.{
  receive-RecvInv, receive-undelivered, deliver-Emptied, deliver-RecvInv,
}

-- The receive buffers start at `base` and the transmit buffers behind them.
abbrev pub trans_base : ℕ → ℕ
trans_base base = base + 32 * lnc_recvbufsize

-- The network `a` is what the system `x` stands for.
pub record Refines (base : ℕ) (addr : ℕ → ℕ) (x : System) (a : Network) : Type 0 where
  pub finished : ℕ
  pub waits : ℕ
  pub send : SendInv (trans_base base) x.driver x.send_at finished
  pub recv : RecvInv base x.driver x.receive_at waits
  pub address : station x.driver ≡ addr
  pub outbox : a.outbox ≡ unsent x.driver finished
  pub inbox : a.inbox ≡ undelivered x.driver waits
  pub handed : a.handed ≡ inputs x.driver.trace

abbrev pub Simulated : ℕ → (ℕ → ℕ) → Network → System → Label → Type 0
Simulated base addr a y l = (b : Network) × NetStep addr a b l × Refines base addr y b

module _ (base : ℕ) (addr : ℕ → ℕ) (x : System) (a : Network) (r : Refines base addr x a) where
  pub submit_step :
      (pkt : Mbuf)
      → Fits pkt
      → 0 < pkt.pkthdr_len
      → (lnc_output_packet pkt x.driver).0 ≡ output_success
      → Simulated base addr a
          (record x { driver = (lnc_output_packet pkt x.driver).1 })
          (Network.submit (flatten pkt.chain))
  submit_step pkt fits some_bytes ok =
      let s = x.driver in
      let t = (lnc_output_packet pkt s).1 in
      let tx = trans_base base in
      let quiet = lnc_output_packet-quiet pkt s in
      let at = r.send.bufs s.sc.next_to_send (omega (arith, r.send.tx.order)) in
      let same : SameRecv base s t = record {
        nrdre = ap (λ c. c.nrdre) quiet.0;
        recv_entries = ap (λ c. c.recv_entries) quiet.0;
        recv_next = ap (λ c. c.recv_next) quiet.0;
        address = ap (λ c. c.init_block.phys_addr) quiet.0;
        mem = λ p h l.
            ap (λ m. m p) (mem_after tx x.send_at r.finished s pkt r.send fits some_bytes ok)
            ∙ bcopy_outside (flatten pkt.chain) _ s.mem p (inl (omega (arith, at)));
      } in
      (
        record a { outbox = a.outbox ++ (flatten pkt.chain ∷ []) },
        Network.submitted (flatten pkt.chain) refl,
        record {
          finished = r.finished;
          waits = r.waits;
          send = submit-SendInv tx x.send_at r.finished s pkt r.send fits some_bytes ok;
          recv = RecvInv-SameRecv base x.receive_at r.waits s t same r.recv;
          address = same.address ∙ r.address;
          outbox =
              ap (λ l. l ++ (flatten pkt.chain ∷ [])) r.outbox
              ∙ sym (submit-unsent tx x.send_at r.finished s pkt r.send fits some_bytes ok);
          inbox = r.inbox ∙ sym (undelivered-SameRecv base x.receive_at r.waits s t same r.recv);
          handed = r.handed ∙ sym quiet.1;
        },
      )

  pub refuse_step :
      (pkt : Mbuf)
      → (lnc_output_packet pkt x.driver).0 ≡ output_stall
      → Simulated base addr a
          (record x { driver = (lnc_output_packet pkt x.driver).1 })
          Network.refuse
  refuse_step pkt full_ring =
      let s = x.driver in
      let v = r.send.tx in
      elim (dec_lt s.sc.pending_transmits 32) [
        | yes p ↦ absurd (stalled (sym full_ring ∙ (accepted pkt s v p).0))
        | no p ↦
            let full = lnc_output_packet_full pkt s v (omega (arith, v.pending_in)) in
            (a, Network.refused refl, rw full r)
      ]

  pub transmit_step :
      (m : Mds)
      → has (trans_status x.driver x.send_at) tmd_own ≡ true
      → IsSent ((x.driver.sc.trans_entries x.send_at).md) m
      → m.msg_size ≡ (x.driver.sc.trans_entries x.send_at).md.msg_size
      → Simulated base addr a
          (record x { driver = with_trans_md x.send_at m x.driver; send_at = (x.send_at + 1) % 32 })
          (Network.send (sent_frame x.driver.mem (x.driver.sc.trans_entries x.send_at)))
  transmit_step m own sent size =
      let s = x.driver in
      let tx = trans_base base in
      let t = with_trans_md x.send_at m s in
      let same : SameRecv base s t = record {
        nrdre = refl;
        recv_entries = refl;
        recv_next = refl;
        address = refl;
        mem = λ p h l. refl;
      } in
      let p = sent_frame s.mem (s.sc.trans_entries x.send_at) in
      let order = transmit-unsent tx x.send_at r.finished s m r.send own sent size in
      let b : Network = record a { outbox = unsent t (suc r.finished) } in
      (
        b,
        Network.sent p (ap (λ l. record a { outbox = l }) (r.outbox ∙ order)),
        record {
          finished = suc r.finished;
          waits = r.waits;
          send = transmit-SendInv tx x.send_at r.finished s m r.send own sent size;
          recv = RecvInv-SameRecv base x.receive_at r.waits s t same r.recv;
          address = r.address;
          outbox = refl;
          inbox = r.inbox ∙ sym (undelivered-SameRecv base x.receive_at r.waits s t same r.recv);
          handed = r.handed;
        },
      )

  pub receive_step :
      (failed : Bool) (m : Mds) (payload fcs : List ℕ)
      → has (recv_status x.driver x.receive_at) rmd_own ≡ true
      → IsReceived failed m payload fcs
      → Simulated base addr a
          (record x {
            driver = record (with_recv_md x.receive_at m x.driver) {
              mem =
                  bcopy
                    (payload ++ fcs)
                    (x.driver.sc.recv_entries x.receive_at).buf_addr
                    x.driver.mem;
            };
            receive_at = (x.receive_at + 1) % 32;
          })
          (Network.receive failed payload)
  receive_step failed m payload fcs own got =
      let s = x.driver in
      let t = record (with_recv_md x.receive_at m s) {
        mem = bcopy (payload ++ fcs) (s.sc.recv_entries x.receive_at).buf_addr s.mem;
      } in
      let at = r.recv.bufs x.receive_at (omega (arith, r.recv.behind)) in
      let small : length (payload ++ fcs) ≤ lnc_recvbufsize =
        omega (arith, length-append payload fcs, got.checksum, got.fits) in
      let tx = trans_base base in
      let same : SameSend tx s t = record {
        ntdre = refl;
        trans_entries = refl;
        trans_next = refl;
        pending = refl;
        next_to_send = refl;
        mem = λ p h l.
            bcopy_outside (payload ++ fcs) _ s.mem p
              (inr (omega (arith, at, small, r.recv.behind)));
      } in
      (
        record a { inbox = a.inbox ++ kept addr failed payload },
        Network.received failed payload refl,
        record {
          finished = r.finished;
          waits = suc r.waits;
          send = SendInv-SameSend tx x.send_at r.finished s t same r.send;
          recv = receive-RecvInv base x.receive_at r.waits s failed m payload fcs r.recv own got;
          address = r.address;
          outbox = r.outbox ∙ sym (unsent-SameSend tx x.send_at r.finished s t same r.send);
          inbox =
              ap₂ (λ l ad. l ++ kept ad failed payload) r.inbox (sym r.address)
              ∙ sym (
                  receive-undelivered base x.receive_at r.waits s failed m payload fcs r.recv own
                    got);
          handed = r.handed;
        },
      )

module _ (env : Env) (base : ℕ) (addr : ℕ → ℕ) (x : System) (a : Network)
    (r : Refines base addr x a) (f : ℕ) (enough : 32 ≤ f) where
  pub reclaim_step :
      (b : Bool) (t : PcNet)
      → 0 < x.driver.sc.pending_transmits
      → has (trans_status x.driver x.driver.sc.trans_next) tmd_own ≡ false
      → lnc_tint env (suc f) x.driver ≡ some (b, t)
      → Simulated base addr a (record x { driver = t }) Network.reclaim
  reclaim_step b t pending sent e =
      let s = x.driver in
      let tx = trans_base base in
      let only = reclaim-TxOnly env tx x.send_at r.finished f s r.send enough pending sent b t e in
      let same : SameRecv base s t = record {
        nrdre = ap {A = PcNet} (λ u. u.sc.nrdre) only.state;
        recv_entries = ap {A = PcNet} (λ u. u.sc.recv_entries) only.state;
        recv_next = ap {A = PcNet} (λ u. u.sc.recv_next) only.state;
        address = ap {A = PcNet} (λ u. u.sc.init_block.phys_addr) only.state;
        mem = λ p h l. ap {A = PcNet} (λ u. u.mem p) only.state;
      } in
      (
        a,
        Network.reclaimed refl,
        record {
          finished = 0;
          waits = r.waits;
          send = reclaim-SendInv env tx x.send_at r.finished f s r.send enough pending sent b t e;
          recv = RecvInv-SameRecv base x.receive_at r.waits s t same r.recv;
          address = same.address ∙ r.address;
          outbox =
              r.outbox
              ∙ sym
                  (reclaim-unsent env tx x.send_at r.finished f s r.send enough pending sent b t e);
          inbox = r.inbox ∙ sym (undelivered-SameRecv base x.receive_at r.waits s t same r.recv);
          handed = r.handed ∙ sym only.quiet;
        },
      )

  pub deliver_step :
      ((tr : List Event) (n : ℕ) → env.answer tr (allocate_packet n) ≡ true)
      → (queued b : Bool) (t : PcNet) → lnc_rint env (suc (suc f)) queued x.driver ≡ some (b, t)
      → Simulated base addr a (record x { driver = t }) Network.deliver
  unfolding due
  deliver_step allocates queued b t e =
      let s = x.driver in
      let tx = trans_base base in
      let d =
        deliver-Emptied env base x.receive_at r.waits f queued s r.recv enough allocates b t e in
      let same : SameSend tx s t = record {
        ntdre = ap (λ c. c.ntdre) d.soft;
        trans_entries = ap (λ c. c.trans_entries) d.soft;
        trans_next = ap (λ c. c.trans_next) d.soft;
        pending = ap (λ c. c.pending_transmits) d.soft;
        next_to_send = ap (λ c. c.next_to_send) d.soft;
        mem = λ p h l. ap (λ m. m p) d.same_mem;
      } in
      (
        record a { inbox = []; handed = a.handed ++ a.inbox },
        Network.delivered refl,
        record {
          finished = r.finished;
          waits = 0;
          send = SendInv-SameSend tx x.send_at r.finished s t same r.send;
          recv =
              deliver-RecvInv env base x.receive_at r.waits f queued s r.recv enough allocates b t
                e;
          address = ap (λ c. c.init_block.phys_addr) d.soft ∙ r.address;
          outbox = r.outbox ∙ sym (unsent-SameSend tx x.send_at r.finished s t same r.send);
          inbox = refl;
          handed = ap₂ ◌++◌ r.handed r.inbox ∙ sym d.handed;
        },
      )
