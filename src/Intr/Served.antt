-- ===== src/Intr/Served.antt =====
-- An interrupt for received and sent packets, from the flag of the driver to the last register write.
use maxxuss_amdpcnet_v.Base.{
  ℕ, zero, suc, ◌+◌, ◌-◌, ◌<◌, ◌≤◌, ◌≡◌, refl, arith, ap, ◌∙◌, Bool, true, false, List, ◌++◌, has,
  some, if◌then◌else◌, u16,
}
use maxxuss_amdpcnet_v.World.{Env, Event, allocate_packet, flush_input_queue, service_queue}
use maxxuss_amdpcnet_v.Hw.Registers.{csr, csr_err, csr_rint, csr_tint, csr_intr}
use maxxuss_amdpcnet_v.Softc.{LncSoftc}
use maxxuss_amdpcnet_v.State.{PcNet, act}
use maxxuss_amdpcnet_v.Port.{read_csr, write_csr, csr_read32, csr_read16, csr_write32, csr_write16}
use maxxuss_amdpcnet_v.Rx.Ring.{RxValid, inputs}
use maxxuss_amdpcnet_v.Rx.Waiting.{due, waiting, starts_at}
use maxxuss_amdpcnet_v.Rx.Drain.{lnc_rint-Emptied}
use maxxuss_amdpcnet_v.Tx.Ring.{TxValid, slot, slot_status}
use maxxuss_amdpcnet_v.Tx.Reclaim.{NoUnderflow}
use maxxuss_amdpcnet_v.Tx.Drain.{Drained, reclaimable, finished, lnc_tint-Drained}
use maxxuss_amdpcnet_v.Tx.Frame.{TxOnly}
use maxxuss_amdpcnet_v.Intr.{
  serve_rings, intr_round, intr_loop, read_rap, write_rap, lnc_intr, handle_interrupt,
}

-- Both rings are served: `t` is the state after `s`.
pub record IsServed (s t : PcNet) : Type 0 where
  pub handed : inputs t.trace ≡ inputs s.trace ++ due s.mem s.sc (waiting s.sc 32 0) 0
  pub emptied : starts_at t.sc 0 ≡ false
  pub valid : RxValid t.sc
  pub drained : Drained s.sc t.sc (reclaimable s.sc)

-- The transmit ring does not depend on the receive ring.
module _ (a b : LncSoftc)
    (e : b ≡ record a { recv_entries = b.recv_entries; recv_next = b.recv_next }) where
  same_queue : TxValid a → TxValid b
  same_queue v = rw e (record {
    size = v.size;
    next_in = v.next_in;
    pending_in = v.pending_in;
    order = v.order;
    starts = v.starts;
    ends = v.ends;
    free = v.free;
  })

  same_finished : (n k : ℕ) → finished b n k ≡ finished a n k
  unfolding finished
  same_finished zero k = refl
  same_finished (suc n) k =
      let here : slot_status b k ≡ slot_status a k = ap {A = LncSoftc} (λ c. slot_status c k) e in
      rw (here, same_finished n (k + 1)) refl

  same_reclaimable : reclaimable b ≡ reclaimable a
  unfolding reclaimable
  same_reclaimable =
      let n : b.pending_transmits ≡ a.pending_transmits =
        ap {A = LncSoftc} (λ c. c.pending_transmits) e in
      ap (λ k. suc (finished b (k - 1) 1)) n ∙ ap suc (same_finished (a.pending_transmits - 1) 1)

  same_drained : (t : LncSoftc) (n : ℕ) → Drained b t n → Drained a t n
  same_drained t n d =
      let next : b.trans_next ≡ a.trans_next = ap {A = LncSoftc} (λ c. c.trans_next) e in
      let entries : b.trans_entries ≡ a.trans_entries =
        ap {A = LncSoftc} (λ c. c.trans_entries) e in
      record {
        valid = d.valid;
        next = d.next ∙ rw next refl;
        send = d.send ∙ ap {A = LncSoftc} (λ c. c.next_to_send) e;
        fewer = d.fewer ∙ ap {A = LncSoftc} (λ c. c.pending_transmits) e;
        kept = λ k h. d.kept k h ∙ rw (next, entries) refl;
        bufs = λ j. d.bufs j ∙ rw entries refl;
      }

same_frames : (u t : PcNet) → TxOnly u t → RxValid u.sc → RxValid t.sc
same_frames u t q v =
    let entries : t.sc.recv_entries ≡ u.sc.recv_entries =
      ap {A = PcNet} (λ x. x.sc.recv_entries) q.state in
    record {
      size = ap {A = PcNet} (λ x. x.sc.nrdre) q.state ∙ v.size;
      next_in = rw (ap {A = PcNet} (λ x. x.sc.recv_next) q.state) v.next_in;
      single = rw entries v.single;
      long = rw entries v.long;
    }

module _ (env : Env) (f : ℕ) (enough : 32 ≤ f)
    (allocates : (tr : List Event) (n : ℕ) → env.answer tr (allocate_packet n) ≡ true) where
  pub serve_both :
      (csr0 : ℕ) (s : PcNet)
      → has csr0 csr_rint ≡ true
      → has csr0 csr_tint ≡ true
      → RxValid s.sc
      → TxValid s.sc
      → 0 < s.sc.pending_transmits
      → ((k : ℕ) → k < s.sc.pending_transmits → NoUnderflow (s.sc.trans_entries (slot s.sc k)))
      → (q : Bool) × (t : PcNet) × (serve_rings env (suc (suc f)) csr0 false false s
          ≡ some (q, true, t))
        × IsServed s t
  unfolding serve_rings
  serve_both csr0 s rint tint rx tx pending fine =
      let (r, e, d) = lnc_rint-Emptied env f false s enough allocates rx in
      let u = r.1 in
      let soft : u.sc
          ≡ record s.sc { recv_entries = u.sc.recv_entries; recv_next = u.sc.recv_next } =
        d.soft in
      let m =
        lnc_tint-Drained env (suc f) u (omega arith) (same_queue s.sc u.sc soft tx)
          (rw soft pending) (rw soft fine) in
      (
        r.0,
        m.0,
        rw (rint, e) (rw (tint, m.1) refl),
        record {
          handed = m.3.quiet ∙ d.handed;
          emptied = ap {A = PcNet} (λ x. starts_at x.sc 0) m.3.state ∙ d.emptied;
          valid = same_frames u m.0 m.3 d.valid;
          drained =
              rw (← same_reclaimable s.sc u.sc soft) (same_drained s.sc u.sc soft m.0.sc _ m.2);
        },
      )

-- What is read and written around the loop leaves the state as it is.
pub read_rap-lem :
    (env : Env) (s : PcNet)
    → let t = (read_rap env s).1 in
      (t.sc ≡ s.sc) × (t.mem ≡ s.mem) × (inputs t.trace ≡ inputs s.trace)
unfolding read_rap inputs csr_read32 csr_read16
read_rap-lem env s = ground arith

pub write_rap-lem :
    (rap : ℕ) (s : PcNet)
    → let t = write_rap rap s in (t.sc ≡ s.sc) × (t.mem ≡ s.mem) × (inputs t.trace ≡ inputs s.trace)
unfolding write_rap inputs csr_write32 csr_write16
write_rap-lem rap s = ground arith

pub read_csr-lem :
    (env : Env) (s : PcNet)
    → let t = (read_csr env csr s).1 in
      (t.sc ≡ s.sc) × (t.mem ≡ s.mem) × (inputs t.trace ≡ inputs s.trace)
unfolding read_csr inputs
read_csr-lem env s = ground arith

pub write_csr-lem :
    (val : ℕ) (s : PcNet)
    → let t = write_csr csr val s in
      (t.sc ≡ s.sc) × (t.mem ≡ s.mem) × (inputs t.trace ≡ inputs s.trace)
unfolding write_csr inputs
write_csr-lem val s = ground arith

-- The state stays but for the history, which hands on no packet.
abbrev Silent : PcNet → PcNet → Type 0
Silent s t = (t.sc ≡ s.sc) × (t.mem ≡ s.mem) × (inputs t.trace ≡ inputs s.trace)

Silent-trans : (s t u : PcNet) → Silent s t → Silent t u → Silent s u
Silent-trans s t u p q = (q.0 ∙ p.0, q.1 ∙ p.1, q.2 ∙ p.2)

Silent-IsServed : (a s t b : PcNet) → Silent a s → IsServed s t → Silent t b → IsServed a b
Silent-IsServed a s t b p r q = record {
  handed = q.2 ∙ rw (p.0, p.1, p.2) at r.handed;
  emptied = rw (q.0) r.emptied;
  valid = rw (q.0) r.valid;
  drained = rw (q.0, ← p.0) r.drained;
}

pub if_true : {A : Type 0} (b : Bool) (x y : A) → b ≡ true → (if b then x else y) ≡ x
if_true b x y e = rw e refl

module _ (env : Env) (fuel : ℕ) where
  pub loop_stops :
      (rounds : ℕ) (flush service : Bool) (u : PcNet)
      → has (read_csr env csr u).0 csr_intr ≡ false
      → intr_loop env fuel (suc rounds) flush service u
        ≡ some (flush, service, (read_csr env csr u).1)
  unfolding intr_loop
  loop_stops rounds flush service u quiet = ground (arith, quiet)

  pub loop_goes :
      (rounds : ℕ) (s : PcNet) (a b : Bool) (t : PcNet)
      → has (read_csr env csr s).0 csr_intr ≡ true
      → intr_round env fuel (read_csr env csr s).0 false false (read_csr env csr s).1
        ≡ some (a, b, t)
      → intr_loop env fuel (suc rounds) false false s ≡ intr_loop env fuel rounds a b t
  unfolding intr_loop
  loop_goes rounds s a b t intr run = ground (arith, intr, run)

  round_lem :
      (csr0 : ℕ) (s : PcNet)
      → has csr0 csr_err ≡ false
      → intr_round env fuel csr0 false false s
        ≡ serve_rings env fuel csr0 false false (write_csr csr csr0 s)
  unfolding intr_round
  round_lem csr0 s err = rw err refl

module _ (env : Env) (f : ℕ) (s : PcNet) where
  -- The state when the loop starts, and when the rings are served.
  abbrev pub at_loop : PcNet
  at_loop = (read_rap env s).1

  abbrev pub causes : ℕ
  causes = (read_csr env csr at_loop).0

  abbrev pub acknowledged : PcNet
  acknowledged = write_csr csr causes (read_csr env csr at_loop).1

  -- The state after the loop, by whether a frame was queued and the state in which the rings are served.
  at_end : Bool → PcNet → PcNet
  at_end q u =
      let u2 = write_rap (u16 (read_rap env s).0) (read_csr env csr u).1 in
      act service_queue (if q then act flush_input_queue u2 else u2)

  with_acts :
      (u : PcNet) (q : Bool) (t : PcNet)
      → Silent u t
      → Silent u (act service_queue (if q then act flush_input_queue t else t))
  unfolding inputs
  with_acts u true t p = p
  with_acts u false t p = p

  at_end-Silent : (q : Bool) (u : PcNet) → Silent u (at_end q u)
  unfolding at_end
  at_end-Silent q u =
      let u1 = (read_csr env csr u).1 in
      let u2 = write_rap (u16 (read_rap env s).0) u1 in
      let r =
        Silent-trans u u1 u2 (read_csr-lem env u) (write_rap-lem (u16 (read_rap env s).0) u1) in
      with_acts u q u2 r

  ended :
      {q : Bool} {u : PcNet}
      → intr_loop env (suc (suc f)) (suc (suc f)) false false at_loop ≡ some (q, true, u)
      → lnc_intr env (suc (suc f)) false false s
        ≡ some (q, true, write_rap (u16 (read_rap env s).0) u)
  unfolding lnc_intr
  ended loop = rw loop refl

  one_round :
      (q : Bool) (u : PcNet)
      → s.interrupt_enabled ≡ true
      → has causes csr_intr ≡ true
      → has causes csr_err ≡ false
      → serve_rings env (suc (suc f)) causes false false acknowledged ≡ some (q, true, u)
      → has (read_csr env csr u).0 csr_intr ≡ false
      → handle_interrupt env (suc (suc f)) s ≡ some (at_end q u)
  unfolding handle_interrupt at_end
  one_round q u on intr err run quiet =
      let fuel = suc (suc f) in
      let first = round_lem env fuel causes (read_csr env csr at_loop).1 err ∙ run in
      let loop =
        loop_goes env fuel (suc f) at_loop q true u intr first
        ∙ loop_stops env fuel f q true u quiet in
      if_true s.interrupt_enabled _ (some s) on ∙ rw (ended loop) refl

  -- With the interrupts on, while packet buffers can be had, and on rings that are valid with a packet
  -- sent without underflow: if the chip reports received and sent packets, no error, and no
  -- interrupt any more once the rings are served, `handleInterrupt` returns with 34 units of fuel. It
  -- has handed on, in order, the frames that waited, less those with an error and those from the station
  -- itself; no frame waits any more; and the oldest packet of the transmit ring and the packets behind it
  -- up to the first that the chip still owns are taken off.
  pub handle_interrupt-IsServed :
      32 ≤ f
      → ((tr : List Event) (n : ℕ) → env.answer tr (allocate_packet n) ≡ true)
      → s.interrupt_enabled ≡ true
      → RxValid s.sc
      → TxValid s.sc
      → 0 < s.sc.pending_transmits
      → ((k : ℕ) → k < s.sc.pending_transmits → NoUnderflow (s.sc.trans_entries (slot s.sc k)))
      → has causes csr_intr ≡ true
      → has causes csr_err ≡ false
      → has causes csr_rint ≡ true
      → has causes csr_tint ≡ true
      → ((q : Bool) (u : PcNet)
          → serve_rings env (suc (suc f)) causes false false acknowledged ≡ some (q, true, u)
          → has (read_csr env csr u).0 csr_intr ≡ false)
      → (t : PcNet) × (handle_interrupt env (suc (suc f)) s ≡ some t) × IsServed s t
  handle_interrupt-IsServed enough allocates on rx tx pending fine intr err rint tint calm =
      let p = Silent-trans s at_loop acknowledged (read_rap-lem env s) (
        Silent-trans at_loop (read_csr env csr at_loop).1 acknowledged (read_csr-lem env at_loop)
          (write_csr-lem causes (read_csr env csr at_loop).1)) in
      let (q, u, run, served) =
        serve_both env f enough allocates causes acknowledged rint tint (rw (p.0) rx) (rw (p.0) tx)
          (rw (p.0) pending) (rw (p.0) fine) in
      (
        at_end q u,
        one_round q u on intr err run (calm q u run),
        Silent-IsServed s acknowledged u (at_end q u) p served (at_end-Silent q u),
      )
