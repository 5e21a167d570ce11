-- ===== src/Examples/Interrupt.antt =====
-- One interrupt for a received and a sent packet.
use maxxuss_amdpcnet_v.Base.{
  ℕ, ◌<◌, ◌≡◌, refl, arith, sym, ◌∙◌, ap, Bool, true, false, List, [], ◌∷◌, ◌++◌, has, some, Option,
  bytes_at,
}
use maxxuss_amdpcnet_v.World.{Env}
use maxxuss_amdpcnet_v.Hw.Registers.{csr, csr_intr}
use maxxuss_amdpcnet_v.State.{PcNet}
use maxxuss_amdpcnet_v.Port.{read_csr, write_csr, csr_read32}
use maxxuss_amdpcnet_v.Rx.Ring.{RxValid, inputs, accepted, from_self}
use maxxuss_amdpcnet_v.Rx.Waiting.{due, waiting}
use maxxuss_amdpcnet_v.Tx.{enqueue}
use maxxuss_amdpcnet_v.Tx.Ring.{slot}
use maxxuss_amdpcnet_v.Tx.Reclaim.{NoUnderflow}
use maxxuss_amdpcnet_v.Intr.{serve_rings, handle_interrupt, read_rap}
use maxxuss_amdpcnet_v.Intr.Served.{
  IsServed, serve_both, handle_interrupt-IsServed, acknowledged, causes,
}
use maxxuss_amdpcnet_v.Examples.{quiet, driver, soft_sent, soft_sent-TxValid}

-- The chip reports received and sent packets until a packet was handed on.
abbrev report : List (List ℕ) → ℕ
report [] = 0x680
report (p ∷ ps) = 0

abbrev busy : Env
busy = record quiet { port32 = λ tr a. report (inputs tr) }

abbrev both : PcNet
both = driver soft_sent

both-RxValid : RxValid soft_sent
unfolding enqueue
both-RxValid = record {
  size = refl;
  next_in = omega arith;
  single = λ i h p. ground arith;
  long = λ i h p e. ground arith;
}

-- The state in which the rings are served.
abbrev ready : PcNet
ready = acknowledged busy 32 both

causes_lem : causes busy 32 both ≡ 0x680
unfolding read_csr read_rap inputs enqueue csr_read32
causes_lem = refl

ready_lem : (ready.sc ≡ soft_sent) × (ready.mem ≡ both.mem)
unfolding read_csr read_rap write_csr enqueue csr_read32
ready_lem = (refl, refl)

one_frame : due both.mem soft_sent (waiting soft_sent 32 0) 0 ≡ bytes_at both.mem 0x20_0000 60 ∷ []
unfolding due waiting accepted from_self bytes_at enqueue
one_frame = refl

sent_fine :
    (k : ℕ)
    → k < soft_sent.pending_transmits
    → NoUnderflow (soft_sent.trans_entries (slot soft_sent k))
unfolding enqueue
sent_fine k h = ground arith

pending_lem : 0 < soft_sent.pending_transmits
unfolding enqueue
pending_lem = omega arith

no_report : (p : List ℕ) (xs : List (List ℕ)) → report (xs ++ (p ∷ [])) ≡ 0
no_report p [] = refl
no_report p (x ∷ xs) = refl

silent : (u : PcNet) → report (inputs u.trace) ≡ 0 → has (read_csr busy csr u).0 csr_intr ≡ false
unfolding read_csr inputs
silent u h = ground (arith, h)

some-triple :
    {q r b c : Bool} {x y : PcNet}
    → ◌≡◌ {A = Option (Bool × Bool × PcNet)} (some (q, b, x)) (some (r, c, y))
    → x ≡ y
some-triple e = cc

calm :
    (q : Bool) (u : PcNet)
    → serve_rings busy 34 (causes busy 32 both) false false (acknowledged busy 32 both)
      ≡ some (q, true, u)
    → has (read_csr busy csr u).0 csr_intr ≡ false
calm q u run =
    let (q', u', run', served) =
      serve_both busy 32 (omega arith) (λ tr n. refl) (causes busy 32 both) ready
        (rw causes_lem refl) (rw causes_lem refl) (rw (ready_lem.0) both-RxValid)
        (rw (ready_lem.0) soft_sent-TxValid) (rw (ready_lem.0) pending_lem)
        (rw (ready_lem.0) sent_fine) in
    let same : u ≡ u' = some-triple (sym run ∙ run') in
    let handed : inputs u.trace ≡ inputs ready.trace ++ (bytes_at both.mem 0x20_0000 60 ∷ []) =
      ap (λ x. inputs x.trace) same
      ∙ served.handed
      ∙ ap (λ ps. inputs ready.trace ++ ps) (rw (ready_lem.0, ready_lem.1) one_frame) in
    silent u (ap report handed ∙ no_report _ (inputs ready.trace))

handle_interrupt-IsServed_example :
    (t : PcNet) × (handle_interrupt busy 34 both ≡ some t) × IsServed both t
handle_interrupt-IsServed_example =
    handle_interrupt-IsServed busy 32 both (omega arith) (λ tr n. refl) refl both-RxValid
      soft_sent-TxValid pending_lem sent_fine (rw causes_lem refl) (rw causes_lem refl)
      (rw causes_lem refl) (rw causes_lem refl) calm
