-- ===== src/Window/Interrupt.antt =====
-- The interrupt and the output of a packet.
use maxxuss_amdpcnet_v.Base.{
  ℕ, zero, suc, inl, inr, arith, Bool, true, false, Bool-cases, some, has, if_both, if◌then◌else◌,
  u16,
}
use maxxuss_amdpcnet_v.World.{Env}
use maxxuss_amdpcnet_v.Hw.Registers.{csr, csr_intr, csr_err, csr_merr, csr_rint, csr_tint}
use maxxuss_amdpcnet_v.State.{PcNet}
use maxxuss_amdpcnet_v.Port.{read_csr, write_csr, csr_read16, csr_read32, csr_write16, csr_write32}
use maxxuss_amdpcnet_v.Tx.{Mbuf, lnc_output_packet, lnc_tint}
use maxxuss_amdpcnet_v.Rx.{lnc_rint}
use maxxuss_amdpcnet_v.Intr.{
  note_csr_errors, serve_rings, intr_round, intr_loop, read_rap, write_rap, lnc_intr,
  handle_interrupt, output_packet,
}
use maxxuss_amdpcnet_v.Window.{WellTyped, EveryResult, every_some, every_none, bind-EveryResult}
use maxxuss_amdpcnet_v.Window.Chip.{lnc_reset-WellTyped, read_csr-WellTyped, write_csr-WellTyped}
use maxxuss_amdpcnet_v.Window.Transmission.{lnc_tint-WellTyped}
use maxxuss_amdpcnet_v.Window.Reception.{lnc_rint-WellTyped}

abbrev Served : Bool × PcNet → Type 0
Served r = WellTyped r.1

abbrev Flagged : Bool × Bool × PcNet → Type 0
Flagged r = WellTyped r.2

module _ (env : Env) (f : ℕ) where
  serve_rings-WellTyped :
      (bits : ℕ) (flush service : Bool) (s : PcNet)
      → WellTyped s
      → EveryResult Flagged (serve_rings env f bits flush service s)
  unfolding serve_rings
  serve_rings-WellTyped bits flush service s h =
      let received = if has bits csr_rint then lnc_rint env f flush s else some (flush, s) in
      bind-EveryResult Served Flagged received _
        (if_both (EveryResult Served) (has bits csr_rint) _ _ (lnc_rint-WellTyped env f flush s h)
          (every_some Served (flush, s) h))
        (λ r k.
          let sent = if has bits csr_tint then lnc_tint env f r.1 else some (false, r.1) in
          bind-EveryResult Served Flagged sent _
            (if_both (EveryResult Served) (has bits csr_tint) _ _ (lnc_tint-WellTyped env f r.1 k)
              (every_some Served (false, r.1) k))
            (λ t k'. every_some Flagged (r.0, if t.0 then true else service, t.1) k'))

  note_csr_errors-WellTyped :
      (bits : ℕ) (s : PcNet) → WellTyped s → WellTyped (note_csr_errors bits s)
  unfolding note_csr_errors
  note_csr_errors-WellTyped bits s h = h

  intr_round-WellTyped :
      (bits : ℕ) (flush service : Bool) (s : PcNet)
      → WellTyped s
      → EveryResult Flagged (intr_round env f bits flush service s)
  unfolding intr_round
  intr_round-WellTyped bits flush service s h =
      let s1 = write_csr csr bits s in
      let h1 = write_csr-WellTyped s h csr bits in
      let s2 = if has bits csr_err then note_csr_errors bits s1 else s1 in
      let h2 = if_both WellTyped (has bits csr_err) _ _ (note_csr_errors-WellTyped bits s1 h1) h1 in
      let served = serve_rings-WellTyped bits flush service s2 h2 in
      if_both (EveryResult Flagged) (has bits csr_err) _ _
        (if_both (EveryResult Flagged) (has bits csr_merr) _ _
          (every_some Flagged (flush, service, _) (lnc_reset-WellTyped env s2 h2)) served)
        served

  intr_loop-WellTyped :
      (n : ℕ) (flush service : Bool) (s : PcNet)
      → WellTyped s
      → EveryResult Flagged (intr_loop env f n flush service s)
  unfolding intr_loop
  intr_loop-WellTyped zero flush service s h = every_none Flagged
  intr_loop-WellTyped (suc n) flush service s h =
      let (bits, s1) = read_csr env csr s in
      let h1 = read_csr-WellTyped env s h csr in
      elim (Bool-cases (has bits csr_intr)) [
        | inr idle ↦ rw (idle, intr_loop) (every_some Flagged (flush, service, s1) h1)
        | inl pending ↦
            rw (pending, intr_loop)
              (bind-EveryResult Flagged Flagged (intr_round env f bits flush service s1) _
                (intr_round-WellTyped bits flush service s1 h1)
                (λ r k. intr_loop-WellTyped n r.0 r.1 r.2 k))
      ]

  read_rap-WellTyped : (s : PcNet) → WellTyped s → WellTyped (read_rap env s).1
  unfolding read_rap csr_read16 csr_read32
  read_rap-WellTyped s h = ground arith

  write_rap-WellTyped : (rap : ℕ) (s : PcNet) → WellTyped s → WellTyped (write_rap rap s)
  unfolding write_rap csr_write16 csr_write32
  write_rap-WellTyped rap s h = ground arith

  lnc_intr-WellTyped :
      (flush service : Bool) (s : PcNet)
      → WellTyped s
      → EveryResult Flagged (lnc_intr env f flush service s)
  unfolding lnc_intr
  lnc_intr-WellTyped flush service s h =
      let (rap, s1) = read_rap env s in
      bind-EveryResult Flagged Flagged (intr_loop env f f flush service s1) _
        (intr_loop-WellTyped f flush service s1 (read_rap-WellTyped s h))
        (λ r k.
          every_some Flagged (r.0, r.1, write_rap (u16 rap) r.2)
            (write_rap-WellTyped (u16 rap) r.2 k))

  pub handle_interrupt-WellTyped :
      (s : PcNet) → WellTyped s → EveryResult WellTyped (handle_interrupt env f s)
  unfolding handle_interrupt
  handle_interrupt-WellTyped s h =
      if_both (EveryResult WellTyped) s.interrupt_enabled _ _
        (bind-EveryResult Flagged WellTyped (lnc_intr env f false false s) _
          (lnc_intr-WellTyped false false s h) (λ r k. every_some WellTyped _ (ground (arith, k))))
        (every_some WellTyped s h)

pub output_packet-WellTyped :
    (pkt : Mbuf) (s : PcNet) → WellTyped s → WellTyped (output_packet pkt s).1
unfolding output_packet lnc_output_packet
output_packet-WellTyped pkt s h = ground arith
