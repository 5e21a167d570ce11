-- ===== src/Intr/Hang.antt =====
-- An interrupt for received and sent packets at once, when the receive ring holds a frame without end.
use maxxuss_amdpcnet_v.Base.{
  ℕ, zero, suc, ◌+◌, ◌%◌, ◌<◌, ◌≡◌, refl, arith, ap, ◌∙◌, Bool, true, false, has, bit_or, none,
  some,
}
use maxxuss_amdpcnet_v.World.{Env, sleep}
use maxxuss_amdpcnet_v.Hw.Registers.{csr_rint, csr_tint}
use maxxuss_amdpcnet_v.Hw.Descriptors.{rmd_own, rmd_err, rmd_stp, rmd_enp}
use maxxuss_amdpcnet_v.State.{PcNet, act}
use maxxuss_amdpcnet_v.Port.{pcnet32_stop, pcnet32_reset}
use maxxuss_amdpcnet_v.Port.Access.{pcnet32_stop-frame, pcnet32_reset-frame}
use maxxuss_amdpcnet_v.Init.{lnc_reset}
use maxxuss_amdpcnet_v.Init.Rings.{IsAllocated}
use maxxuss_amdpcnet_v.Init.Ready.{IsReady, lnc_init-IsReady}
use maxxuss_amdpcnet_v.Tx.{scan_end, bail}
use maxxuss_amdpcnet_v.Tx.Ring.{inc_lem}
use maxxuss_amdpcnet_v.Tx.Idle.{lnc_tint_idle}
use maxxuss_amdpcnet_v.Rx.{
  check_rx_end, find_rx_end, rint_round, rint_loop, lnc_rint, bump_rx_resets, with_recv_next,
  recv_status,
}
use maxxuss_amdpcnet_v.Intr.{serve_rings}

-- A reset, too, leaves both rings ready.
pub lnc_reset-IsReady : (env : Env) (s : PcNet) → IsAllocated s.sc → IsReady (lnc_reset env s).sc
unfolding lnc_reset
lnc_reset-IsReady env s ok =
    let s1 = pcnet32_stop s in
    let e : (pcnet32_reset env s1).sc ≡ s.sc =
      ap {A = PcNet} (λ x. x.sc) (pcnet32_reset-frame env s1)
      ∙ ap {A = PcNet} (λ x. x.sc) (pcnet32_stop-frame s) in
    lnc_init-IsReady env (act (sleep 20) (pcnet32_reset env s1)) (rw e ok)

-- The descriptor `recv_next` starts a frame that the next descriptor does not go on with, since it
-- starts a frame, too.
pub record IsBroken (s : PcNet) : Type 0 where
  pub size : s.sc.nrdre ≡ 5
  pub next_in : s.sc.recv_next < 32
  pub starts : has (recv_status s s.sc.recv_next) rmd_stp ≡ true
  pub no_end : has (recv_status s s.sc.recv_next) (bit_or rmd_enp rmd_err) ≡ false
  pub starts_again : has (recv_status s ((s.sc.recv_next + 1) % 32)) rmd_stp ≡ true
  pub stops :
      has
        (recv_status s ((s.sc.recv_next + 1) % 32))
        (bit_or (bit_or (bit_or rmd_stp rmd_own) rmd_enp) rmd_err)
      ≡ true

module _ (env : Env) (s : PcNet) (b : IsBroken s) where
  -- The state in which the receiver resets the chip.
  abbrev at_reset : PcNet
  at_reset = bump_rx_resets (with_recv_next ((s.sc.recv_next + 1) % 32) s)

  find_broken : (f : ℕ) → find_rx_end env (suc f) false s ≡ some (bail, lnc_reset env at_reset)
  unfolding find_rx_end check_rx_end scan_end
  find_broken f =
      rw (b.no_end, inc_lem s.sc.recv_next s.sc.nrdre b.size b.next_in, b.stops)
        (rw (b.starts_again))

  round_broken :
      (f : ℕ) → rint_round env (suc f) false s ≡ some (bail, false, lnc_reset env at_reset)
  unfolding rint_round
  round_broken f = rw (find_broken f) refl

  loop_broken :
      (f : ℕ) (queued : Bool)
      → rint_loop env (suc f) (suc f) false queued s ≡ some (false, queued, lnc_reset env at_reset)
  unfolding rint_loop
  loop_broken f queued = ground (arith, b.starts, round_broken f)

  rint_broken :
      (f : ℕ) (queued : Bool)
      → lnc_rint env (suc f) queued s ≡ some (queued, lnc_reset env at_reset)
  unfolding lnc_rint
  rint_broken f queued = rw (loop_broken f queued) refl

  -- If the descriptor at `recv_next` starts a frame that it does not end, the next descriptor starts
  -- another frame, and the chip reports received and sent packets in one interrupt, then the receiver's
  -- reset empties the transmit ring, and the service of the rings never returns: no fuel is enough.
  pub serve_rings_hangs :
      (fuel csr0 : ℕ) (flush service : Bool)
      → IsAllocated s.sc
      → has csr0 csr_rint ≡ true
      → has csr0 csr_tint ≡ true
      → serve_rings env fuel csr0 flush service s ≡ none
  unfolding serve_rings lnc_rint rint_loop
  serve_rings_hangs zero csr0 flush service ok r t = rw (r)
  serve_rings_hangs (suc f) csr0 flush service ok r t =
      let ready = lnc_reset-IsReady env at_reset (record {
        recv_size = ok.recv_size;
        trans_size = ok.trans_size;
        aligned = ok.aligned;
        fits = ok.fits;
      }) in
      rw (r, rint_broken f flush)
        (rw (t, lnc_tint_idle env (suc f) (lnc_reset env at_reset) ready.tx ready.idle))
