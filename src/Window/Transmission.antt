-- ===== src/Window/Transmission.antt =====
-- Transmission.
use maxxuss_amdpcnet_v.Base.{
  ℕ, zero, suc, inl, inr, arith, Bool, true, false, has, if_both, Bool-cases, bit_or,
}
use maxxuss_amdpcnet_v.World.{Env}
use maxxuss_amdpcnet_v.Hw.Descriptors.{tmd_enp, tmd_err, tmd_uflo, tmd_stp, tmd_own}
use maxxuss_amdpcnet_v.Softc.{LncSoftc}
use maxxuss_amdpcnet_v.State.{PcNet, bump}
use maxxuss_amdpcnet_v.Tx.{
  go_on, leave, bail, trans_status, check_tx_end, find_tx_end, note_tx_errors, note_lcol, note_lcar,
  note_rtry, note_tx_done, tx_outcome, release_packet, more_finished, tint_round, tint_loop,
  finish_tint, lnc_tint, scan_end, skip_packet, clear_packet, bump_tx_resets, with_counters,
  with_trans_next,
}
use maxxuss_amdpcnet_v.Window.{
  Second, Flows, Flow-cases, Any, always, WellTyped, EveryResult, every_some, every_none,
  bind-EveryResult,
}
use maxxuss_amdpcnet_v.Window.Chip.{lnc_reset-WellTyped, write_csr-WellTyped}

module _ (env : Env) where
  check_tx_end-WellTyped :
      (l : Bool) (i : ℕ) (s : PcNet) → WellTyped s → WellTyped (check_tx_end env l i s).1
  unfolding check_tx_end
  check_tx_end-WellTyped l i s h = ground (arith, lnc_reset-WellTyped env (bump_tx_resets s) h)

  find_tx_end-WellTyped :
      (f : ℕ) (l : Bool) (s : PcNet) → WellTyped s → EveryResult Flows (find_tx_end env f l s)
  unfolding find_tx_end
  find_tx_end-WellTyped f l s h =
      let sc = s.sc in
      let scan =
        scan_end f sc.trans_entries sc.ntdre
          (bit_or (bit_or (bit_or tmd_stp tmd_own) tmd_enp) tmd_err) sc.trans_next in
      let rest = bind-EveryResult {A = ℕ} Any Flows scan _ (always scan) (λ i _.
        every_some Flows _ (check_tx_end-WellTyped l s.sc.trans_next (with_trans_next i s) h)) in
      if_both (EveryResult Flows) (has (trans_status s sc.trans_next) (bit_or tmd_enp tmd_err)) _ _
        (every_some Flows (go_on, s) h) rest

  note_tx_errors-WellTyped : (ext : ℕ) (s : PcNet) → WellTyped s → WellTyped (note_tx_errors ext s)
  unfolding note_tx_errors note_lcol note_lcar note_rtry
  note_tx_errors-WellTyped ext s h = ground arith

  tx_outcome-WellTyped : (f : ℕ) (s : PcNet) → WellTyped s → EveryResult Flows (tx_outcome env f s)
  unfolding tx_outcome note_tx_done
  tx_outcome-WellTyped f s h =
      let i = s.sc.trans_next in
      let ext = (s.sc.trans_entries i).md.ext_status in
      let s1 = note_tx_errors ext s in
      let h1 = note_tx_errors-WellTyped ext s h in
      let s2 =
        with_counters (record s1.counters { tx_underruns = bump s1.counters.tx_underruns }) s1 in
      let skip = skip_packet f s1.sc i in
      let rest =
        bind-EveryResult {A = ℕ} Any Flows skip _ (always skip)
          (λ i' _. every_some Flows (go_on, with_trans_next i' s1) h1) in
      if_both (EveryResult Flows) (has (trans_status s i) tmd_err) _ _
        (if_both (EveryResult Flows) (has ext tmd_uflo) _ _
          (every_some Flows _ (lnc_reset-WellTyped env (bump_tx_resets s2) h1)) rest)
        (every_some Flows _ h)

  release_packet-WellTyped :
      (f start : ℕ) (s : PcNet) → WellTyped s → EveryResult WellTyped (release_packet env f start s)
  unfolding release_packet
  release_packet-WellTyped f start s h =
      let cleared = clear_packet f start s.sc in
      bind-EveryResult {A = LncSoftc} Any WellTyped cleared _ (always cleared)
        (λ sc _. every_some WellTyped _ (ground arith))

  tint_round-WellTyped :
      (f : ℕ) (l : Bool) (s : PcNet) → WellTyped s → EveryResult Flows (tint_round env f l s)
  unfolding tint_round
  tint_round-WellTyped f l s h =
      bind-EveryResult Flows Flows (find_tx_end env f l s) _ (find_tx_end-WellTyped f l s h) (λ r k.
        elim (Flow-cases r.0) [
          | inl e ↦ rw e (
              bind-EveryResult Flows Flows (tx_outcome env f r.1) _ (tx_outcome-WellTyped f r.1 k)
                (λ o k'. elim (Flow-cases o.0) [
                  | inl e' ↦ rw e' (
                      bind-EveryResult WellTyped Flows (release_packet env f s.sc.trans_next o.1) _
                        (release_packet-WellTyped f s.sc.trans_next o.1 k')
                        (λ u h'. every_some Flows (go_on, u) h'))
                  | inr (inl e') ↦ rw e' (every_some Flows (leave, o.1) k')
                  | inr (inr e') ↦ rw e' (every_some Flows (bail, o.1) k')
                ]))
          | inr (inl e) ↦ rw e (every_some Flows (leave, r.1) k)
          | inr (inr e) ↦ rw e (every_some Flows (bail, r.1) k)
        ])

  tint_loop-WellTyped :
      (f n : ℕ) (l : Bool) (s : PcNet)
      → WellTyped s
      → EveryResult (Second {A = Bool}) (tint_loop env f n l s)
  unfolding tint_loop
  tint_loop-WellTyped f zero l s h = every_none (Second {A = Bool})
  tint_loop-WellTyped f (suc n) l s h =
      bind-EveryResult Flows (Second {A = Bool}) (tint_round env f l s) _
        (tint_round-WellTyped f l s h)
        (λ r k. elim (Flow-cases r.0) [
          | inl e ↦ rw e (elim (Bool-cases (more_finished env r.1)) [
            | inl more ↦ rw more (tint_loop-WellTyped f n true r.1 k)
            | inr done ↦ rw done (every_some (Second {A = Bool}) (true, r.1) k)
          ])
          | inr (inl e) ↦ rw e (every_some (Second {A = Bool}) (true, r.1) k)
          | inr (inr e) ↦ rw e (every_some (Second {A = Bool}) (false, r.1) k)
        ])

  finish_tint-WellTyped : (s : PcNet) → WellTyped s → WellTyped (finish_tint s)
  unfolding finish_tint
  finish_tint-WellTyped s h = write_csr-WellTyped _ h _ _

  pub lnc_tint-WellTyped :
      (f : ℕ) (s : PcNet) → WellTyped s → EveryResult (Second {A = Bool}) (lnc_tint env f s)
  unfolding lnc_tint
  lnc_tint-WellTyped f s h =
      bind-EveryResult (Second {A = Bool}) (Second {A = Bool}) (tint_loop env f f false s) _
        (tint_loop-WellTyped f f false s h)
        (λ r k.
          if_both (EveryResult (Second {A = Bool})) r.0 _ _
            (every_some (Second {A = Bool}) (true, finish_tint r.1) (finish_tint-WellTyped r.1 k))
            (every_some (Second {A = Bool}) (false, r.1) k))
