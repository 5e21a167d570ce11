-- ===== src/Init/Frame.antt =====
-- What `lnc_init` and `lnc_reset` may change: the soft state and the history.
use maxxuss_amdpcnet_v.Base.{
  ℕ, zero, suc, ◌+◌, ◌≡◌, refl, arith, ap, ◌∙◌, Bool, Bool-cases, inl, inr, update, bit_or, has,
}
use maxxuss_amdpcnet_v.World.{Env, sleep}
use maxxuss_amdpcnet_v.Hw.{ether_addr_len, medium_index_10_fd}
use maxxuss_amdpcnet_v.Hw.Registers.{csr, csr_idon, lnkst}
use maxxuss_amdpcnet_v.Softc.{lnc_iff_broadcast, lnc_iff_simplex, lnc_iff_multicast}
use maxxuss_amdpcnet_v.State.{PcNet, act, with_sc}
use maxxuss_amdpcnet_v.Port.{
  csr_read8, read_csr, write_csr, read_bcr, write_bcr, pcnet32_stop, pcnet32_start, pcnet32_reset,
}
use maxxuss_amdpcnet_v.Port.Access.{
  SameButTrace, read_csr-frame, read_bcr-frame, write_bcr-frame, pcnet32_reset-frame,
  pcnet32_stop-frame,
}
use maxxuss_amdpcnet_v.Medium.{lnc_set_medium}
use maxxuss_amdpcnet_v.Init.{
  probe_dwio, read_station_address, program_chip, wait_idon, idon_polls, start_chip, prepare_memory,
  lnc_init, lnc_reset, init_rings,
}

-- `t` is `s` but for the soft state and the history.
abbrev pub SoftOnly : PcNet → PcNet → Type 0
SoftOnly s t = t ≡ record s { sc = t.sc; trace = t.trace }

module _ (s t u : PcNet) where
  pub SoftOnly-trans : SoftOnly s t → SoftOnly t u → SoftOnly s u
  SoftOnly-trans p q = q ∙ ap {A = PcNet} (λ x. record x { sc = u.sc; trace = u.trace }) p

  SameButTrace-trans : SameButTrace s t → SameButTrace t u → SameButTrace s u
  SameButTrace-trans p q = q ∙ ap {A = PcNet} (λ x. record x { trace = u.trace }) p

pub SameButTrace-SoftOnly : (s t : PcNet) → SameButTrace s t → SoftOnly s t
SameButTrace-SoftOnly s t p = ground (arith, p)

last_writes-frame :
    (a b c d e f g h i j : ℕ) (s : PcNet)
    → SameButTrace s
        (write_csr a b (write_csr c d (write_csr e f (write_csr g h (write_bcr i j s)))))
unfolding write_csr write_bcr
last_writes-frame a b c d e f g h i j s = ground arith

module _ (env : Env) where
  pub probe_dwio-frame : (s : PcNet) → SameButTrace s (probe_dwio env s).1
  unfolding probe_dwio
  probe_dwio-frame s = ground arith

  pub lnc_set_medium-frame : (m : ℕ) (s : PcNet) → SameButTrace s (lnc_set_medium env m s).1
  unfolding lnc_set_medium
  lnc_set_medium-frame m s = ground arith

  pub wait_idon-frame : (n : ℕ) (s : PcNet) → SameButTrace s (wait_idon env n s)
  unfolding wait_idon
  wait_idon-frame zero s = refl
  wait_idon-frame (suc n) s =
      let s1 = (read_csr env csr s).1 in
      let here = read_csr-frame env csr s in
      let rest = SameButTrace-trans s s1 (wait_idon env n s1) here (wait_idon-frame n s1) in
      elim (Bool-cases (has (read_csr env csr s).0 csr_idon)) [
        | inl done ↦ rw done here
        | inr busy ↦ rw busy rest
      ]

  pub program_chip-frame : (s : PcNet) → SameButTrace s (program_chip env s)
  unfolding program_chip
  program_chip-frame s =
      let s1 = pcnet32_reset env s in
      let s2 = write_bcr 20 2 s1 in
      let s3 = (lnc_set_medium env medium_index_10_fd s2).1 in
      let s4 = (read_bcr env lnkst s3).1 in
      let p2 = SameButTrace-trans s s1 s2 (pcnet32_reset-frame env s) (write_bcr-frame 20 2 s1) in
      let p3 = SameButTrace-trans s s2 s3 p2 (lnc_set_medium-frame medium_index_10_fd s2) in
      let p4 = SameButTrace-trans s s3 s4 p3 (read_bcr-frame env lnkst s3) in
      SameButTrace-trans s s4 _ p4 (last_writes-frame _ _ _ _ _ _ _ _ _ _ s4)

  -- One byte of the station's address, as `read_station_address` stores it.
  abbrev with_station_byte : ℕ → PcNet → PcNet
  with_station_byte i s =
      let s1 = (csr_read8 env i s).1 in
      let block = s1.sc.init_block in
      with_sc
        (record s1.sc {
          init_block = record block { phys_addr = update block.phys_addr i (csr_read8 env i s).0 };
        })
        s1

  read_station_address-frame : (n i : ℕ) (s : PcNet) → SoftOnly s (read_station_address env n i s)
  unfolding read_station_address csr_read8
  read_station_address-frame zero i s = refl
  read_station_address-frame (suc n) i s =
      SoftOnly-trans s (with_station_byte i s)
        (read_station_address env n (i + 1) (with_station_byte i s)) refl
        (read_station_address-frame n (i + 1) (with_station_byte i s))

  start_chip-frame : (s : PcNet) → SoftOnly s (start_chip env s)
  unfolding start_chip read_csr pcnet32_start
  start_chip-frame s = ground arith

  pub prepare_memory-frame : (on : Bool) (s : PcNet) → SoftOnly s (prepare_memory env on s)
  unfolding prepare_memory
  prepare_memory-frame on s =
      let t =
        with_sc
          (init_rings env (record s.sc {
            dwio = on;
            if_flags =
                bit_or s.sc.if_flags
                  (bit_or (bit_or lnc_iff_broadcast lnc_iff_simplex) lnc_iff_multicast);
          }))
          s in
      SoftOnly-trans s t (prepare_memory env on s) refl (
        SoftOnly-trans t (read_station_address env ether_addr_len 0 t) (prepare_memory env on s)
          (read_station_address-frame ether_addr_len 0 t) refl)

  -- The initialization changes nothing but the soft state and the history.
  pub lnc_init-frame : (s : PcNet) → SoftOnly s (lnc_init env s)
  unfolding lnc_init
  lnc_init-frame s =
      let s1 = pcnet32_stop s in
      let (on, s2) = probe_dwio env s1 in
      let s3 = prepare_memory env on s2 in
      let s4 = program_chip env s3 in
      let s5 = wait_idon env (idon_polls env) s4 in
      let p2 = SameButTrace-trans s s1 s2 (pcnet32_stop-frame s) (probe_dwio-frame s1) in
      let q3 =
        SoftOnly-trans s s2 s3 (SameButTrace-SoftOnly s s2 p2) (prepare_memory-frame on s2) in
      let p5 =
        SameButTrace-trans s3 s4 s5 (program_chip-frame s3) (wait_idon-frame (idon_polls env) s4) in
      let q5 = SoftOnly-trans s s3 s5 q3 (SameButTrace-SoftOnly s3 s5 p5) in
      SoftOnly-trans s s5 (start_chip env s5) q5 (start_chip-frame s5)

  -- So does the reset.
  pub lnc_reset-frame : (s : PcNet) → SoftOnly s (lnc_reset env s)
  unfolding lnc_reset
  lnc_reset-frame s =
      let s1 = pcnet32_stop s in
      let s2 = act (sleep 20) (pcnet32_reset env s1) in
      let p =
        SameButTrace-trans s s1 s2 (pcnet32_stop-frame s)
          (SameButTrace-trans s1 (pcnet32_reset env s1) s2 (pcnet32_reset-frame env s1) refl) in
      SoftOnly-trans s s2 (lnc_init env s2) (SameButTrace-SoftOnly s s2 p) (lnc_init-frame s2)
