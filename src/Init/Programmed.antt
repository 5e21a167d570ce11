-- ===== src/Init/Programmed.antt =====
-- What `lnc_init` tells the chip: the registers as the chip finds them when its initialization starts.
use maxxuss_amdpcnet_v.Base.{
  ℕ, zero, suc, ◌+◌, ◌-◌, ◌*◌, ◌/◌, ◌%◌, ◌^◌, ◌≡◌, ◌≢◌, refl, arith, ap, ◌∙◌, Bool-cases, inl, inr,
  Bool, has, bit_and, bit_or, u16, u32, some,
}
use maxxuss_amdpcnet_v.Base.Masks.{bit_and_low_half}
use maxxuss_amdpcnet_v.World.{Env}
use maxxuss_amdpcnet_v.Hw.{ether_addr_len, medium_index_10_fd}
use maxxuss_amdpcnet_v.Hw.Registers.{
  csr, csr_init, csr_idon, lnkst, lnkst_fdlse, lnkst_lnkste, init_block_address_low,
  init_block_address_high, feature_control, csr4_apad_xmt, csr4_mfcom, csr4_rcvccom, csr4_txstrtm,
  csr4_jabm,
}
use maxxuss_amdpcnet_v.State.{PcNet, with_sc}
use maxxuss_amdpcnet_v.Medium.{lnc_set_medium}
use maxxuss_amdpcnet_v.Port.{
  write_csr, write_bcr, read_csr, read_bcr, pcnet32_reset, pcnet32_stop, pcnet32_start,
}
use maxxuss_amdpcnet_v.Port.Access.{write_bcr-frame, read_bcr-frame, pcnet32_reset-frame}
use maxxuss_amdpcnet_v.Port.Written.{written, written-write_csr, written-read_csr}
use maxxuss_amdpcnet_v.Init.{
  lnc_init, program_chip, wait_idon, idon_polls, start_chip, prepare_memory, probe_dwio,
  iokit_kvtop, init_rings, fill_init_block,
}
use maxxuss_amdpcnet_v.Init.Frame.{lnc_set_medium-frame}
use maxxuss_amdpcnet_v.Init.Rings.{IsAllocated, init_block_addr_lem}
use maxxuss_amdpcnet_v.Init.Ready.{flagged, read_station_address-sc, probed-IsAllocated}

-- The features that `lnc_init` turns on.
abbrev pub features : ℕ
features =
    bit_or (bit_or (bit_or (bit_or csr4_apad_xmt csr4_mfcom) csr4_rcvccom) csr4_txstrtm) csr4_jabm

module _ (env : Env) where
  -- The state when the address of the block is written.
  before_block : PcNet → PcNet
  before_block s =
      let s1 = write_bcr 20 2 (pcnet32_reset env s) in
      let s2 = (lnc_set_medium env medium_index_10_fd s1).1 in
      let (val, s3) = read_bcr env lnkst s2 in
      write_bcr lnkst (bit_or (bit_or val lnkst_fdlse) lnkst_lnkste) s3

  before_block-sc : (s : PcNet) → (before_block s).sc ≡ s.sc
  unfolding before_block
  before_block-sc s =
      let s1 = pcnet32_reset env s in
      let s2 = write_bcr 20 2 s1 in
      let s3 = (lnc_set_medium env medium_index_10_fd s2).1 in
      let s4 = (read_bcr env lnkst s3).1 in
      ap {A = PcNet} (λ x. x.sc) (write_bcr-frame lnkst _ s4)
      ∙ ap {A = PcNet} (λ x. x.sc) (read_bcr-frame env lnkst s3)
      ∙ ap {A = PcNet} (λ x. x.sc) (lnc_set_medium-frame env medium_index_10_fd s2)
      ∙ ap {A = PcNet} (λ x. x.sc) (write_bcr-frame 20 2 s1)
      ∙ ap {A = PcNet} (λ x. x.sc) (pcnet32_reset-frame env s)

  program_chip_writes :
      (s : PcNet)
      → let block = iokit_kvtop env s.sc s.sc.init_block_addr in
        let t = program_chip env s in
        (written init_block_address_low t.trace ≡ some (block % 2 ^ 16))
        × (written init_block_address_high t.trace ≡ some (block / 2 ^ 16))
        × (written feature_control t.trace ≡ some features)
        × (written csr t.trace ≡ some csr_init)
  unfolding program_chip before_block
  program_chip_writes s =
      let s4 = before_block s in
      let block = iokit_kvtop env s.sc s.sc.init_block_addr in
      let same : iokit_kvtop env s4.sc s4.sc.init_block_addr ≡ block =
        ap (λ c. iokit_kvtop env c c.init_block_addr) (before_block-sc s) in
      let low = bit_and (iokit_kvtop env s4.sc s4.sc.init_block_addr) 0xffff in
      let high = u16 (iokit_kvtop env s4.sc s4.sc.init_block_addr / 2 ^ 16) in
      let s5 = write_csr init_block_address_low low s4 in
      let s6 = write_csr init_block_address_high high s5 in
      let s7 = write_csr feature_control features s6 in
      let low_lem : low ≡ block % 2 ^ 16 = bit_and_low_half _ ∙ ap (λ n. n % 2 ^ 16) same in
      let high_lem : high ≡ block / 2 ^ 16 = ap (λ n. u16 (n / 2 ^ 16)) same ∙ omega arith in
      let w5 : (n : ℕ) → _ = λ n.
        written-write_csr n init_block_address_low low s4 (omega arith) (omega (arith, low_lem)) in
      let w6 : (n : ℕ) → _ =
        λ n. written-write_csr n init_block_address_high high s5 (omega arith) (omega arith) in
      let w7 : (n : ℕ) → _ =
        λ n. written-write_csr n feature_control features s6 (omega arith) (omega arith) in
      let w8 : (n : ℕ) → _ = λ n. written-write_csr n csr csr_init s7 (omega arith) (omega arith) in
      (
        w8 1 ∙ w7 1 ∙ w6 1 ∙ w5 1 ∙ ap some low_lem,
        w8 2 ∙ w7 2 ∙ w6 2 ∙ ap some high_lem,
        w8 4 ∙ w7 4,
        w8 0,
      )

  wait_idon_writes : (k n : ℕ) (s : PcNet) → written k (wait_idon env n s).trace ≡ written k s.trace
  unfolding wait_idon
  wait_idon_writes k zero s = refl
  wait_idon_writes k (suc n) s =
      let s1 = (read_csr env csr s).1 in
      let here = written-read_csr env k csr s in
      elim (Bool-cases (has (read_csr env csr s).0 csr_idon)) [
        | inl done ↦ rw done here
        | inr busy ↦ rw busy (wait_idon_writes k n s1 ∙ here)
      ]

  start_chip_writes :
      (k : ℕ) (s : PcNet) → k ≢ csr → written k (start_chip env s).trace ≡ written k s.trace
  unfolding start_chip pcnet32_start written read_csr write_csr
  start_chip_writes k s ne = ground (arith, ne)

  prepared_addr :
      (on : Bool) (s : PcNet)
      → let t = (prepare_memory env on s).sc in
        (t.init_block_addr ≡ (init_rings env (flagged env on s.sc)).init_block_addr)
        × (t.recv_ring ≡ s.sc.recv_ring)
  unfolding prepare_memory fill_init_block init_rings
  prepared_addr on s =
      rw
        (read_station_address-sc env ether_addr_len 0
          (with_sc (init_rings env (flagged env on s.sc)) s))
        (refl, refl)

  -- The two registers that hold the address of the initialization block are the halves of a 32-bit
  -- word: with the memory allocated, and in whichever mode the chip answers, after `lnc_init` the word
  -- that they make up is the physical address of the block, which is at offset 512 of the memory, and
  -- the register of the features holds the features that the driver wants.
  pub lnc_init-written :
      (s : PcNet)
      → IsAllocated s.sc
      → let t = lnc_init env s in
        (low : ℕ) × (high : ℕ) × (written init_block_address_low t.trace ≡ some low)
        × (written init_block_address_high t.trace ≡ some high)
        × (high * 2 ^ 16 + low ≡ u32 (env.physical 512))
        × (written feature_control t.trace ≡ some features)
  unfolding lnc_init
  lnc_init-written s ok =
      let p = probe_dwio env (pcnet32_stop s) in
      let s1 = prepare_memory env p.0 p.1 in
      let s2 = program_chip env s1 in
      let s3 = wait_idon env (idon_polls env) s2 in
      let block = iokit_kvtop env s1.sc s1.sc.init_block_addr in
      let w = program_chip_writes s1 in
      let ok' = probed-IsAllocated env s ok in
      let at = prepared_addr p.0 p.1 in
      let same : block ≡ u32 (env.physical 512) =
        let off : u32 (s1.sc.init_block_addr + 2 ^ 32 - s1.sc.recv_ring) ≡ 512 =
          omega (arith, at.0, at.1, init_block_addr_lem env ok', ok'.fits) in
        ap (λ n. u32 (env.physical n)) off in
      (
        block % 2 ^ 16,
        block / 2 ^ 16,
        start_chip_writes 1 s3 (omega arith) ∙ wait_idon_writes 1 (idon_polls env) s2 ∙ w.0,
        start_chip_writes 2 s3 (omega arith) ∙ wait_idon_writes 2 (idon_polls env) s2 ∙ w.1,
        omega (arith, same),
        start_chip_writes 4 s3 (omega arith) ∙ wait_idon_writes 4 (idon_polls env) s2 ∙ w.2,
      )
