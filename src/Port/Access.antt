-- ===== src/Port/Access.antt =====
-- Register access changes nothing of the driver but its history, and reads 16-bit values.
use maxxuss_amdpcnet_v.Base.{ℕ, ◌≡◌, arith, ◌<◌, ◌^◌}
use maxxuss_amdpcnet_v.World.{Env}
use maxxuss_amdpcnet_v.State.{PcNet}
use maxxuss_amdpcnet_v.Port.{
  read_csr, read_bcr, write_csr, write_bcr, pcnet32_stop, pcnet32_start, pcnet32_reset,
  read_csr_wio, read_csr_dwio, pcnet32_check_wio,
}

-- `t` is `s` with another history.
abbrev pub SameButTrace : PcNet → PcNet → Type 0
SameButTrace s t = t ≡ record s { trace = t.trace }

module _ (port val : ℕ) (s : PcNet) where
  pub write_csr-frame : SameButTrace s (write_csr port val s)
  unfolding write_csr
  write_csr-frame = ground arith

  pub write_bcr-frame : SameButTrace s (write_bcr port val s)
  unfolding write_bcr
  write_bcr-frame = ground arith

module _ (s : PcNet) where
  pub pcnet32_stop-frame : SameButTrace s (pcnet32_stop s)
  unfolding pcnet32_stop
  pcnet32_stop-frame = ground arith

  pub pcnet32_start-frame : SameButTrace s (pcnet32_start s)
  unfolding pcnet32_start
  pcnet32_start-frame = ground arith

module _ (env : Env) (s : PcNet) where
  pub pcnet32_reset-frame : SameButTrace s (pcnet32_reset env s)
  unfolding pcnet32_reset
  pcnet32_reset-frame = ground arith

  pub pcnet32_check_wio-frame : SameButTrace s (pcnet32_check_wio env s).1
  unfolding pcnet32_check_wio
  pcnet32_check_wio-frame = ground arith

module _ (env : Env) (port : ℕ) (s : PcNet) where
  pub read_csr-frame : SameButTrace s (read_csr env port s).1
  unfolding read_csr
  read_csr-frame = ground arith

  pub read_csr_wio-frame : SameButTrace s (read_csr_wio env port s).1
  unfolding read_csr_wio
  read_csr_wio-frame = ground arith

  pub read_csr_dwio-frame : SameButTrace s (read_csr_dwio env port s).1
  unfolding read_csr_dwio
  read_csr_dwio-frame = ground arith

  pub read_csr-lt : (read_csr env port s).0 < 2 ^ 16
  unfolding read_csr
  read_csr-lt = ground arith

  pub read_bcr-frame : SameButTrace s (read_bcr env port s).1
  unfolding read_bcr
  read_bcr-frame = ground arith
