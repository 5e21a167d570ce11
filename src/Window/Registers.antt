-- ===== src/Window/Registers.antt =====
-- Registers, the medium and the link.
use maxxuss_amdpcnet_v.Base.{Bool, ℕ, ◌<◌, arith, bit_or}
use maxxuss_amdpcnet_v.World.{Env}
use maxxuss_amdpcnet_v.Hw.Registers.{csr, csr_stop, csr_strt, csr_iena}
use maxxuss_amdpcnet_v.State.{PcNet}
use maxxuss_amdpcnet_v.Port.{
  csr_read8, read_csr, read_csr_wio, read_csr_dwio, read_bcr, write_csr, write_bcr, pcnet32_stop,
  pcnet32_start, pcnet32_reset, pcnet32_check_wio,
}
use maxxuss_amdpcnet_v.Medium.{lnc_set_medium, lnc_get_medium, lnc_is_medium_available}
use maxxuss_amdpcnet_v.Window.{Steady}

module _ (port val : ℕ) {T : Type 0} {o : Bool} {a c : ℕ} (s : PcNet) (h : Steady T o a c s) where
  pub write_csr-Steady : Steady T o a c (write_csr port val s)
  unfolding write_csr
  write_csr-Steady = ground arith

  pub write_bcr-Steady : Steady T o a c (write_bcr port val s)
  unfolding write_bcr
  write_bcr-Steady = ground arith

module _ {T : Type 0} {o : Bool} {a c : ℕ} (s : PcNet) (h : Steady T o a c s) where
  pub pcnet32_stop-Steady : Steady T o a c (pcnet32_stop s)
  unfolding pcnet32_stop
  pcnet32_stop-Steady = write_csr-Steady csr csr_stop s h

  pub pcnet32_start-Steady : Steady T o a c (pcnet32_start s)
  unfolding pcnet32_start
  pcnet32_start-Steady = write_csr-Steady csr (bit_or csr_strt csr_iena) s h

module _ (env : Env) {T : Type 0} {o : Bool} {a c : ℕ} (s : PcNet) (h : Steady T o a c s) where
  pub pcnet32_reset-Steady : Steady T o a c (pcnet32_reset env s)
  unfolding pcnet32_reset
  pcnet32_reset-Steady = ground arith

  pub pcnet32_check_wio-Steady : Steady T o a c (pcnet32_check_wio env s).1
  unfolding pcnet32_check_wio
  pcnet32_check_wio-Steady = ground arith

  pub csr_read8-Steady : (port : ℕ) → port < 32 → Steady T o a c (csr_read8 env port s).1
  unfolding csr_read8
  csr_read8-Steady port lt = ground arith

  pub read_csr-Steady : (port : ℕ) → Steady T o a c (read_csr env port s).1
  unfolding read_csr
  read_csr-Steady port = ground arith

  pub read_csr_wio-Steady : (port : ℕ) → Steady T o a c (read_csr_wio env port s).1
  unfolding read_csr_wio
  read_csr_wio-Steady port = ground arith

  pub read_csr_dwio-Steady : (port : ℕ) → Steady T o a c (read_csr_dwio env port s).1
  unfolding read_csr_dwio
  read_csr_dwio-Steady port = ground arith

  pub read_bcr-Steady : (port : ℕ) → Steady T o a c (read_bcr env port s).1
  unfolding read_bcr
  read_bcr-Steady port = ground arith

module _ (env : Env) {T : Type 0} {o : Bool} {a c : ℕ} (s : PcNet) (h : Steady T o a c s) where
  pub lnc_set_medium-Steady : (m : ℕ) → Steady T o a c (lnc_set_medium env m s).1
  unfolding lnc_set_medium
  lnc_set_medium-Steady m = ground arith

  pub lnc_get_medium-Steady : Steady T o a c (lnc_get_medium env s).1
  unfolding lnc_get_medium
  lnc_get_medium-Steady = ground arith

  pub lnc_is_medium_available-Steady : Steady T o a c (lnc_is_medium_available env s).1
  unfolding lnc_is_medium_available
  lnc_is_medium_available-Steady = ground arith
