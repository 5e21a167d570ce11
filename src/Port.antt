-- ===== src/Port.antt =====
-- The register access of Source/PCNet.h: I/O ports through `pciNub`, and the indirect CSR and BCR
-- registers behind an address port and a data port, 16 or 32 bits wide by `sc.dwio`.
pub mod Access
pub mod Written
use maxxuss_amdpcnet_v.Base.{ℕ, ◌==◌, ◌%◌, ◌^◌, Bool, bit_and, bit_or, u8, u16, u32, if◌then◌else◌}
use maxxuss_amdpcnet_v.World.{Env, read8, read16, read32, write16, write32}
use maxxuss_amdpcnet_v.State.{PcNet, log}
use maxxuss_amdpcnet_v.Hw.Registers.{
  pcnet32_wio_rdp, pcnet32_wio_rap, pcnet32_wio_reset, pcnet32_wio_bdp, pcnet32_dwio_rdp,
  pcnet32_dwio_rap, pcnet32_dwio_reset, pcnet32_dwio_bdp, csr, csr_stop, csr_strt, csr_iena,
}

module _ (env : Env) where
  -- `csrRead8`, `csrRead16`, `csrRead32` and the writes; `lnc_inb` and the others are their macros.
  unfoldable pub csr_read8 : ℕ → PcNet → ℕ × PcNet
  csr_read8 offset s = let v = u8 (env.port8 s.trace offset) in (v, log (read8 offset v) s)

  unfoldable pub csr_read16 : ℕ → PcNet → ℕ × PcNet
  csr_read16 offset s = let v = u16 (env.port16 s.trace offset) in (v, log (read16 offset v) s)

  unfoldable pub csr_read32 : ℕ → PcNet → ℕ × PcNet
  csr_read32 offset s = let v = u32 (env.port32 s.trace offset) in (v, log (read32 offset v) s)

unfoldable pub csr_write16 : ℕ → ℕ → PcNet → PcNet
csr_write16 offset value s = log (write16 offset (u16 value)) s

unfoldable pub csr_write32 : ℕ → ℕ → PcNet → PcNet
csr_write32 offset value s = log (write32 offset (u32 value)) s

module _ (env : Env) where
  unfoldable pub read_csr_dwio : ℕ → PcNet → ℕ × PcNet
  unfolding csr_read32 csr_write32
  read_csr_dwio port s =
      let (v, s') = csr_read32 env pcnet32_dwio_rdp (csr_write32 pcnet32_dwio_rap port s) in
      (u16 v, s')

  unfoldable pub read_csr_wio : ℕ → PcNet → ℕ × PcNet
  unfolding csr_read16 csr_write16
  read_csr_wio port s = csr_read16 env pcnet32_wio_rdp (csr_write16 pcnet32_wio_rap port s)

  unfoldable pub read_csr : ℕ → PcNet → ℕ × PcNet
  unfolding read_csr_dwio read_csr_wio
  read_csr port s = if s.sc.dwio then read_csr_dwio port s else read_csr_wio port s

  unfoldable pub read_bcr : ℕ → PcNet → ℕ × PcNet
  unfolding csr_read16 csr_read32 csr_write16 csr_write32
  read_bcr port s =
      if s.sc.dwio
      then (let (v, s') = csr_read32 env pcnet32_dwio_bdp (csr_write32 pcnet32_dwio_rap port s) in
          (u16 v, s'))
      else csr_read16 env pcnet32_wio_bdp (csr_write16 pcnet32_wio_rap port s)

unfoldable pub write_csr : ℕ → ℕ → PcNet → PcNet
unfolding csr_write16 csr_write32
write_csr port val s =
    if s.sc.dwio
    then csr_write32 pcnet32_dwio_rdp val (csr_write32 pcnet32_dwio_rap port s)
    else csr_write16 pcnet32_wio_rdp val (csr_write16 pcnet32_wio_rap port s)

unfoldable pub write_bcr : ℕ → ℕ → PcNet → PcNet
unfolding csr_write16 csr_write32
write_bcr port val s =
    if s.sc.dwio
    then csr_write32 pcnet32_dwio_bdp val (csr_write32 pcnet32_dwio_rap port s)
    else csr_write16 pcnet32_wio_bdp val (csr_write16 pcnet32_wio_rap port s)

unfoldable pub pcnet32_stop : PcNet → PcNet
unfolding write_csr
pcnet32_stop s = write_csr csr csr_stop s

unfoldable pub pcnet32_start : PcNet → PcNet
unfolding write_csr
pcnet32_start s = write_csr csr (bit_or csr_strt csr_iena) s

module _ (env : Env) where
  unfoldable pub pcnet32_reset : PcNet → PcNet
  unfolding csr_read16 csr_read32
  pcnet32_reset s = (csr_read16 env pcnet32_wio_reset (csr_read32 env pcnet32_dwio_reset s).1).1

  unfoldable pub pcnet32_check_wio : PcNet → Bool × PcNet
  unfolding csr_read16 csr_write16
  pcnet32_check_wio s =
      let (v, s') = csr_read16 env pcnet32_wio_rap (csr_write16 pcnet32_wio_rap 88 s) in
      (v == 88, s')

  unfoldable pub pcnet32_check_dwio : PcNet → Bool × PcNet
  unfolding csr_read32 csr_write32
  pcnet32_check_dwio s =
      let (v, s') = csr_read32 env pcnet32_dwio_rap (csr_write32 pcnet32_dwio_rap 88 s) in
      (v == 88, s')
