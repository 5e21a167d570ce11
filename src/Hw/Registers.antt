-- ===== src/Hw/Registers.antt =====
-- The register addresses and bits of the chip: I/O offsets, CSRs and BCRs of Source/PCNet_HW.h.
use Prim.Native.Nat.{ℕ}

abbrev pub pcn_io32_aprom00 : ℕ
pcn_io32_aprom00 = 0x00

abbrev pub pcn_io32_aprom01 : ℕ
pcn_io32_aprom01 = 0x04

abbrev pub pcn_io32_aprom02 : ℕ
pcn_io32_aprom02 = 0x08

abbrev pub pcn_io32_aprom03 : ℕ
pcn_io32_aprom03 = 0x0c

abbrev pub pcnet32_wio_rdp : ℕ
pcnet32_wio_rdp = 0x10

abbrev pub pcnet32_wio_rap : ℕ
pcnet32_wio_rap = 0x12

abbrev pub pcnet32_wio_reset : ℕ
pcnet32_wio_reset = 0x14

abbrev pub pcnet32_wio_bdp : ℕ
pcnet32_wio_bdp = 0x16

abbrev pub pcnet32_dwio_rdp : ℕ
pcnet32_dwio_rdp = 0x10

abbrev pub pcnet32_dwio_rap : ℕ
pcnet32_dwio_rap = 0x14

abbrev pub pcnet32_dwio_reset : ℕ
pcnet32_dwio_reset = 0x18

abbrev pub pcnet32_dwio_bdp : ℕ
pcnet32_dwio_bdp = 0x1c

abbrev pub csr : ℕ
csr = 0

abbrev pub init_block_address_low : ℕ
init_block_address_low = 1

abbrev pub init_block_address_high : ℕ
init_block_address_high = 2

abbrev pub interrupt_mask : ℕ
interrupt_mask = 3

abbrev pub feature_control : ℕ
feature_control = 4

abbrev pub laf_start : ℕ
laf_start = 8

abbrev pub mode_control : ℕ
mode_control = 15

abbrev pub chip_id_lower : ℕ
chip_id_lower = 88

abbrev pub chip_id_upper : ℕ
chip_id_upper = 89

abbrev pub csr_err : ℕ
csr_err = 0x8000

abbrev pub csr_babl : ℕ
csr_babl = 0x4000

abbrev pub csr_cerr : ℕ
csr_cerr = 0x2000

abbrev pub csr_miss : ℕ
csr_miss = 0x1000

abbrev pub csr_merr : ℕ
csr_merr = 0x0800

abbrev pub csr_rint : ℕ
csr_rint = 0x0400

abbrev pub csr_tint : ℕ
csr_tint = 0x0200

abbrev pub csr_idon : ℕ
csr_idon = 0x0100

abbrev pub csr_intr : ℕ
csr_intr = 0x0080

abbrev pub csr_iena : ℕ
csr_iena = 0x0040

abbrev pub csr_rxon : ℕ
csr_rxon = 0x0020

abbrev pub csr_txon : ℕ
csr_txon = 0x0010

abbrev pub csr_tdmd : ℕ
csr_tdmd = 0x0008

abbrev pub csr_stop : ℕ
csr_stop = 0x0004

abbrev pub csr_strt : ℕ
csr_strt = 0x0002

abbrev pub csr_init : ℕ
csr_init = 0x0001

abbrev pub csr4_apad_xmt : ℕ
csr4_apad_xmt = 0x0800

abbrev pub csr4_mfcom : ℕ
csr4_mfcom = 0x0100

abbrev pub csr4_rcvccom : ℕ
csr4_rcvccom = 0x0010

abbrev pub csr4_txstrtm : ℕ
csr4_txstrtm = 0x0004

abbrev pub csr4_jabm : ℕ
csr4_jabm = 0x0001

abbrev pub mode_prom : ℕ
mode_prom = 0x8000

abbrev pub mode_normal : ℕ
mode_normal = 0x0080

abbrev pub lnkst : ℕ
lnkst = 4

abbrev pub lnkst_ledout : ℕ
lnkst_ledout = 0x8000

abbrev pub lnkst_fdlse : ℕ
lnkst_fdlse = 0x0100

abbrev pub lnkst_lnkste : ℕ
lnkst_lnkste = 0x0040

abbrev pub fdctl : ℕ
fdctl = 9

abbrev pub fdctl_auifd : ℕ
fdctl_auifd = 0x0002

abbrev pub fdctl_fden : ℕ
fdctl_fden = 0x0001
