-- ===== src/Hw/Descriptors.antt =====
-- The status bits of transmit and receive descriptors of Source/PCNet_HW.h.
use Prim.Native.Nat.{ℕ}

abbrev pub tmd_own : ℕ
tmd_own = 0x8000

abbrev pub tmd_err : ℕ
tmd_err = 0x4000

abbrev pub tmd_add_fcs : ℕ
tmd_add_fcs = 0x2000

abbrev pub tmd_no_fcs : ℕ
tmd_no_fcs = 0x2000

abbrev pub tmd_more : ℕ
tmd_more = 0x1000

abbrev pub tmd_ltint : ℕ
tmd_ltint = 0x1000

abbrev pub tmd_one : ℕ
tmd_one = 0x0800

abbrev pub tmd_def : ℕ
tmd_def = 0x0400

abbrev pub tmd_stp : ℕ
tmd_stp = 0x0200

abbrev pub tmd_enp : ℕ
tmd_enp = 0x0100

abbrev pub tmd_bpe : ℕ
tmd_bpe = 0x0080

abbrev pub tmd_res : ℕ
tmd_res = 0x007f

abbrev pub tmd_tbuff : ℕ
tmd_tbuff = 0x8000

abbrev pub tmd_uflo : ℕ
tmd_uflo = 0x4000

abbrev pub tmd_lcol : ℕ
tmd_lcol = 0x1000

abbrev pub tmd_lcar : ℕ
tmd_lcar = 0x0800

abbrev pub tmd_rtry : ℕ
tmd_rtry = 0x0400

abbrev pub tmd_tdr : ℕ
tmd_tdr = 0x03ff

abbrev pub rmd_own : ℕ
rmd_own = 0x8000

abbrev pub rmd_err : ℕ
rmd_err = 0x4000

abbrev pub rmd_fram : ℕ
rmd_fram = 0x2000

abbrev pub rmd_oflo : ℕ
rmd_oflo = 0x1000

abbrev pub rmd_crc : ℕ
rmd_crc = 0x0800

abbrev pub rmd_buff : ℕ
rmd_buff = 0x0400

abbrev pub rmd_stp : ℕ
rmd_stp = 0x0200

abbrev pub rmd_enp : ℕ
rmd_enp = 0x0100

abbrev pub rmd_bpe : ℕ
rmd_bpe = 0x0080

abbrev pub rmd_pam : ℕ
rmd_pam = 0x0040

abbrev pub rmd_lafm : ℕ
rmd_lafm = 0x0020

abbrev pub rmd_bam : ℕ
rmd_bam = 0x0010

abbrev pub mdhead_len_mask : ℕ
mdhead_len_mask = 0x0fff
