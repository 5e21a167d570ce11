-- ===== src/Medium.antt =====
-- The medium: `lnc_set_medium`, `lnc_get_medium` and `lnc_is_medium_available` of
-- Source/PCNet_lnc.cpp, which read and write the full-duplex control and link status registers.
use maxxuss_amdpcnet_v.Base.{ℕ, ◌==◌, Bool, true, bit_and, bit_or, not32, has, if◌then◌else◌}
use maxxuss_amdpcnet_v.World.{Env}
use maxxuss_amdpcnet_v.Hw.{medium_index_10_fd, medium_index_10_hd}
use maxxuss_amdpcnet_v.Hw.Registers.{fdctl, fdctl_auifd, fdctl_fden, lnkst, lnkst_ledout}
use maxxuss_amdpcnet_v.State.{PcNet}
use maxxuss_amdpcnet_v.Port.{read_bcr, write_bcr}

module _ (env : Env) where
  unfoldable pub lnc_set_medium : ℕ → PcNet → Bool × PcNet
  unfolding read_bcr write_bcr
  lnc_set_medium medium_index s =
      let (val, s1) = read_bcr env fdctl s in
      if medium_index == medium_index_10_fd
      then (true, write_bcr fdctl (bit_or (bit_or val fdctl_auifd) fdctl_fden) s1)
      else if medium_index == medium_index_10_hd
      then (true, write_bcr fdctl (bit_and val (not32 (bit_or fdctl_auifd fdctl_fden))) s1)
      else (true, s1)

  unfoldable pub lnc_get_medium : PcNet → ℕ × PcNet
  unfolding read_bcr
  lnc_get_medium s =
      let (val, s1) = read_bcr env fdctl s in
      (if has val fdctl_fden then medium_index_10_fd else medium_index_10_hd, s1)

  unfoldable pub lnc_is_medium_available : PcNet → Bool × PcNet
  unfolding read_bcr
  lnc_is_medium_available s = let (val, s1) = read_bcr env lnkst s in (has val lnkst_ledout, s1)
