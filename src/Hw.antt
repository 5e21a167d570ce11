-- ===== src/Hw.antt =====
-- Source/PCNet_HW.h: Ethernet constants, the two data layouts that the driver shares with the chip,
-- and the media. `u_long` is 32 bits wide, `u_short` 16 and `u_char` 8.
pub mod Registers
pub mod Descriptors
use maxxuss_amdpcnet_v.Base.{ℕ, ◌+◌}

abbrev pub ether_addr_len : ℕ
ether_addr_len = 6

abbrev pub ether_crc_len : ℕ
ether_crc_len = 4

abbrev pub ether_max_len : ℕ
ether_max_len = 1544

abbrev pub multicast_filter_len : ℕ
multicast_filter_len = 8

abbrev pub pcnet_multi_init_addr : ℕ
pcnet_multi_init_addr = 0xff

-- A ring descriptor. The members of the union `misc` are fields of their own: a receive descriptor
-- uses the first and a transmit descriptor the second.
pub record Mds : Type 0 where
  pub buffer : ℕ
  pub msg_size : ℕ
  pub status : ℕ
  pub rx_msg_length : ℕ
  pub ext_status : ℕ

-- `sizeof(struct pcnet32_mds)`.
abbrev pub sizeof_mds : ℕ
sizeof_mds = 4 + 2 + 2 + 4 + 4

-- The initialization block.
pub record InitBlock : Type 0 where
  pub mode : ℕ
  pub tlen_rlen : ℕ
  pub phys_addr : ℕ → ℕ
  pub ladrb : ℕ → ℕ
  pub rx_ring : ℕ
  pub tx_ring : ℕ

-- `sizeof(struct pcnet32_init_block)`.
abbrev pub sizeof_init_block : ℕ
sizeof_init_block = 2 + 2 + 6 + 2 + 8 + 4 + 4

-- `ether_shost` of `struct ether_header` stands behind `ether_dhost`.
abbrev pub ether_shost_offset : ℕ
ether_shost_offset = 6

abbrev pub medium_index_10_hd : ℕ
medium_index_10_hd = 0

abbrev pub medium_index_10_fd : ℕ
medium_index_10_fd = 1

abbrev pub medium_index_none : ℕ
medium_index_none = medium_index_10_fd + 1

abbrev pub medium_index_count : ℕ
medium_index_count = medium_index_none

abbrev pub medium_index_default : ℕ
medium_index_default = medium_index_10_fd

abbrev pub medium_index_undef : ℕ
medium_index_undef = 42
