-- ===== src/Softc.antt =====
-- `struct host_ring_entry`, `struct lnc_softc` and the ring macros of Source/PCNet_lnc.h, with the
-- sizes of Source/PCNet_Var.h.
use maxxuss_amdpcnet_v.Base.{ℕ, ◌+◌, ◌^◌, Bool, leb, if◌then◌else◌, update}
use maxxuss_amdpcnet_v.Hw.{Mds, InitBlock, ether_max_len}

abbrev pub lnc_ntdre : ℕ
lnc_ntdre = 5

abbrev pub lnc_nrdre : ℕ
lnc_nrdre = 5

abbrev pub lnc_recvbufsize : ℕ
lnc_recvbufsize = ether_max_len

abbrev pub lnc_transbufsize : ℕ
lnc_transbufsize = ether_max_len

abbrev pub lnc_mem_slew : ℕ
lnc_mem_slew = 16

abbrev pub lnc_initialised : ℕ
lnc_initialised = 1

abbrev pub lnc_iff_broadcast : ℕ
lnc_iff_broadcast = 0x1

abbrev pub lnc_iff_drv_running : ℕ
lnc_iff_drv_running = 0x2

abbrev pub lnc_iff_promisc : ℕ
lnc_iff_promisc = 0x4

abbrev pub lnc_iff_allmulti : ℕ
lnc_iff_allmulti = 0x8

abbrev pub lnc_iff_drv_oactive : ℕ
lnc_iff_drv_oactive = 0x10

abbrev pub lnc_iff_simplex : ℕ
lnc_iff_simplex = 0x20

abbrev pub lnc_iff_multicast : ℕ
lnc_iff_multicast = 0x40

-- A ring entry: the descriptor that `md` points to, the address in that pointer, and the address
-- of the packet buffer. `Layout.Regions` shows that two entries never share a descriptor.
pub record HostRingEntry : Type 0 where
  pub md : Mds
  pub md_addr : ℕ
  pub buf_addr : ℕ

-- `sizeof(struct host_ring_entry)` with 32-bit pointers.
abbrev pub sizeof_host_ring_entry : ℕ
sizeof_host_ring_entry = 4 + 4

-- The soft state. A ring pointer is its address, 0 for null, beside the entries it points to;
-- `mem_descr` says whether that pointer is set.
pub record LncSoftc : Type 0 where
  pub mem_descr : Bool
  pub nrdre : ℕ
  pub recv_ring : ℕ
  pub recv_entries : ℕ → HostRingEntry
  pub recv_next : ℕ
  pub ntdre : ℕ
  pub trans_ring : ℕ
  pub trans_entries : ℕ → HostRingEntry
  pub trans_next : ℕ
  pub init_block_addr : ℕ
  pub init_block : InitBlock
  pub pending_transmits : ℕ
  pub next_to_send : ℕ
  pub ladrb : ℕ → ℕ
  pub dwio : Bool
  pub flags : ℕ
  pub nic_mode : ℕ
  pub if_drv_flags : ℕ
  pub if_flags : ℕ

abbrev pub lnc_ndesc : ℕ → ℕ
lnc_ndesc len2 = 2 ^ len2

-- `LNC_INC_MD_PTR(ptr, no_entries)`, the new value of `ptr`.
abbrev pub lnc_inc_md_ptr : ℕ → ℕ → ℕ
lnc_inc_md_ptr ptr no_entries = if leb (lnc_ndesc no_entries) (ptr + 1) then 0 else ptr + 1

-- Stores through the `md` pointer of a ring entry.
abbrev pub set_status : (ℕ → HostRingEntry) → ℕ → ℕ → ℕ → HostRingEntry
set_status ring i v = update ring i (record (ring i) { md = record ((ring i).md) { status = v } })

abbrev pub set_md : (ℕ → HostRingEntry) → ℕ → Mds → ℕ → HostRingEntry
set_md ring i m = update ring i (record (ring i) { md = m })
