-- ===== src/Layout.antt =====
-- The one block of memory that driver and chip share: its size in `lnc_pci_attach` and the addresses
-- that `lnc_init` gives out in it (Source/PCNet_lnc.cpp). Addresses are 32 bits wide.
pub mod Regions
use maxxuss_amdpcnet_v.Base.{ℕ, ◌+◌, ◌*◌, ◌/◌, ◌%◌, ◌^◌, ◌-◌, zero, suc, u32, neg16, update}
use maxxuss_amdpcnet_v.Hw.{Mds, sizeof_mds, sizeof_init_block}
use maxxuss_amdpcnet_v.Hw.Descriptors.{rmd_own}
use maxxuss_amdpcnet_v.Softc.{
  HostRingEntry, lnc_ndesc, lnc_recvbufsize, lnc_transbufsize, lnc_mem_slew, sizeof_host_ring_entry,
}

-- `lnc_mem_size` for rings of 2 ^ nrdre and 2 ^ ntdre descriptors.
abbrev pub lnc_mem_size : ℕ → ℕ → ℕ
lnc_mem_size nrdre ntdre =
    let rings = (lnc_ndesc nrdre + lnc_ndesc ntdre) * sizeof_host_ring_entry in
    let descriptors =
      sizeof_init_block + sizeof_mds * (lnc_ndesc nrdre + lnc_ndesc ntdre) + lnc_mem_slew + 0x20 in
    let buffers = lnc_ndesc nrdre * lnc_recvbufsize + lnc_ndesc ntdre * lnc_transbufsize in
    rings + descriptors + buffers

-- `sc.trans_ring = sc.recv_ring + LNC_NDESC(sc.nrdre)`.
unfoldable pub trans_ring_at : ℕ → ℕ → ℕ
trans_ring_at recv_ring nrdre = recv_ring + lnc_ndesc nrdre * sizeof_host_ring_entry

-- The end of the entries, rounded up to a multiple of two: `(lnc_mem + 1) & ~1`, then `& ~1`.
unfoldable pub init_block_at : ℕ → ℕ → ℕ
init_block_at trans_ring ntdre =
    u32 (trans_ring + lnc_ndesc ntdre * sizeof_host_ring_entry + 1) / 2 * 2 / 2 * 2

-- Behind the initialization block, rounded up to a multiple of sixteen: `(lnc_mem + 0xF) & ~0xF`.
unfoldable pub descriptors_at : ℕ → ℕ
descriptors_at init_block = u32 (init_block + sizeof_init_block + 0xf) / 16 * 16

-- `n` rounds from entry `i` on of the loops that set the `md` pointers; `lnc_mem` is the address that
-- the next descriptor gets.
unfoldable pub place_descriptors : ℕ → ℕ → (ℕ → HostRingEntry) → ℕ → (ℕ → HostRingEntry) × ℕ
place_descriptors zero i ring lnc_mem = (ring, lnc_mem)
place_descriptors (suc n) i ring lnc_mem =
    place_descriptors n (i + 1) (update ring i (record (ring i) { md_addr = lnc_mem }))
      (lnc_mem + sizeof_mds)

module _ (kvtop : ℕ → ℕ) where
  -- The loop that fills the receive ring, by the physical address of each address.
  unfoldable pub fill_recv : ℕ → ℕ → (ℕ → HostRingEntry) → ℕ → (ℕ → HostRingEntry) × ℕ
  fill_recv zero i ring lnc_mem = (ring, lnc_mem)
  fill_recv (suc n) i ring lnc_mem =
      let md' : Mds = record ((ring i).md) {
        buffer = kvtop lnc_mem;
        msg_size = neg16 lnc_recvbufsize;
        status = rmd_own;
        rx_msg_length = 0;
      } in
      fill_recv n (i + 1) (update ring i (record (ring i) { md = md'; buf_addr = lnc_mem }))
        (lnc_mem + lnc_recvbufsize)

  -- The same for the transmit ring.
  unfoldable pub fill_trans : ℕ → ℕ → (ℕ → HostRingEntry) → ℕ → (ℕ → HostRingEntry) × ℕ
  fill_trans zero i ring lnc_mem = (ring, lnc_mem)
  fill_trans (suc n) i ring lnc_mem =
      let md' : Mds = record ((ring i).md) {
        buffer = kvtop lnc_mem;
        msg_size = 0;
        status = 0;
        ext_status = 0;
      } in
      fill_trans n (i + 1) (update ring i (record (ring i) { md = md'; buf_addr = lnc_mem }))
        (lnc_mem + lnc_transbufsize)
