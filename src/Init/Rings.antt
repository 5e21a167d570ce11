-- ===== src/Init/Rings.antt =====
-- The shared memory after `init_rings`: where everything lies, and that it fits what
-- `lnc_pci_attach` allocates.
use maxxuss_amdpcnet_v.Base.{ℕ, ◌+◌, ◌*◌, ◌%◌, ◌^◌, ◌<◌, ◌≤◌, ◌≡◌, arith}
use maxxuss_amdpcnet_v.Hw.{sizeof_mds, sizeof_init_block}
use maxxuss_amdpcnet_v.World.{Env}
use maxxuss_amdpcnet_v.Softc.{LncSoftc, lnc_recvbufsize, lnc_transbufsize}
use maxxuss_amdpcnet_v.Layout.{lnc_mem_size, trans_ring_at, init_block_at, descriptors_at}
use maxxuss_amdpcnet_v.Layout.Regions.{
  place_descriptors-mem, place_descriptors_lem, fill_recv-mem, fill_recv_lem, fill_trans_lem,
  recv_filled, trans_filled,
}
use maxxuss_amdpcnet_v.Init.{init_rings, iokit_kvtop}

-- The rings have 32 entries each, and the block is aligned and ends within the address space.
pub record IsAllocated (sc : LncSoftc) : Type 0 where
  pub recv_size : sc.nrdre ≡ 5
  pub trans_size : sc.ntdre ≡ 5
  pub aligned : sc.recv_ring % 16 ≡ 0
  pub fits : sc.recv_ring + lnc_mem_size 5 5 ≤ 2 ^ 32

-- The first descriptor's address, and that of the first buffer.
abbrev pub descriptors : LncSoftc → ℕ
descriptors sc = sc.recv_ring + 544

abbrev pub buffers : LncSoftc → ℕ
buffers sc = sc.recv_ring + 1568

init_block_lem :
    (base : ℕ)
    → base % 16 ≡ 0
    → base + lnc_mem_size 5 5 ≤ 2 ^ 32
    → (init_block_at (trans_ring_at base 5) 5 ≡ base + 512)
      × (descriptors_at (base + 512) ≡ base + 544)
unfolding init_block_at trans_ring_at descriptors_at
init_block_lem base a f = omega arith

pub init_block_addr_lem :
    (env : Env) {sc : LncSoftc}
    → IsAllocated sc
    → (init_rings env sc).init_block_addr ≡ sc.recv_ring + 512
unfolding init_rings
init_block_addr_lem env {sc} ok =
    rw (ok.recv_size, ok.trans_size) (init_block_lem sc.recv_ring ok.aligned ok.fits).0

module _ (env : Env) {sc : LncSoftc} (ok : IsAllocated sc) (i : ℕ) (lt : i < 32) where
  pub recv_entry_lem :
      (init_rings env sc).recv_entries i
      ≡ recv_filled
          (iokit_kvtop env sc)
          (record (sc.recv_entries i) { md_addr = descriptors sc + i * sizeof_mds })
          (buffers sc + i * lnc_recvbufsize)
  unfolding init_rings
  recv_entry_lem =
      let at = init_block_lem sc.recv_ring ok.aligned ok.fits in
      rw
        (
          ok.recv_size,
          ok.trans_size,
          at.0,
          at.1,
          place_descriptors-mem 32 0 sc.recv_entries,
          place_descriptors-mem 32 0 sc.trans_entries,
          fill_recv_lem (iokit_kvtop env sc) 32 0,
          place_descriptors_lem 32 0 sc.recv_entries,
        )
        (ground arith)

  pub trans_entry_lem :
      (init_rings env sc).trans_entries i
      ≡ trans_filled
          (iokit_kvtop env sc)
          (record (sc.trans_entries i) { md_addr = descriptors sc + 512 + i * sizeof_mds })
          (buffers sc + 49408 + i * lnc_transbufsize)
  unfolding init_rings
  trans_entry_lem =
      let at = init_block_lem sc.recv_ring ok.aligned ok.fits in
      rw
        (
          ok.recv_size,
          ok.trans_size,
          at.0,
          at.1,
          place_descriptors-mem 32 0 sc.recv_entries,
          place_descriptors-mem 32 0 sc.trans_entries,
          fill_recv-mem (iokit_kvtop env sc) 32 0,
          fill_trans_lem (iokit_kvtop env sc) 32 0,
          place_descriptors_lem 32 0 sc.trans_entries,
        )
        (ground arith)

  -- With the memory allocated, the descriptors of entry `i` are aligned to 16 bytes, and descriptors
  -- and buffers lie behind the initialization block and within the allocated memory.
  pub init_rings_within :
      let t = init_rings env sc in
      let r = t.recv_entries i in
      let x = t.trans_entries i in
      (t.init_block_addr + sizeof_init_block ≤ r.md_addr)
      × (r.md_addr % 16 ≡ 0)
      × (x.md_addr % 16 ≡ 0)
      × (r.md_addr + sizeof_mds ≤ sc.recv_ring + 1056)
      × (sc.recv_ring + 1056 ≤ x.md_addr)
      × (x.md_addr + sizeof_mds ≤ sc.recv_ring + 1568)
      × (sc.recv_ring + 1568 ≤ r.buf_addr)
      × (r.buf_addr + lnc_recvbufsize ≤ sc.recv_ring + 50976)
      × (sc.recv_ring + 50976 ≤ x.buf_addr)
      × (x.buf_addr + lnc_transbufsize ≤ sc.recv_ring + lnc_mem_size 5 5)
  init_rings_within =
      rw (recv_entry_lem, trans_entry_lem, init_block_addr_lem env ok) (omega (arith, ok.aligned))

-- Two entries of the same ring.
module _ (env : Env) {sc : LncSoftc} (ok : IsAllocated sc) (i j : ℕ) (lt : i < j)
    (jt : j < 32) where
  -- With the memory allocated, two entries of a ring share neither a descriptor nor a byte of their
  -- buffers.
  pub init_rings_disjoint :
      let t = init_rings env sc in
      ((t.recv_entries i).md_addr + sizeof_mds ≤ (t.recv_entries j).md_addr)
      × ((t.trans_entries i).md_addr + sizeof_mds ≤ (t.trans_entries j).md_addr)
      × ((t.recv_entries i).buf_addr + lnc_recvbufsize ≤ (t.recv_entries j).buf_addr)
      × ((t.trans_entries i).buf_addr + lnc_transbufsize ≤ (t.trans_entries j).buf_addr)
  init_rings_disjoint =
      rw
        (
          recv_entry_lem env ok i (omega arith),
          trans_entry_lem env ok i (omega arith),
          recv_entry_lem env ok j jt,
          trans_entry_lem env ok j jt,
        )
        (omega arith)
