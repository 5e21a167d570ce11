-- ===== src/Examples/Rings.antt =====
-- The theorems on the rings, the memory and the multicast filter at concrete states.
use maxxuss_amdpcnet_v.Base.{
  ℕ, ◌+◌, ◌/◌, ◌%◌, ◌^◌, ◌<◌, ◌≤◌, ◌≡◌, refl, arith, Bool, true, false, List, [], ◌∷◌, none, some,
  has,
}
use maxxuss_amdpcnet_v.Hw.{sizeof_mds, sizeof_init_block}
use maxxuss_amdpcnet_v.Softc.{lnc_recvbufsize, lnc_transbufsize, lnc_iff_drv_oactive}
use maxxuss_amdpcnet_v.State.{PcNet}
use maxxuss_amdpcnet_v.Multicast.{ether_crc32_le, hash_index, lnc_setladrf, lnc_set_multicast}
use maxxuss_amdpcnet_v.Multicast.Crc.{ether_crc32_le_reference, reference_bytes}
use maxxuss_amdpcnet_v.Multicast.Filter.{hash_index-lt, lnc_setladrf_lem, bit_at, has_hash, IsBytes}
use maxxuss_amdpcnet_v.Multicast.Program.{lnc_set_multicast_ignores_addresses}
use maxxuss_amdpcnet_v.Layout.{lnc_mem_size}
use maxxuss_amdpcnet_v.Init.{init_rings}
use maxxuss_amdpcnet_v.Init.Rings.{init_rings_within, init_rings_disjoint}
use maxxuss_amdpcnet_v.Tx.{enqueue, lnc_output_packet, output_success, output_stall, lnc_tint}
use maxxuss_amdpcnet_v.Tx.Output.{
  Taken, lnc_output_packet_full, lnc_output_packet-Taken, lnc_output_packet_busy,
}
use maxxuss_amdpcnet_v.Tx.Drain.{lnc_tint-Drained, reclaimable, Drained}
use maxxuss_amdpcnet_v.Tx.Frame.{TxOnly}
use maxxuss_amdpcnet_v.Tx.Idle.{lnc_tint_idle}
use maxxuss_amdpcnet_v.Rx.{lnc_rint}
use maxxuss_amdpcnet_v.Rx.Waiting.{waiting, Emptied}
use maxxuss_amdpcnet_v.Rx.Drain.{lnc_rint-Emptied}
use maxxuss_amdpcnet_v.Examples.{
  quiet, soft, driver, soft-TxValid, soft-RxValid, soft-IsAllocated, soft_sent, soft_sent-TxValid,
  soft_full, soft_full-TxValid, packet, packet-Fits,
}

full_ring_refuses : lnc_output_packet packet (driver soft_full) ≡ (output_stall, driver soft_full)
full_ring_refuses = lnc_output_packet_full packet (driver soft_full) soft_full-TxValid refl

lnc_output_packet-Taken_example :
    ((lnc_output_packet packet (driver soft)).0 ≡ output_success)
    × Taken packet (driver soft) (lnc_output_packet packet (driver soft)).1
lnc_output_packet-Taken_example =
    lnc_output_packet-Taken packet (driver soft) packet-Fits soft-TxValid (omega arith)

lnc_output_packet_busy_example :
    has (lnc_output_packet packet (driver soft)).1.sc.if_drv_flags lnc_iff_drv_oactive ≡ false
lnc_output_packet_busy_example =
    lnc_output_packet_busy packet (driver soft) soft-TxValid (omega arith)

lnc_tint-Drained_example :
    (t : PcNet) × (lnc_tint quiet 33 (driver soft_sent) ≡ some (true, t))
    × Drained soft_sent t.sc (reclaimable soft_sent)
    × TxOnly (driver soft_sent) t
unfolding enqueue
lnc_tint-Drained_example =
    lnc_tint-Drained quiet 32 (driver soft_sent) (omega arith) soft_sent-TxValid (omega arith)
      (λ k h. ground arith)

lnc_tint_idle_example : lnc_tint quiet 1000 (driver soft) ≡ none
lnc_tint_idle_example = lnc_tint_idle quiet 1000 (driver soft) soft-TxValid refl

lnc_rint-Emptied_example :
    (r : Bool × PcNet) × (lnc_rint quiet 34 false (driver soft) ≡ some (r.0, r.1))
    × Emptied (waiting soft 32 0) (driver soft) r.1
lnc_rint-Emptied_example =
    lnc_rint-Emptied quiet 32 false (driver soft) (omega arith) (λ tr n. refl) soft-RxValid

abbrev all_hosts : List ℕ
all_hosts = 0x01 ∷ 0x00 ∷ 0x5e ∷ 0x00 ∷ 0x00 ∷ 0x01 ∷ []

all_hosts-IsBytes : IsBytes all_hosts
all_hosts-IsBytes = omega arith

ether_crc32_le_reference_example : ether_crc32_le all_hosts ≡ reference_bytes 0xffff_ffff all_hosts
ether_crc32_le_reference_example = ether_crc32_le_reference all_hosts

hash_index-lt_example : hash_index all_hosts / 2 ^ 3 < 8
hash_index-lt_example = hash_index-lt all_hosts all_hosts-IsBytes

lnc_setladrf_lem_example :
    (bit_at (lnc_setladrf (some (all_hosts ∷ [])) (driver soft)).sc.ladrb 9
      ≡ has_hash (all_hosts ∷ []) 9)
    × (bit_at (lnc_setladrf none (driver soft)).sc.ladrb 9 ≡ false)
lnc_setladrf_lem_example =
    lnc_setladrf_lem (all_hosts ∷ []) (driver soft) 9 (omega arith) (λ i. omega arith) refl

lnc_set_multicast_ignores_addresses_example :
    (lnc_set_multicast quiet (some (all_hosts ∷ [])) (driver soft)).trace
    ≡ (lnc_set_multicast quiet none (driver soft)).trace
lnc_set_multicast_ignores_addresses_example =
    lnc_set_multicast_ignores_addresses quiet (some (all_hosts ∷ [])) none (driver soft)

init_rings_within_example :
    let t = init_rings quiet soft in
    let r = t.recv_entries 31 in
    let x = t.trans_entries 31 in
    (t.init_block_addr + sizeof_init_block ≤ r.md_addr)
    × (r.md_addr % 16 ≡ 0)
    × (x.md_addr % 16 ≡ 0)
    × (r.md_addr + sizeof_mds ≤ soft.recv_ring + 1056)
    × (soft.recv_ring + 1056 ≤ x.md_addr)
    × (x.md_addr + sizeof_mds ≤ soft.recv_ring + 1568)
    × (soft.recv_ring + 1568 ≤ r.buf_addr)
    × (r.buf_addr + lnc_recvbufsize ≤ soft.recv_ring + 50976)
    × (soft.recv_ring + 50976 ≤ x.buf_addr)
    × (x.buf_addr + lnc_transbufsize ≤ soft.recv_ring + lnc_mem_size 5 5)
init_rings_within_example = init_rings_within quiet soft-IsAllocated 31 (omega arith)

init_rings_disjoint_example :
    let t = init_rings quiet soft in
    ((t.recv_entries 3).md_addr + sizeof_mds ≤ (t.recv_entries 4).md_addr)
    × ((t.trans_entries 3).md_addr + sizeof_mds ≤ (t.trans_entries 4).md_addr)
    × ((t.recv_entries 3).buf_addr + lnc_recvbufsize ≤ (t.recv_entries 4).buf_addr)
    × ((t.trans_entries 3).buf_addr + lnc_transbufsize ≤ (t.trans_entries 4).buf_addr)
init_rings_disjoint_example =
    init_rings_disjoint quiet soft-IsAllocated 3 4 (omega arith) (omega arith)
