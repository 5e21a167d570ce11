-- ===== src/Examples.antt =====
-- Concrete states of the driver, for the theorems that have conditions.
mod Control
mod Runs
mod Setup
mod Rings
mod Interrupt
mod Clients
mod Accesses
mod Recovery
use maxxuss_amdpcnet_v.Base.{
  ℕ, ◌+◌, ◌-◌, ◌*◌, ◌/◌, ◌%◌, ◌^◌, ◌<◌, ◌≤◌, ◌≡◌, refl, arith, Bool, true, false, ◌==◌, ◌||◌, List,
  [], ◌∷◌, Option, none, some, has, bit_or, if◌then◌else◌,
}
use mathlib.Core.List.{flatten}
use maxxuss_amdpcnet_v.World.{Env}
use maxxuss_amdpcnet_v.Hw.{Mds, InitBlock, sizeof_mds, sizeof_init_block}
use maxxuss_amdpcnet_v.Hw.Descriptors.{
  rmd_own, rmd_err, rmd_stp, rmd_enp, tmd_own, tmd_stp, tmd_enp,
}
use maxxuss_amdpcnet_v.Softc.{
  LncSoftc, HostRingEntry, lnc_recvbufsize, lnc_transbufsize, lnc_iff_drv_oactive, lnc_iff_allmulti,
  set_md,
}
use maxxuss_amdpcnet_v.State.{Counters, PcNet, with_sc}
use maxxuss_amdpcnet_v.Multicast.{ether_crc32_le, hash_index, lnc_setladrf, lnc_set_multicast}
use maxxuss_amdpcnet_v.Multicast.Crc.{ether_crc32_le_reference, reference_bytes}
use maxxuss_amdpcnet_v.Multicast.Filter.{hash_index-lt, lnc_setladrf_lem, bit_at, has_hash, IsBytes}
use maxxuss_amdpcnet_v.Multicast.Program.{lnc_set_multicast_ignores_addresses}
use maxxuss_amdpcnet_v.Layout.{lnc_mem_size}
use maxxuss_amdpcnet_v.Init.{init_rings}
use maxxuss_amdpcnet_v.Init.Rings.{IsAllocated, init_rings_within, init_rings_disjoint}
use maxxuss_amdpcnet_v.Tx.{Mbuf, enqueue, lnc_output_packet, output_success, output_stall, lnc_tint}
use maxxuss_amdpcnet_v.Tx.Ring.{TxValid, enqueue-TxValid, ChipStep, transmit, ChipStep-TxValid}
use maxxuss_amdpcnet_v.Tx.Output.{
  Fits, Taken, lnc_output_packet_full, lnc_output_packet-Taken, lnc_output_packet_busy,
}
use maxxuss_amdpcnet_v.Tx.Drain.{lnc_tint-Drained, reclaimable, Drained}
use maxxuss_amdpcnet_v.Tx.Frame.{TxOnly}
use maxxuss_amdpcnet_v.Tx.Idle.{lnc_tint_idle}
use maxxuss_amdpcnet_v.Rx.{lnc_rint}
use maxxuss_amdpcnet_v.Rx.Ring.{RxValid}
use maxxuss_amdpcnet_v.Rx.Waiting.{waiting, Emptied}
use maxxuss_amdpcnet_v.Rx.Drain.{lnc_rint-Emptied}

-- A chip whose registers read 0, and an I/O Kit where every call succeeds.
abbrev pub quiet : Env
quiet = record {
  port8 = λ tr a. 0;
  port16 = λ tr a. 0;
  port32 = λ tr a. 0;
  config16 = λ tr a. 0;
  answer = λ tr c. true;
  physical = λ n. 0x4000_0000 + n;
  bytes = λ tr. 0x10_0000;
  selected_medium = λ tr. none;
  past_ladrb = λ tr i. 0;
  fresh_byte = λ tr i. 0;
}

abbrev no_counts : Counters
no_counts = record {
  input_packets = 0;
  input_errors = 0;
  output_packets = 0;
  output_errors = 0;
  sqe_test_errors = 0;
  missed_frames = 0;
  alignment_errors = 0;
  fcs_errors = 0;
  late_collisions = 0;
  carrier_sense_errors = 0;
  excessive_collisions = 0;
  multiple_collision_frames = 0;
  single_collision_frames = 0;
  rx_interrupts = 0;
  rx_resets = 0;
  rx_resource_errors = 0;
  tx_interrupts = 0;
  tx_resets = 0;
  tx_phy_errors = 0;
  tx_underruns = 0;
}

abbrev descriptor : ℕ → ℕ → Mds
descriptor status length' = record {
  buffer = 0;
  msg_size = 0;
  status = status;
  rx_msg_length = length';
  ext_status = 0;
}

abbrev pub entry : ℕ → ℕ → ℕ → HostRingEntry
entry at status length' = record { md = descriptor status length'; md_addr = 0; buf_addr = at }

-- An empty transmit ring, and a receive ring whose first descriptor holds a frame of 64 bytes.
abbrev pub soft : LncSoftc
soft = record {
  mem_descr = true;
  nrdre = 5;
  recv_ring = 0x10_0000;
  recv_entries =
      λ i. if i == 0 then entry 0x20_0000 0x0300 64 else entry (0x20_0000 + i * 1544) 0x8000 0;
  recv_next = 0;
  ntdre = 5;
  trans_ring = 0x10_0100;
  trans_entries = λ i. entry (0x30_0000 + i * 1544) 0 0;
  trans_next = 0;
  init_block_addr = 0x10_0200;
  init_block = record {
    mode = 0;
    tlen_rlen = 0;
    phys_addr = λ i. 7;
    ladrb = λ i. 0;
    rx_ring = 0;
    tx_ring = 0;
  };
  pending_transmits = 0;
  next_to_send = 0;
  ladrb = λ i. 0;
  dwio = true;
  flags = 1;
  nic_mode = 0;
  if_drv_flags = 2;
  if_flags = 0x61;
}

abbrev pub driver : LncSoftc → PcNet
driver sc = record {
  netif = true;
  pci_nub = true;
  work_loop = true;
  interrupt_src = true;
  transmit_queue = true;
  timer_src = true;
  counters = no_counts;
  net_stats = true;
  ether_stats = true;
  csr_map = true;
  medium_dict = true;
  medium_table = λ i. some i;
  current_level = 2;
  enabled_by_bsd = true;
  enabled_by_kdp = false;
  interrupt_enabled = true;
  current_medium_index = 1;
  medium_index_last_reported = 1;
  sc = sc;
  mem = λ i. i % 256;
  trace = [];
}

pub soft-TxValid : TxValid soft
soft-TxValid = record {
  size = refl;
  next_in = omega arith;
  pending_in = omega arith;
  order = refl;
  starts = λ k h. absurd (omega arith);
  ends = λ k h. absurd (omega arith);
  free = λ k h l. refl;
}

pub soft-RxValid : RxValid soft
soft-RxValid = record {
  size = refl;
  next_in = omega arith;
  single = λ i h p. ground arith;
  long = λ i h p e. ground arith;
}

pub soft-IsAllocated : IsAllocated soft
soft-IsAllocated = record {
  recv_size = refl;
  trans_size = refl;
  aligned = refl;
  fits = omega arith;
}

-- The ring with one packet, which the chip has not sent yet.
abbrev soft_one : LncSoftc
soft_one = enqueue soft 64

-- The same after the chip has sent it.
abbrev pub soft_sent : LncSoftc
soft_sent = record soft_one {
  trans_entries = set_md soft_one.trans_entries 0 (descriptor 0x0300 0);
}

soft_one-TxValid : TxValid soft_one
soft_one-TxValid = enqueue-TxValid 64 soft-TxValid (omega arith)

sending : ChipStep soft_one soft_sent
unfolding enqueue
sending = transmit soft_one 0 (descriptor 0x0300 0) refl refl refl

pub soft_sent-TxValid : TxValid soft_sent
soft_sent-TxValid = ChipStep-TxValid sending soft_one-TxValid

-- A full ring, by its counts.
abbrev pub soft_full : LncSoftc
soft_full = record soft {
  trans_entries = λ i. entry (0x30_0000 + i * 1544) 0x8300 0;
  pending_transmits = 32;
}

pub soft_full-TxValid : TxValid soft_full
soft_full-TxValid = record {
  size = refl;
  next_in = omega arith;
  pending_in = omega arith;
  order = refl;
  starts = λ k h. refl;
  ends = λ k h. refl;
  free = λ k h l. absurd (omega arith);
}

abbrev pub packet : Mbuf
packet = record { pkthdr_len = 5; chain = (1 ∷ 2 ∷ 3 ∷ []) ∷ (4 ∷ 5 ∷ []) ∷ [] }

pub packet-Fits : Fits packet
unfolding flatten
packet-Fits = record { stated = refl; small = omega arith }
