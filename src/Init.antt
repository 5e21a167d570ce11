-- ===== src/Init.antt =====
-- Setting up the adapter, Source/PCNet_lnc.cpp: `lnc_pci_attach`, `lnc_attach_common`, `lnc_init` in
-- its parts, and `lnc_reset`. The memory's base address is `sc.recv_ring`.
pub mod Rings
pub mod Frame
pub mod Ready
pub mod Block
pub mod Programmed
use maxxuss_amdpcnet_v.Base.{
  ℕ, zero, suc, ◌+◌, ◌-◌, ◌*◌, ◌/◌, ◌%◌, ◌^◌, ◌==◌, Bool, true, false, ◌&&◌, bit_and, bit_or, u16,
  u32, neg16, not32, has, update, ltb, if◌then◌else◌,
}
use maxxuss_amdpcnet_v.World.{Env, make_buffer, prepare_buffer, sleep, service_queue_async}
use maxxuss_amdpcnet_v.Hw.{Mds, InitBlock, ether_addr_len, multicast_filter_len, medium_index_10_fd}
use maxxuss_amdpcnet_v.Hw.Registers.{
  csr, csr_init, csr_idon, mode_normal, lnkst, lnkst_fdlse, lnkst_lnkste, init_block_address_low,
  init_block_address_high, feature_control, csr4_apad_xmt, csr4_mfcom, csr4_rcvccom, csr4_txstrtm,
  csr4_jabm,
}
use maxxuss_amdpcnet_v.Hw.Descriptors.{rmd_own}
use maxxuss_amdpcnet_v.Softc.{
  LncSoftc, HostRingEntry, lnc_nrdre, lnc_ntdre, lnc_ndesc, lnc_recvbufsize, lnc_iff_broadcast,
  lnc_iff_simplex, lnc_iff_multicast, lnc_iff_drv_running, lnc_iff_drv_oactive, lnc_initialised,
}
use maxxuss_amdpcnet_v.State.{PcNet, with_sc, act, ask}
use maxxuss_amdpcnet_v.Port.{
  csr_read8, read_csr, read_csr_wio, read_csr_dwio, write_csr, read_bcr, write_bcr, pcnet32_stop,
  pcnet32_start, pcnet32_reset, pcnet32_check_wio,
}
use maxxuss_amdpcnet_v.Layout.{
  trans_ring_at, init_block_at, descriptors_at, place_descriptors, fill_recv, fill_trans,
}
use maxxuss_amdpcnet_v.Medium.{lnc_set_medium}
use maxxuss_amdpcnet_v.Multicast.{fill}

-- `for (i = 0; i < n; i++) b[i] = a[i]`.
unfoldable pub copy : ℕ → (ℕ → ℕ) → (ℕ → ℕ) → ℕ → ℕ
copy zero a b = b
copy (suc n) a b = update (copy n a b) n (a n)

unfoldable pub lnc_attach_common : PcNet → Bool × PcNet
unfolding fill
lnc_attach_common s = (
  true,
  with_sc
      (record s.sc {
        nic_mode = mode_normal;
        if_flags = bit_or (bit_or lnc_iff_broadcast lnc_iff_simplex) lnc_iff_multicast;
        ladrb = fill multicast_filter_len 0 s.sc.ladrb;
      })
      s,
)

module _ (env : Env) where
  -- `sc.memDescr` is set whenever the buffer object was made, also if preparing it fails.
  unfoldable pub lnc_pci_attach : PcNet → Bool × PcNet
  unfolding lnc_attach_common
  lnc_pci_attach s =
      let s1 = with_sc (record s.sc { nrdre = lnc_nrdre; ntdre = lnc_ntdre }) s in
      let (made, s2) = ask env make_buffer s1 in
      let s3 = with_sc (record s2.sc { mem_descr = made }) s2 in
      if made
      then (let (prepared, s4) = ask env prepare_buffer s3 in
          if prepared
          then lnc_attach_common
              (with_sc (record s4.sc { recv_ring = u32 (env.bytes s4.trace) }) s4)
          else (false, s4))
      else (false, s3)

  -- Whether the chip answers in 16-bit or in 32-bit mode. The second test, too, checks the 16-bit
  -- address port.
  unfoldable pub probe_dwio : PcNet → Bool × PcNet
  unfolding read_csr_wio read_csr_dwio pcnet32_check_wio
  probe_dwio s =
      let (w, s1) = read_csr_wio env 0 s in
      let (w_ok, s2) = if w == 4 then pcnet32_check_wio env s1 else (false, s1) in
      if w_ok
      then (false, s2)
      else (let (d, s3) = read_csr_dwio env 0 s2 in
          let (d_ok, s4) = if d == 4 then pcnet32_check_wio env s3 else (false, s3) in
          if d_ok then (true, s4) else (true, s4))

  -- `iokit_kvtop(sc.memDescr, (char*)sc.recv_ring, adr)`.
  abbrev pub iokit_kvtop : LncSoftc → ℕ → ℕ
  iokit_kvtop sc adr = u32 (env.physical (u32 (adr + 2 ^ 32 - sc.recv_ring)))

  -- The pointers, both rings and the indices, as `lnc_init` sets them up from `sc.recv_ring` on.
  unfoldable pub init_rings : LncSoftc → LncSoftc
  init_rings sc =
      let trans_ring = trans_ring_at sc.recv_ring sc.nrdre in
      let init_block_addr = init_block_at trans_ring sc.ntdre in
      let (recv1, mem1) =
        place_descriptors (lnc_ndesc sc.nrdre) 0 sc.recv_entries (descriptors_at init_block_addr) in
      let (trans1, mem2) = place_descriptors (lnc_ndesc sc.ntdre) 0 sc.trans_entries mem1 in
      let (recv2, mem3) = fill_recv (iokit_kvtop sc) (lnc_ndesc sc.nrdre) 0 recv1 mem2 in
      let (trans2, mem4) = fill_trans (iokit_kvtop sc) (lnc_ndesc sc.ntdre) 0 trans1 mem3 in
      record sc {
        recv_next = 0;
        trans_ring = trans_ring;
        trans_next = 0;
        init_block_addr = init_block_addr;
        recv_entries = recv2;
        trans_entries = trans2;
        next_to_send = 0;
      }

  -- `for (i = 0; i < ETHER_ADDR_LEN; i++) phys_addr[i] = lnc_inb(i)`, `n` rounds from `i` on.
  unfoldable pub read_station_address : ℕ → ℕ → PcNet → PcNet
  read_station_address zero i s = s
  read_station_address (suc n) i s =
      let (v, s1) = csr_read8 env i s in
      let block = s1.sc.init_block in
      read_station_address n (i + 1) (
        with_sc
          (record s1.sc { init_block = record block { phys_addr = update block.phys_addr i v } })
          s1)

  -- The rest of the initialization block, and what the driver counts from there.
  unfoldable pub fill_init_block : LncSoftc → LncSoftc
  fill_init_block sc = record sc {
    init_block = record (sc.init_block) {
      mode = u16 sc.nic_mode;
      tlen_rlen = u16 (bit_or (sc.ntdre * 2 ^ 12) (sc.nrdre * 2 ^ 4));
      ladrb = copy multicast_filter_len sc.ladrb sc.init_block.ladrb;
      rx_ring = iokit_kvtop sc (sc.recv_entries 0).md_addr;
      tx_ring = iokit_kvtop sc (sc.trans_entries 0).md_addr;
    };
    flags = bit_or sc.flags lnc_initialised;
    pending_transmits = 0;
  }

  -- Reset, and the registers from `write_bcr(20, 2)` to the start of the initialization.
  unfoldable pub program_chip : PcNet → PcNet
  program_chip s =
      let s1 = write_bcr 20 2 (pcnet32_reset env s) in
      let (_, s2) = lnc_set_medium env medium_index_10_fd s1 in
      let (val, s3) = read_bcr env lnkst s2 in
      let s4 = write_bcr lnkst (bit_or (bit_or val lnkst_fdlse) lnkst_lnkste) s3 in
      let block = iokit_kvtop s4.sc s4.sc.init_block_addr in
      let s5 = write_csr init_block_address_low (bit_and block 0xffff) s4 in
      let s6 = write_csr init_block_address_high (u16 (block / 2 ^ 16)) s5 in
      let features =
        bit_or (bit_or (bit_or (bit_or csr4_apad_xmt csr4_mfcom) csr4_rcvccom) csr4_txstrtm)
          csr4_jabm in
      write_csr csr csr_init (write_csr feature_control features s6)

  -- `for (i = 0; i < 1000; i++) if (read_csr(CSR) & CSR_IDON) break;`
  unfoldable pub wait_idon : ℕ → PcNet → PcNet
  wait_idon zero s = s
  wait_idon (suc n) s =
      let (v, s1) = read_csr env csr s in
      let rest = wait_idon n s1 in if has v csr_idon then s1 else rest

  abbrev pub idon_polls : ℕ
  idon_polls = 1000

  -- The last part of `lnc_init`: the chip is started if its initialization is done.
  unfoldable pub start_chip : PcNet → PcNet
  start_chip s =
      let (v, s1) = read_csr env csr s in
      if has v csr_idon
      then (let s2 = pcnet32_start s1 in
          let running = bit_or s2.sc.if_drv_flags lnc_iff_drv_running in
          let s3 =
            with_sc (record s2.sc { if_drv_flags = bit_and running (not32 lnc_iff_drv_oactive) })
              s2 in
          if s3.transmit_queue then act service_queue_async s3 else s3)
      else s1

  -- What `lnc_init` does to the soft state after probing.
  unfoldable pub prepare_memory : Bool → PcNet → PcNet
  prepare_memory dwio' s =
      let flagged = record s.sc {
        dwio = dwio';
        if_flags =
            bit_or s.sc.if_flags
              (bit_or (bit_or lnc_iff_broadcast lnc_iff_simplex) lnc_iff_multicast);
      } in
      let s1 = read_station_address ether_addr_len 0 (with_sc (init_rings flagged) s) in
      with_sc (fill_init_block s1.sc) s1

  unfoldable pub lnc_init : PcNet → PcNet
  lnc_init s =
      let (dwio', s1) = probe_dwio (pcnet32_stop s) in
      start_chip (wait_idon idon_polls (program_chip (prepare_memory dwio' s1)))

  unfoldable pub lnc_reset : PcNet → PcNet
  lnc_reset s = lnc_init (act (sleep 20) (pcnet32_reset env (pcnet32_stop s)))
