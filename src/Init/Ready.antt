-- ===== src/Init/Ready.antt =====
-- The rings as `lnc_init` leaves them.
use maxxuss_amdpcnet_v.Base.{
  ℕ, zero, suc, ◌+◌, ◌*◌, ◌%◌, ◌<◌, ◌≡◌, refl, arith, ap, ◌∙◌, Bool, bit_or, update, neg16,
}
use maxxuss_amdpcnet_v.World.{Env}
use maxxuss_amdpcnet_v.Hw.{ether_addr_len}
use maxxuss_amdpcnet_v.Hw.Descriptors.{rmd_own}
use maxxuss_amdpcnet_v.Softc.{
  LncSoftc, lnc_iff_broadcast, lnc_iff_simplex, lnc_iff_multicast, lnc_recvbufsize,
  lnc_transbufsize,
}
use maxxuss_amdpcnet_v.State.{PcNet, with_sc}
use maxxuss_amdpcnet_v.Port.{csr_read8, read_csr, pcnet32_stop, pcnet32_start}
use maxxuss_amdpcnet_v.Port.Access.{pcnet32_stop-frame}
use maxxuss_amdpcnet_v.Init.{
  init_rings, fill_init_block, read_station_address, prepare_memory, probe_dwio, program_chip,
  wait_idon, idon_polls, start_chip, lnc_init,
}
use maxxuss_amdpcnet_v.Init.Frame.{probe_dwio-frame, program_chip-frame, wait_idon-frame}
use maxxuss_amdpcnet_v.Init.Rings.{IsAllocated, recv_entry_lem, trans_entry_lem}
use maxxuss_amdpcnet_v.Tx.Ring.{TxValid}
use maxxuss_amdpcnet_v.Rx.Ring.{RxValid}

-- The rings of the soft state: two states that agree on them are ready or not together.
pub record SameRings (a b : LncSoftc) : Type 0 where
  pub nrdre : b.nrdre ≡ a.nrdre
  pub ntdre : b.ntdre ≡ a.ntdre
  pub recv_ring : b.recv_ring ≡ a.recv_ring
  pub recv_entries : b.recv_entries ≡ a.recv_entries
  pub recv_next : b.recv_next ≡ a.recv_next
  pub trans_entries : b.trans_entries ≡ a.trans_entries
  pub trans_next : b.trans_next ≡ a.trans_next
  pub next_to_send : b.next_to_send ≡ a.next_to_send

-- Both rings are queues, no packet is pending, every receive descriptor is the chip's and every
-- transmit descriptor is free.
pub record IsReady (sc : LncSoftc) : Type 0 where
  pub tx : TxValid sc
  pub rx : RxValid sc
  pub idle : sc.pending_transmits ≡ 0
  pub recv_start : sc.recv_next ≡ 0
  pub trans_start : sc.trans_next ≡ 0
  pub chip_owns : (i : ℕ) → i < 32 → (sc.recv_entries i).md.status ≡ rmd_own
  pub room : (i : ℕ) → i < 32 → (sc.recv_entries i).md.msg_size ≡ neg16 lnc_recvbufsize
  pub recv_bufs :
      (i : ℕ) → i < 32 → (sc.recv_entries i).buf_addr ≡ sc.recv_ring + 1568 + i * lnc_recvbufsize
  pub trans_bufs :
      (i : ℕ) → i < 32 → (sc.trans_entries i).buf_addr ≡ sc.recv_ring + 50976 + i * lnc_transbufsize

module _ (env : Env) (sc : LncSoftc) (ok : IsAllocated sc) where
  recv_status_lem : (i : ℕ) → i < 32 → ((init_rings env sc).recv_entries i).md.status ≡ rmd_own
  recv_status_lem i h = ap (λ e. e.md.status) (recv_entry_lem env ok i h)

  recv_size_lem :
      (i : ℕ) → i < 32 → ((init_rings env sc).recv_entries i).md.msg_size ≡ neg16 lnc_recvbufsize
  recv_size_lem i h = ap (λ e. e.md.msg_size) (recv_entry_lem env ok i h)

  trans_status_lem : (i : ℕ) → i < 32 → ((init_rings env sc).trans_entries i).md.status ≡ 0
  trans_status_lem i h = ap (λ e. e.md.status) (trans_entry_lem env ok i h)

  recv_buf_lem :
      (i : ℕ)
      → i < 32
      → ((init_rings env sc).recv_entries i).buf_addr ≡ sc.recv_ring + 1568 + i * lnc_recvbufsize
  recv_buf_lem i h = ap (λ e. e.buf_addr) (recv_entry_lem env ok i h)

  trans_buf_lem :
      (i : ℕ)
      → i < 32
      → ((init_rings env sc).trans_entries i).buf_addr ≡ sc.recv_ring + 50976 + i * lnc_transbufsize
  trans_buf_lem i h = ap (λ e. e.buf_addr) (trans_entry_lem env ok i h) ∙ omega arith

  init_rings_base : (init_rings env sc).recv_ring ≡ sc.recv_ring
  unfolding init_rings
  init_rings_base = refl

  pub init_rings_next :
      let t = init_rings env sc in
      (t.nrdre ≡ 5) × (t.ntdre ≡ 5) × (t.recv_next ≡ 0) × (t.trans_next ≡ 0) × (t.next_to_send ≡ 0)
  unfolding init_rings
  init_rings_next = (ok.recv_size, ok.trans_size, refl, refl, refl)

  IsReady-SameRings :
      (t : LncSoftc) → SameRings (init_rings env sc) t → t.pending_transmits ≡ 0 → IsReady t
  IsReady-SameRings t e p =
      let (a, b, c, d, f) = init_rings_next in
      record {
        tx = record {
          size = e.ntdre ∙ b;
          next_in = omega (arith, e.trans_next, d);
          pending_in = omega (arith, p);
          order = omega (arith, e.trans_next, e.next_to_send, d, f, p);
          starts = λ k h. absurd (omega (arith, p));
          ends = λ k h. absurd (omega (arith, p));
          free = λ k h l.
              rw (e.trans_entries) (trans_status_lem ((t.trans_next + k) % 32) (omega arith));
        };
        rx = record {
          size = e.nrdre ∙ a;
          next_in = omega (arith, e.recv_next, c);
          single = λ i h. rw (e.recv_entries, recv_status_lem i h) (λ q. ground (arith, q));
          long = λ i h. rw (e.recv_entries, recv_status_lem i h) (λ q. ground (arith, q));
        };
        idle = p;
        recv_start = e.recv_next ∙ c;
        trans_start = e.trans_next ∙ d;
        chip_owns = λ i h. rw (e.recv_entries) (recv_status_lem i h);
        room = λ i h. rw (e.recv_entries) (recv_size_lem i h);
        recv_bufs = λ i h. rw (e.recv_entries, e.recv_ring, init_rings_base) (recv_buf_lem i h);
        trans_bufs = λ i h. rw (e.trans_entries, e.recv_ring, init_rings_base) (trans_buf_lem i h);
      }

module _ (env : Env) where
  -- The address bytes are read into the initialization block.
  pub read_station_address-sc :
      (n i : ℕ) (s : PcNet)
      → (read_station_address env n i s).sc
        ≡ record s.sc { init_block = (read_station_address env n i s).sc.init_block }
  unfolding read_station_address csr_read8
  read_station_address-sc zero i s = refl
  read_station_address-sc (suc n) i s =
      let block = s.sc.init_block in
      let s1 = (csr_read8 env i s).1 in
      let s2 =
        with_sc
          (record s1.sc {
            init_block = record block {
              phys_addr = update block.phys_addr i (csr_read8 env i s).0;
            };
          })
          s1 in
      let t = read_station_address env n (i + 1) s2 in read_station_address-sc n (i + 1) s2

  start_chip-sc :
      (s : PcNet)
      → (start_chip env s).sc ≡ record s.sc { if_drv_flags = (start_chip env s).sc.if_drv_flags }
  unfolding start_chip read_csr pcnet32_start
  start_chip-sc s = ground arith

  -- The soft state that the rings are laid out in.
  abbrev pub flagged : Bool → LncSoftc → LncSoftc
  flagged on sc = record sc {
    dwio = on;
    if_flags =
        bit_or sc.if_flags (bit_or (bit_or lnc_iff_broadcast lnc_iff_simplex) lnc_iff_multicast);
  }

  prepared-SameRings :
      (on : Bool) (s : PcNet)
      → let t = (prepare_memory env on s).sc in
        SameRings (init_rings env (flagged on s.sc)) t × (t.pending_transmits ≡ 0)
  unfolding prepare_memory fill_init_block
  prepared-SameRings on s =
      rw (read_station_address-sc ether_addr_len 0 (with_sc (init_rings env (flagged on s.sc)) s)) (
        record {
          nrdre = refl;
          ntdre = refl;
          recv_ring = refl;
          recv_entries = refl;
          recv_next = refl;
          trans_entries = refl;
          trans_next = refl;
          next_to_send = refl;
        },
        refl,
      )

  -- What the chip is programmed with, at its soft state.
  pub lnc_init-sc :
      (s : PcNet)
      → let p = probe_dwio env (pcnet32_stop s) in
        let t = lnc_init env s in
        t.sc ≡ record (prepare_memory env p.0 p.1).sc { if_drv_flags = t.sc.if_drv_flags }
  unfolding lnc_init
  lnc_init-sc s =
      let p = probe_dwio env (pcnet32_stop s) in
      let s1 = prepare_memory env p.0 p.1 in
      let s2 = program_chip env s1 in
      let s3 = wait_idon env (idon_polls env) s2 in
      let same : s3.sc ≡ s1.sc =
        ap {A = PcNet} (λ x. x.sc) (wait_idon-frame env (idon_polls env) s2)
        ∙ ap {A = PcNet} (λ x. x.sc) (program_chip-frame env s1) in
      start_chip-sc s3
      ∙ ap {A = LncSoftc} (λ c. record c { if_drv_flags = (start_chip env s3).sc.if_drv_flags })
          same

  pub probed-sc : (s : PcNet) → (probe_dwio env (pcnet32_stop s)).1.sc ≡ s.sc
  probed-sc s =
      ap {A = PcNet} (λ x. x.sc) (probe_dwio-frame env (pcnet32_stop s))
      ∙ ap {A = PcNet} (λ x. x.sc) (pcnet32_stop-frame s)

  pub probed-IsAllocated :
      (s : PcNet)
      → IsAllocated s.sc
      → let p = probe_dwio env (pcnet32_stop s) in IsAllocated (flagged p.0 p.1.sc)
  probed-IsAllocated s ok = rw (probed-sc s) (record {
    recv_size = ok.recv_size;
    trans_size = ok.trans_size;
    aligned = ok.aligned;
    fits = ok.fits;
  })

  -- With the memory allocated, and whatever the chip answers, `lnc_init` returns with both rings
  -- ready: they are queues, no packet is pending, the chip owns every receive descriptor, every
  -- transmit descriptor is free, both rings start at their first descriptors, and the buffers lie one
  -- behind the other.
  pub lnc_init-IsReady : (s : PcNet) → IsAllocated s.sc → IsReady (lnc_init env s).sc
  lnc_init-IsReady s ok =
      let p = probe_dwio env (pcnet32_stop s) in
      let ready = prepared-SameRings p.0 p.1 in
      let c = flagged p.0 p.1.sc in
      let ok' = probed-IsAllocated s ok in
      rw (lnc_init-sc s) (
        IsReady-SameRings env c ok' _
          (record {
            nrdre = ready.0.nrdre;
            ntdre = ready.0.ntdre;
            recv_ring = ready.0.recv_ring;
            recv_entries = ready.0.recv_entries;
            recv_next = ready.0.recv_next;
            trans_entries = ready.0.trans_entries;
            trans_next = ready.0.trans_next;
            next_to_send = ready.0.next_to_send;
          })
          ready.1)
