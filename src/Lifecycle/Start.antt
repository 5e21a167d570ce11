-- ===== src/Lifecycle/Start.antt =====
-- What a successful `start` leaves: every object that the driver uses, and the memory for the rings.
use maxxuss_amdpcnet_v.Base.{
  ℕ, ◌+◌, ◌%◌, ◌^◌, ◌≤◌, ◌≡◌, refl, arith, ap, ◌∙◌, Bool, true, false, List, ◌++◌, u32, some,
  if◌then◌else◌,
}
use maxxuss_amdpcnet_v.World.{
  Env, Event, make_interrupt_source, add_interrupt_source, enable_interrupt_source,
  get_output_queue, map_registers, publish_dictionary, super_start, cast_provider, retain_provider,
  open_provider, close_provider, attach_interface, register_service,
}
use maxxuss_amdpcnet_v.Layout.{lnc_mem_size}
use maxxuss_amdpcnet_v.State.{PcNet, ask, act}
use maxxuss_amdpcnet_v.Port.{pcnet32_stop, pcnet32_reset}
use maxxuss_amdpcnet_v.Init.{lnc_pci_attach}
use maxxuss_amdpcnet_v.Init.Rings.{IsAllocated}
use maxxuss_amdpcnet_v.Hw.{medium_index_10_hd, medium_index_10_fd}
use maxxuss_amdpcnet_v.Intr.{disable_hardware_interrupts}
use maxxuss_amdpcnet_v.Phy.{phy_add_medium_type, phy_probe_media_capability}
use maxxuss_amdpcnet_v.Adapter.{init_adapter, reset_chip}
use maxxuss_amdpcnet_v.Lifecycle.{
  init_timer, init_interrupt, init_event_sources, start_chip_access, start_opened, start_provider,
  start, init_pci_config_space, allocate_descriptor_memory, free,
}
use maxxuss_amdpcnet_v.Lifecycle.Release.{IsReleased, releases, free_held}

module _ (env : Env) where
  -- A call and what follows its success.
  then_lem :
      (b : Bool) (x : Bool × PcNet) (y : PcNet)
      → (if b then x else (false, y)).0 ≡ true
      → (b ≡ true) × (x.0 ≡ true) × ((if b then x else (false, y)) ≡ x)
  then_lem true x y h = (refl, h, refl)
  then_lem false x y h = cc

  init_timer-lem :
      (s : PcNet)
      → (init_timer env s).0 ≡ true
      → let t = (init_timer env s).1 in
        t ≡ record s { timer_src = true; medium_dict = true; trace = t.trace }
  unfolding init_timer
  init_timer-lem s h = ground (arith, h)

  init_interrupt-lem :
      (s : PcNet)
      → (init_interrupt env s).0 ≡ true
      → let t = (init_interrupt env s).1 in
        t ≡ record s { interrupt_src = true; timer_src = true; medium_dict = true; trace = t.trace }
  unfolding init_interrupt
  init_interrupt-lem s h =
      let made = env.answer s.trace make_interrupt_source in
      let s2 = record (ask env make_interrupt_source s).1 { interrupt_src = made } in
      let added = env.answer s2.trace add_interrupt_source in
      let s3 = act enable_interrupt_source (ask env add_interrupt_source s2).1 in
      let a = then_lem made _ s2 h in
      let b = then_lem added (init_timer env s3) _ a.1 in
      rw (a.2, b.2) (init_timer-lem s3 b.1 ∙ rw (a.0) refl)

  -- The work loop is there, and the sources and the medium dictionary are made.
  init_event_sources-lem :
      (s : PcNet)
      → (init_event_sources env s).0 ≡ true
      → (s.work_loop ≡ true)
        × (let t = (init_event_sources env s).1 in
            t ≡ record s {
              transmit_queue = true;
              interrupt_src = true;
              timer_src = true;
              medium_dict = true;
              trace = t.trace;
            })
  unfolding init_event_sources
  init_event_sources-lem s h =
      let queue = env.answer s.trace get_output_queue in
      let s2 = record (ask env get_output_queue s).1 { transmit_queue = queue } in
      let a = then_lem s.work_loop _ s h in
      let b = then_lem queue (init_interrupt env s2) s2 a.1 in
      (a.0, rw (a.2, b.2) (init_interrupt-lem s2 b.1 ∙ rw (b.0) refl))

  lnc_pci_attach-lem :
      (s : PcNet)
      → (lnc_pci_attach env s).0 ≡ true
      → let t = (lnc_pci_attach env s).1 in
        (t.sc.mem_descr ≡ true)
        × (t.sc.nrdre ≡ 5)
        × (t.sc.ntdre ≡ 5)
        × (t.sc.recv_ring ≡ u32 (env.bytes t.trace))
        × (t ≡ record s { sc = t.sc; trace = t.trace })
  unfolding lnc_pci_attach
  lnc_pci_attach-lem s h = ground (arith, h)

  -- `t` is `s` but for the mapping of the registers, the media and the history.
  abbrev ChipOnly : PcNet → PcNet → Type 0
  ChipOnly s t = t ≡ record s {
    csr_map = t.csr_map;
    interrupt_enabled = t.interrupt_enabled;
    medium_index_last_reported = t.medium_index_last_reported;
    medium_table = t.medium_table;
    trace = t.trace;
  }

  ChipOnly-trans : (s t u : PcNet) → ChipOnly s t → ChipOnly t u → ChipOnly s u
  ChipOnly-trans s t u p q =
      q
      ∙ ap {A = PcNet}
          (λ x. record x {
            csr_map = u.csr_map;
            interrupt_enabled = u.interrupt_enabled;
            medium_index_last_reported = u.medium_index_last_reported;
            medium_table = u.medium_table;
            trace = u.trace;
          })
          p

  phy_add_medium_type-lem :
      (i : ℕ) (s : PcNet)
      → let t = (phy_add_medium_type env i s).1 in ChipOnly s t × (t.csr_map ≡ s.csr_map)
  unfolding phy_add_medium_type
  phy_add_medium_type-lem i s = ground arith

  phy_probe_media_capability-lem :
      (s : PcNet)
      → let t = phy_probe_media_capability env s in ChipOnly s t × (t.csr_map ≡ s.csr_map)
  unfolding phy_probe_media_capability
  phy_probe_media_capability-lem s =
      let s1 = (phy_add_medium_type env medium_index_10_hd s).1 in
      let a = phy_add_medium_type-lem medium_index_10_hd s in
      let b = phy_add_medium_type-lem medium_index_10_fd s1 in
      (ChipOnly-trans s s1 (phy_probe_media_capability env s) a.0 b.0, b.1 ∙ a.1)

  init_adapter-lem :
      (s : PcNet)
      → let t = (init_adapter env reset_chip s).1 in ChipOnly s t × (t.csr_map ≡ s.csr_map)
  unfolding init_adapter disable_hardware_interrupts pcnet32_reset pcnet32_stop
  init_adapter-lem s = ground arith

  start_chip_access-lem :
      (s : PcNet)
      → (start_chip_access env s).0 ≡ true
      → let t = (start_chip_access env s).1 in ChipOnly s t × (t.csr_map ≡ true)
  unfolding start_chip_access init_pci_config_space
  start_chip_access-lem s h =
      let mapped = env.answer s.trace map_registers in
      let s2 = record (ask env map_registers s).1 { csr_map = mapped } in
      let s3 = (init_pci_config_space env s2).1 in
      let r = init_adapter env reset_chip s3 in
      let s4 = phy_probe_media_capability env r.1 in
      let t = (ask env publish_dictionary s4).1 in
      let a = then_lem mapped _ s2 h in
      let b = then_lem r.0 _ r.1 a.1 in
      let i = init_adapter-lem s3 in
      let p = phy_probe_media_capability-lem r.1 in
      let q = ChipOnly-trans s r.1 s4 (ChipOnly-trans s s3 r.1 refl i.0) p.0 in
      rw (a.2, b.2) (ChipOnly-trans s s4 t q refl, p.1 ∙ i.1 ∙ a.0)

  -- What is there once the chip can be reached.
  pub record IsOpened (t : PcNet) : Type 0 where
    pub work_loop : t.work_loop ≡ true
    pub transmit_queue : t.transmit_queue ≡ true
    pub interrupt_src : t.interrupt_src ≡ true
    pub timer_src : t.timer_src ≡ true
    pub medium_dict : t.medium_dict ≡ true
    pub csr_map : t.csr_map ≡ true
    pub mem_descr : t.sc.mem_descr ≡ true
    pub recv_size : t.sc.nrdre ≡ 5
    pub trans_size : t.sc.ntdre ≡ 5
    pub memory : (tr : List Event) × (t.sc.recv_ring ≡ u32 (env.bytes tr))

  start_opened-IsOpened :
      (s : PcNet)
      → (start_opened env s).0 ≡ true
      → let t = (start_opened env s).1 in IsOpened t × (t.pci_nub ≡ s.pci_nub)
  unfolding start_opened allocate_descriptor_memory
  start_opened-IsOpened s h =
      let r1 = init_event_sources env s in
      let r2 = lnc_pci_attach env r1.1 in
      let a = then_lem r1.0 _ r1.1 h in
      let b = then_lem r2.0 _ r2.1 a.1 in
      let e1 = init_event_sources-lem s a.0 in
      let e2 = lnc_pci_attach-lem r1.1 b.0 in
      let e3 = start_chip_access-lem r2.1 b.1 in
      let t = (start_chip_access env r2.1).1 in
      let whole : t ≡ record s {
        transmit_queue = true;
        interrupt_src = true;
        timer_src = true;
        medium_dict = true;
        sc = r2.1.sc;
        csr_map = t.csr_map;
        interrupt_enabled = t.interrupt_enabled;
        medium_index_last_reported = t.medium_index_last_reported;
        medium_table = t.medium_table;
        trace = t.trace;
      } =
        e3.0
        ∙ ap {A = PcNet}
            (λ x. record x {
              csr_map = t.csr_map;
              interrupt_enabled = t.interrupt_enabled;
              medium_index_last_reported = t.medium_index_last_reported;
              medium_table = t.medium_table;
              trace = t.trace;
            })
            (e2.4 ∙ ap {A = PcNet} (λ x. record x { sc = r2.1.sc; trace = r2.1.trace }) e1.1) in
      rw (a.2, b.2)
        (
          record {
            work_loop = ap {A = PcNet} (λ x. x.work_loop) whole ∙ e1.0;
            transmit_queue = ap {A = PcNet} (λ x. x.transmit_queue) whole;
            interrupt_src = ap {A = PcNet} (λ x. x.interrupt_src) whole;
            timer_src = ap {A = PcNet} (λ x. x.timer_src) whole;
            medium_dict = ap {A = PcNet} (λ x. x.medium_dict) whole;
            csr_map = e3.1;
            mem_descr = ap {A = PcNet} (λ x. x.sc.mem_descr) whole ∙ e2.0;
            recv_size = ap {A = PcNet} (λ x. x.sc.nrdre) whole ∙ e2.1;
            trans_size = ap {A = PcNet} (λ x. x.sc.ntdre) whole ∙ e2.2;
            memory = (r2.1.trace, ap {A = PcNet} (λ x. x.sc.recv_ring) whole ∙ e2.3);
          },
          ap {A = PcNet} (λ x. x.pci_nub) whole,
        )

  start_provider-IsOpened :
      (s : PcNet)
      → (start_provider env s).0 ≡ true
      → let t = (start_provider env s).1 in IsOpened t × (t.pci_nub ≡ true)
  unfolding start_provider
  start_provider-IsOpened s h =
      let s1 = (ask env super_start s).1 in
      let cast = env.answer s1.trace cast_provider in
      let s3 = record (ask env cast_provider s1).1 { pci_nub = cast } in
      let s4 = act retain_provider s3 in
      let r = ask env open_provider s4 in
      let a = then_lem (ask env super_start s).0 _ s1 h in
      let b = then_lem cast _ s3 a.1 in
      let c = then_lem r.0 _ r.1 b.1 in
      let o = start_opened-IsOpened r.1 c.1 in rw (a.2, b.2, c.2) (o.0, o.1 ∙ b.0)

  -- After a `start` that returns true, every object that the driver uses is there, the interface too,
  -- and both rings have 32 descriptors in the buffer whose address `lnc_pci_attach` asked for; with that
  -- address aligned to 16 bytes and the buffer in the 32-bit address space, the memory is as `lnc_init`
  -- needs it, and `free` completes and leaves every pointer null; the calls that it makes are `releases`:
  -- each object, the buffer included, is released exactly once.
  pub start-IsOpened :
      (s : PcNet)
      → ((tr : List Event) → (env.bytes tr % 16 ≡ 0) × (env.bytes tr + lnc_mem_size 5 5 ≤ 2 ^ 32))
      → (start env s).0 ≡ true
      → let t = (start env s).1 in
        IsOpened t
        × (t.pci_nub ≡ true)
        × (t.netif ≡ true)
        × IsAllocated t.sc
        × (u : PcNet) × (free t ≡ some u)
        × IsReleased u
        × (u.trace ≡ releases ++ t.trace)
  unfolding start
  start-IsOpened s ok h =
      let r = start_provider env s in
      let s2 = if r.1.pci_nub then act close_provider r.1 else r.1 in
      let attached = env.answer s2.trace attach_interface in
      let s4 = record (ask env attach_interface s2).1 { netif = attached } in
      let a = then_lem r.0 _ s2 h in
      let b = then_lem attached (true, act register_service s4) s4 a.1 in
      let o = start_provider-IsOpened s a.0 in
      let i = o.0 in
      let base = i.memory in
      let good = ok base.0 in
      let closed : s2 ≡ act close_provider r.1 = rw (o.1) refl in
      let asked_it = ask env attach_interface (act close_provider r.1) in
      let freed =
        free_held (act register_service (record asked_it.1 { netif = asked_it.0 })) (record {
          netif = rw closed at b.0;
          interrupt_src = i.interrupt_src;
          timer_src = i.timer_src;
          csr_map = i.csr_map;
          medium_dict = i.medium_dict;
          pci_nub = o.1;
          work_loop = i.work_loop;
          mem_descr = i.mem_descr;
        }) in
      rw (a.2, b.2, closed)
        (
          record {
            work_loop = i.work_loop;
            transmit_queue = i.transmit_queue;
            interrupt_src = i.interrupt_src;
            timer_src = i.timer_src;
            medium_dict = i.medium_dict;
            csr_map = i.csr_map;
            mem_descr = i.mem_descr;
            recv_size = i.recv_size;
            trans_size = i.trans_size;
            memory = i.memory;
          },
          o.1,
          rw closed at b.0,
          record {
            recv_size = i.recv_size;
            trans_size = i.trans_size;
            aligned = omega (arith, base.1, good.0, good.1);
            fits = omega (arith, base.1, good.1);
          },
          freed.0,
          freed.1,
          freed.2,
          freed.3,
        )
