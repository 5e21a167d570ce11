-- ===== src/Lifecycle/Failure.antt =====
-- A `start` that fails before it has memory for the rings, and the `free` after it.
use maxxuss_amdpcnet_v.Base.{
  ◌≡◌, refl, arith, ap, ◌∙◌, Bool, true, false, List, none, if◌then◌else◌,
}
use maxxuss_amdpcnet_v.World.{
  Env, Event, make_buffer, make_interrupt_source, add_interrupt_source, get_output_queue,
  super_start, cast_provider, open_provider, enable_interrupt_source, retain_provider,
  close_provider,
}
use maxxuss_amdpcnet_v.State.{PcNet, ask, act}
use maxxuss_amdpcnet_v.Init.{lnc_pci_attach}
use maxxuss_amdpcnet_v.Lifecycle.{
  init_timer, init_interrupt, init_event_sources, allocate_descriptor_memory, start_opened,
  start_provider, start, free,
}
use maxxuss_amdpcnet_v.Lifecycle.Release.{free_without_buffer}

module _ (env : Env) where
  -- The call failed, and there is no buffer.
  abbrev NoMemory : Bool × PcNet → Type 0
  NoMemory r = (r.0 ≡ false) × (r.1.sc.mem_descr ≡ false)

  -- A call that fails with the state as it is, or goes on.
  NoMemory-if :
      (b : Bool) (x : Bool × PcNet) (y : PcNet)
      → NoMemory x
      → y.sc.mem_descr ≡ false
      → NoMemory (if b then x else (false, y))
  NoMemory-if true x y goes_on stays = goes_on
  NoMemory-if false x y goes_on stays = (refl, stays)

  init_timer-sc : (s : PcNet) → (init_timer env s).1.sc ≡ s.sc
  unfolding init_timer
  init_timer-sc s = ground arith

  init_interrupt-sc : (s : PcNet) → (init_interrupt env s).1.sc ≡ s.sc
  unfolding init_interrupt
  init_interrupt-sc s =
      let made = env.answer s.trace make_interrupt_source in
      let s2 = record (ask env make_interrupt_source s).1 { interrupt_src = made } in
      let s3 = act enable_interrupt_source (ask env add_interrupt_source s2).1 in
      ground (arith, init_timer-sc s3)

  init_event_sources-sc : (s : PcNet) → (init_event_sources env s).1.sc ≡ s.sc
  unfolding init_event_sources
  init_event_sources-sc s =
      let r = ask env get_output_queue s in
      ground (arith, init_interrupt-sc (record r.1 { transmit_queue = r.0 }))

  module _ (no_memory : (tr : List Event) → env.answer tr make_buffer ≡ false) where
    allocate_descriptor_memory-NoMemory : (s : PcNet) → NoMemory (allocate_descriptor_memory env s)
    unfolding allocate_descriptor_memory lnc_pci_attach
    allocate_descriptor_memory-NoMemory s = rw (no_memory s.trace) (refl, refl)

    start_opened-NoMemory : (s : PcNet) → s.sc.mem_descr ≡ false → NoMemory (start_opened env s)
    unfolding start_opened
    start_opened-NoMemory s h =
        let sources = init_event_sources env s in
        let memory = allocate_descriptor_memory env sources.1 in
        let m = allocate_descriptor_memory-NoMemory sources.1 in
        NoMemory-if sources.0 _ sources.1 (rw (m.0) (refl, m.1))
          (ap (λ c. c.mem_descr) (init_event_sources-sc s) ∙ h)

    start_provider-NoMemory : (s : PcNet) → s.sc.mem_descr ≡ false → NoMemory (start_provider env s)
    unfolding start_provider
    start_provider-NoMemory s h =
        let s1 = (ask env super_start s).1 in
        let cast = env.answer s1.trace cast_provider in
        let s3 = record (ask env cast_provider s1).1 { pci_nub = cast } in
        let r = ask env open_provider (act retain_provider s3) in
        NoMemory-if (ask env super_start s).0 _ s1
          (NoMemory-if cast _ s3 (NoMemory-if r.0 _ r.1 (start_opened-NoMemory r.1 h) h) h) h

    -- From a driver that has no buffer yet, and if the memory for one cannot be had: `start` returns
    -- false, wherever it gives up, and `free` of the driver that it leaves uses a null pointer.
    pub start_then_free :
        (s : PcNet)
        → s.sc.mem_descr ≡ false
        → let r = start env s in (r.0 ≡ false) × (free r.1 ≡ none)
    unfolding start
    start_then_free s h =
        let p = start_provider-NoMemory s h in
        let r = start_provider env s in
        let t = if r.1.pci_nub then act close_provider r.1 else r.1 in
        let gone : t.sc.mem_descr ≡ false = ground (arith, p.1) in
        rw (p.0) (refl, free_without_buffer t gone)
