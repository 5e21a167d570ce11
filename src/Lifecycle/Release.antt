-- ===== src/Lifecycle/Release.antt =====
-- Releasing the driver's objects.
use maxxuss_amdpcnet_v.Base.{
  ap, ◌∙◌, if◌then◌else◌, ◌≡◌, refl, arith, true, false, ◌&&◌, none, some, List, [], ◌∷◌, ◌++◌,
}
use maxxuss_amdpcnet_v.World.{
  Event, did, super_free, release_buffer, complete_buffer, remove_interrupt_source, release_netif,
  release_interrupt_source, release_timer, release_registers, release_dictionary, release_provider,
  release_work_loop,
}
use maxxuss_amdpcnet_v.State.{PcNet, with_sc, act}
use maxxuss_amdpcnet_v.Lifecycle.{
  free, release_all, lnc_release_resources, drop_netif, drop_interrupt_src, drop_timer_src,
  drop_csr_map, drop_medium_dict, drop_pci_nub, drop_work_loop,
}

module _ (s : PcNet) where
  drop_netif-frame : drop_netif s ≡ record s { netif = false; trace = (drop_netif s).trace }
  unfolding drop_netif
  drop_netif-frame = ground arith

  drop_interrupt_src-frame :
      drop_interrupt_src s
      ≡ record s { interrupt_src = false; trace = (drop_interrupt_src s).trace }
  unfolding drop_interrupt_src
  drop_interrupt_src-frame = ground arith

  drop_timer_src-frame :
      drop_timer_src s ≡ record s { timer_src = false; trace = (drop_timer_src s).trace }
  unfolding drop_timer_src
  drop_timer_src-frame = ground arith

  drop_csr_map-frame : drop_csr_map s ≡ record s { csr_map = false; trace = (drop_csr_map s).trace }
  unfolding drop_csr_map
  drop_csr_map-frame = ground arith

  drop_medium_dict-frame :
      drop_medium_dict s ≡ record s { medium_dict = false; trace = (drop_medium_dict s).trace }
  unfolding drop_medium_dict
  drop_medium_dict-frame = ground arith

  drop_pci_nub-frame : drop_pci_nub s ≡ record s { pci_nub = false; trace = (drop_pci_nub s).trace }
  unfolding drop_pci_nub
  drop_pci_nub-frame = ground arith

  drop_work_loop-frame :
      drop_work_loop s ≡ record s { work_loop = false; trace = (drop_work_loop s).trace }
  unfolding drop_work_loop
  drop_work_loop-frame = ground arith

  drop_netif-held : s.netif ≡ true → drop_netif s ≡ record (act release_netif s) { netif = false }
  unfolding drop_netif
  drop_netif-held h = rw h refl

  drop_interrupt_src-held :
      s.interrupt_src ≡ true
      → drop_interrupt_src s ≡ record (act release_interrupt_source s) { interrupt_src = false }
  unfolding drop_interrupt_src
  drop_interrupt_src-held h = rw h refl

  drop_timer_src-held :
      s.timer_src ≡ true → drop_timer_src s ≡ record (act release_timer s) { timer_src = false }
  unfolding drop_timer_src
  drop_timer_src-held h = rw h refl

  drop_csr_map-held :
      s.csr_map ≡ true → drop_csr_map s ≡ record (act release_registers s) { csr_map = false }
  unfolding drop_csr_map
  drop_csr_map-held h = rw h refl

  drop_medium_dict-held :
      s.medium_dict ≡ true
      → drop_medium_dict s ≡ record (act release_dictionary s) { medium_dict = false }
  unfolding drop_medium_dict
  drop_medium_dict-held h = rw h refl

  drop_pci_nub-held :
      s.pci_nub ≡ true → drop_pci_nub s ≡ record (act release_provider s) { pci_nub = false }
  unfolding drop_pci_nub
  drop_pci_nub-held h = rw h refl

  drop_work_loop-held :
      s.work_loop ≡ true → drop_work_loop s ≡ record (act release_work_loop s) { work_loop = false }
  unfolding drop_work_loop
  drop_work_loop-held h = rw h refl

-- Every pointer that `free` releases is null.
pub record IsReleased (t : PcNet) : Type 0 where
  pub netif : t.netif ≡ false
  pub interrupt_src : t.interrupt_src ≡ false
  pub timer_src : t.timer_src ≡ false
  pub csr_map : t.csr_map ≡ false
  pub medium_dict : t.medium_dict ≡ false
  pub pci_nub : t.pci_nub ≡ false
  pub work_loop : t.work_loop ≡ false
  pub mem_descr : t.sc.mem_descr ≡ false
  pub recv_ring : t.sc.recv_ring ≡ 0
  pub trans_ring : t.sc.trans_ring ≡ 0

-- Every pointer that the macro RELEASE is applied to is null, and the soft state stays.
release_all-frame :
    (s : PcNet)
    → release_all s ≡ record s {
      netif = false;
      interrupt_src = false;
      timer_src = false;
      csr_map = false;
      medium_dict = false;
      pci_nub = false;
      work_loop = false;
      trace = (release_all s).trace;
    }
unfolding release_all
release_all-frame s = rw (
  drop_work_loop-frame (
      drop_pci_nub
        (drop_medium_dict (drop_csr_map (drop_timer_src (drop_interrupt_src (drop_netif s)))))),
  drop_pci_nub-frame
      (drop_medium_dict (drop_csr_map (drop_timer_src (drop_interrupt_src (drop_netif s))))),
  drop_medium_dict-frame (drop_csr_map (drop_timer_src (drop_interrupt_src (drop_netif s)))),
  drop_csr_map-frame (drop_timer_src (drop_interrupt_src (drop_netif s))),
  drop_timer_src-frame (drop_interrupt_src (drop_netif s)),
  drop_interrupt_src-frame (drop_netif s),
  drop_netif-frame s,
)

-- The state in which `free` releases the objects.
abbrev unplugged : PcNet → PcNet
unplugged s = if s.interrupt_src && s.work_loop then act remove_interrupt_source s else s

unplugged-sc : (s : PcNet) → (unplugged s).sc ≡ s.sc
unplugged-sc s = ground arith

released-sc : (s : PcNet) → (release_all (unplugged s)).sc ≡ s.sc
released-sc s = ap {A = PcNet} (λ x. x.sc) (release_all-frame (unplugged s)) ∙ unplugged-sc s

-- `free` of a driver with no buffer uses a null pointer.
pub free_without_buffer : (s : PcNet) → s.sc.mem_descr ≡ false → free s ≡ none
unfolding free lnc_release_resources
free_without_buffer s h = rw (released-sc s, h)

-- With a buffer, `free` completes; after it every pointer that it releases is null, the buffer's
-- included, and so are both rings.
pub free_releases :
    (s : PcNet) → s.sc.mem_descr ≡ true → (t : PcNet) × (free s ≡ some t) × IsReleased t
unfolding free lnc_release_resources
free_releases s h =
    let s1 = act release_buffer (act complete_buffer (release_all (unplugged s))) in
    (
      act super_free
          (with_sc (record s1.sc { mem_descr = false; recv_ring = 0; trans_ring = 0 }) s1),
      rw (released-sc s, h),
      rw (release_all-frame (unplugged s)) (record {
        netif = refl;
        interrupt_src = refl;
        timer_src = refl;
        csr_map = refl;
        medium_dict = refl;
        pci_nub = refl;
        work_loop = refl;
        mem_descr = refl;
        recv_ring = refl;
        trans_ring = refl;
      }),
    )

-- Every object that `free` releases is there.
pub record IsHeld (s : PcNet) : Type 0 where
  pub netif : s.netif ≡ true
  pub interrupt_src : s.interrupt_src ≡ true
  pub timer_src : s.timer_src ≡ true
  pub csr_map : s.csr_map ≡ true
  pub medium_dict : s.medium_dict ≡ true
  pub pci_nub : s.pci_nub ≡ true
  pub work_loop : s.work_loop ≡ true
  pub mem_descr : s.sc.mem_descr ≡ true

-- The calls by which every object is given back, the last one first: the interrupt source is taken off
-- the work loop, each object is released once, the buffer is completed and released, and the super
-- class is freed at the end.
abbrev pub releases : List Event
releases =
    did super_free
    ∷ did release_buffer
    ∷ did complete_buffer
    ∷ did release_work_loop
    ∷ did release_provider
    ∷ did release_dictionary
    ∷ did release_registers
    ∷ did release_timer
    ∷ did release_interrupt_source
    ∷ did release_netif
    ∷ did remove_interrupt_source
    ∷ []

-- The state that `free` leaves.
abbrev freed : PcNet → PcNet
freed s = record s {
  netif = false;
  interrupt_src = false;
  timer_src = false;
  csr_map = false;
  medium_dict = false;
  pci_nub = false;
  work_loop = false;
  sc = record s.sc { mem_descr = false; recv_ring = 0; trans_ring = 0 };
  trace = releases ++ s.trace;
}

-- The state behind the releases of the macro RELEASE.
abbrev let_go : PcNet → PcNet
let_go s =
    let s1 = record (act release_netif s) { netif = false } in
    let s2 = record (act release_interrupt_source s1) { interrupt_src = false } in
    let s3 = record (act release_timer s2) { timer_src = false } in
    let s4 = record (act release_registers s3) { csr_map = false } in
    let s5 = record (act release_dictionary s4) { medium_dict = false } in
    let s6 = record (act release_provider s5) { pci_nub = false } in
    let s7 = record (act release_work_loop s6) { work_loop = false } in s7

release_all-held : (s : PcNet) → IsHeld s → release_all s ≡ let_go s
unfolding release_all
release_all-held s h =
    let s1 = record (act release_netif s) { netif = false } in
    let s2 = record (act release_interrupt_source s1) { interrupt_src = false } in
    let s3 = record (act release_timer s2) { timer_src = false } in
    let s4 = record (act release_registers s3) { csr_map = false } in
    let s5 = record (act release_dictionary s4) { medium_dict = false } in
    let s6 = record (act release_provider s5) { pci_nub = false } in
    let s7 = record (act release_work_loop s6) { work_loop = false } in
    ap
      (λ x.
        drop_work_loop
          (drop_pci_nub (drop_medium_dict (drop_csr_map (drop_timer_src (drop_interrupt_src x))))))
      (drop_netif-held s h.netif)
    ∙ ap (λ x. drop_work_loop (drop_pci_nub (drop_medium_dict (drop_csr_map (drop_timer_src x)))))
        (drop_interrupt_src-held s1 h.interrupt_src)
    ∙ ap (λ x. drop_work_loop (drop_pci_nub (drop_medium_dict (drop_csr_map x))))
        (drop_timer_src-held s2 h.timer_src)
    ∙ ap (λ x. drop_work_loop (drop_pci_nub (drop_medium_dict x))) (drop_csr_map-held s3 h.csr_map)
    ∙ ap (λ x. drop_work_loop (drop_pci_nub x)) (drop_medium_dict-held s4 h.medium_dict)
    ∙ ap (λ x. drop_work_loop x) (drop_pci_nub-held s5 h.pci_nub)
    ∙ drop_work_loop-held s6 h.work_loop

-- With every object there, `free` completes, makes exactly these calls, and leaves every pointer null.
pub free_held :
    (s : PcNet)
    → IsHeld s
    → (u : PcNet) × (free s ≡ some u) × IsReleased u × (u.trace ≡ releases ++ s.trace)
unfolding free lnc_release_resources
free_held s h =
    let plugged : unplugged s ≡ act remove_interrupt_source s =
      rw (h.interrupt_src, h.work_loop) refl in
    let gone : release_all (unplugged s) ≡ let_go (act remove_interrupt_source s) =
      ap release_all plugged
      ∙ release_all-held (act remove_interrupt_source s) (record {
        netif = h.netif;
        interrupt_src = h.interrupt_src;
        timer_src = h.timer_src;
        csr_map = h.csr_map;
        medium_dict = h.medium_dict;
        pci_nub = h.pci_nub;
        work_loop = h.work_loop;
        mem_descr = h.mem_descr;
      }) in
    (
      freed s,
      rw (gone, h.mem_descr) refl,
      record {
        netif = refl;
        interrupt_src = refl;
        timer_src = refl;
        csr_map = refl;
        medium_dict = refl;
        pci_nub = refl;
        work_loop = refl;
        mem_descr = refl;
        recv_ring = refl;
        trans_ring = refl;
      },
      refl,
    )
