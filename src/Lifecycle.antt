-- ===== src/Lifecycle.antt =====
-- The life of the driver object, Source/PCNet.cpp: `init`, `start`, `stop`, `free`, the set-up of event
-- sources and of the PCI configuration space, and the power calls; with `lnc_release_resources` of
-- Source/PCNet_lnc.cpp and `allocateDescriptorMemory` of Source/PCNet_Private.cpp.
pub mod Release
pub mod Start
pub mod Failure
use maxxuss_amdpcnet_v.Base.{
  ℕ, ◌%◌, ◌^◌, Bool, true, false, ◌&&◌, Option, none, some, bit_and, bit_or, not16, u16,
  if◌then◌else◌,
}
use maxxuss_amdpcnet_v.World.{
  Env, config_read16, config_write16, super_init, super_start, super_configure, cast_provider,
  open_provider, make_work_loop, get_output_queue, make_interrupt_source, add_interrupt_source,
  make_timer_source, add_timer_source, make_dictionary, map_registers, publish_dictionary,
  attach_interface, get_net_stats, get_ether_stats, register_power, super_stop, super_free,
  retain_provider, close_provider, register_service, enable_interrupt_source,
  remove_interrupt_source, release_netif, release_interrupt_source, release_timer,
  release_registers, release_dictionary, release_provider, release_work_loop, complete_buffer,
  release_buffer,
}
use maxxuss_amdpcnet_v.Hw.{medium_index_none}
use maxxuss_amdpcnet_v.State.{PcNet, with_sc, log, act, ask}
use maxxuss_amdpcnet_v.Init.{lnc_pci_attach}
use maxxuss_amdpcnet_v.Tx.{◌>>=◌}
use maxxuss_amdpcnet_v.Phy.{phy_probe_media_capability}
use maxxuss_amdpcnet_v.Adapter.{activation_level_0, reset_chip, init_adapter}

-- kIOPCIConfigCommand and the bits of that register, as the PCI standard numbers them.
abbrev pub config_command : ℕ
config_command = 4

abbrev pub command_io_space : ℕ
command_io_space = 0x1

abbrev pub command_memory_space : ℕ
command_memory_space = 0x2

abbrev pub command_bus_master : ℕ
command_bus_master = 0x4

abbrev pub command_mem_wr_invalidate : ℕ
command_mem_wr_invalidate = 0x10

module _ (env : Env) where
  unfoldable pub init : PcNet → Bool × PcNet
  init s =
      let (ok, s1) = ask env super_init s in
      if ok
      then (
        true,
        record s1 { current_level = activation_level_0; current_medium_index = medium_index_none },
      )
      else (false, s1)

  unfoldable pub create_work_loop : PcNet → Bool × PcNet
  create_work_loop s =
      let (made, s1) = ask env make_work_loop s in (made, record s1 { work_loop = made })

  -- The interrupt source, which is enabled as soon as it is in the work loop, and then the rest.
  unfoldable pub init_timer : PcNet → Bool × PcNet
  init_timer s =
      let (made, s1) = ask env make_timer_source s in
      let s2 = record s1 { timer_src = made } in
      if made
      then (let (added, s3) = ask env add_timer_source s2 in
          if added
          then (let (dict, s4) = ask env make_dictionary s3 in
              (dict, record s4 { medium_dict = dict }))
          else (false, s3))
      else (false, s2)

  unfoldable pub init_interrupt : PcNet → Bool × PcNet
  init_interrupt s =
      let (made, s1) = ask env make_interrupt_source s in
      let s2 = record s1 { interrupt_src = made } in
      if made
      then (let (added, s3) = ask env add_interrupt_source s2 in
          if added then init_timer (act enable_interrupt_source s3) else (false, s3))
      else (false, s2)

  unfoldable pub init_event_sources : PcNet → Bool × PcNet
  init_event_sources s =
      if s.work_loop
      then (let (queue, s1) = ask env get_output_queue s in
          let s2 = record s1 { transmit_queue = queue } in
          if queue then init_interrupt s2 else (false, s2))
      else (false, s)

  unfoldable pub allocate_descriptor_memory : PcNet → Bool × PcNet
  allocate_descriptor_memory s = lnc_pci_attach env s

  unfoldable pub init_pci_config_space : PcNet → Bool × PcNet
  init_pci_config_space s =
      let reg = u16 (env.config16 s.trace config_command) in
      let s1 = log (config_read16 config_command reg) s in
      let on =
        bit_or reg
          (bit_or (bit_or command_bus_master command_io_space) command_mem_wr_invalidate) in
      (true, log (config_write16 config_command (u16 (bit_and on (not16 command_memory_space)))) s1)

  -- The first block of `start` from the mapping of the registers on.
  unfoldable pub start_chip_access : PcNet → Bool × PcNet
  start_chip_access s =
      let (mapped, s1) = ask env map_registers s in
      let s2 = record s1 { csr_map = mapped } in
      if mapped
      then (let (_, s3) = init_pci_config_space s2 in
          let (ok, s4) = init_adapter env reset_chip s3 in
          if ok
          then ask env publish_dictionary (phy_probe_media_capability env s4)
          else (false, s4))
      else (false, s2)

  unfoldable pub start_opened : PcNet → Bool × PcNet
  start_opened s =
      let (sources, s1) = init_event_sources s in
      if sources
      then (let (memory, s2) = allocate_descriptor_memory s1 in
          if memory then start_chip_access s2 else (false, s2))
      else (false, s1)

  -- The first block of `start`.
  unfoldable pub start_provider : PcNet → Bool × PcNet
  start_provider s =
      let (began, s1) = ask env super_start s in
      if began
      then (let (cast, s2) = ask env cast_provider s1 in
          let s3 = record s2 { pci_nub = cast } in
          if cast
          then (let (opened, s4) = ask env open_provider (act retain_provider s3) in
              if opened then start_opened s4 else (false, s4))
          else (false, s3))
      else (false, s1)

  -- The provider is closed whenever it was found, and the interface is attached after success.
  unfoldable pub start : PcNet → Bool × PcNet
  start s =
      let (success, s1) = start_provider s in
      let s2 = if s1.pci_nub then act close_provider s1 else s1 in
      if success
      then (let (attached, s3) = ask env attach_interface s2 in
          let s4 = record s3 { netif = attached } in
          if attached then (true, act register_service s4) else (false, s4))
      else (false, s2)

  unfoldable pub stop : PcNet → PcNet
  stop s = act super_stop s

  unfoldable pub configure_interface : PcNet → Bool × PcNet
  configure_interface s =
      let (ok, s1) = ask env super_configure s in
      if ok
      then (let (net, s2) = ask env get_net_stats s1 in
          let s3 = record s2 { net_stats = net } in
          if net
          then (let (ether, s4) = ask env get_ether_stats s3 in
              (ether, record s4 { ether_stats = ether }))
          else (false, s3))
      else (false, s1)

  unfoldable pub register_with_policy_maker : PcNet → Bool × PcNet
  register_with_policy_maker s = ask env register_power s

-- `none` is the use of a null pointer.
unfoldable pub lnc_release_resources : PcNet → Option PcNet
lnc_release_resources s =
    if s.sc.mem_descr
    then (let s1 = act release_buffer (act complete_buffer s) in
        some (with_sc (record s1.sc { mem_descr = false; recv_ring = 0; trans_ring = 0 }) s1))
    else none

-- The macro RELEASE at each member.
unfoldable pub drop_netif : PcNet → PcNet
drop_netif s = if s.netif then record (act release_netif s) { netif = false } else s

unfoldable pub drop_interrupt_src : PcNet → PcNet
drop_interrupt_src s =
    if s.interrupt_src then record (act release_interrupt_source s) { interrupt_src = false } else s

unfoldable pub drop_timer_src : PcNet → PcNet
drop_timer_src s = if s.timer_src then record (act release_timer s) { timer_src = false } else s

unfoldable pub drop_csr_map : PcNet → PcNet
drop_csr_map s = if s.csr_map then record (act release_registers s) { csr_map = false } else s

unfoldable pub drop_medium_dict : PcNet → PcNet
drop_medium_dict s =
    if s.medium_dict then record (act release_dictionary s) { medium_dict = false } else s

unfoldable pub drop_pci_nub : PcNet → PcNet
drop_pci_nub s = if s.pci_nub then record (act release_provider s) { pci_nub = false } else s

unfoldable pub drop_work_loop : PcNet → PcNet
drop_work_loop s = if s.work_loop then record (act release_work_loop s) { work_loop = false } else s

unfoldable pub release_all : PcNet → PcNet
release_all s = drop_work_loop (
    drop_pci_nub
      (drop_medium_dict (drop_csr_map (drop_timer_src (drop_interrupt_src (drop_netif s))))))

unfoldable pub free : PcNet → Option PcNet
free s =
    let s1 = if s.interrupt_src && s.work_loop then act remove_interrupt_source s else s in
    lnc_release_resources (release_all s1) >>= λ s2. some (act super_free s2)
