-- ===== src/World.antt =====
-- What the driver meets outside its sources: the chip behind the I/O ports, and I/O Kit. Every access
-- and call is an event of a history, newest first, and every answer is a function of the history so
-- far, so that any deterministic chip and any failure of I/O Kit is one choice of `Env`.
use maxxuss_amdpcnet_v.Base.{ℕ, Bool, List, Option}

-- The I/O Kit calls whose result the driver tests.
pub data Call : Type 0 where
  super_init super_start super_configure : Call
  cast_provider open_provider : Call
  make_work_loop get_output_queue make_interrupt_source add_interrupt_source : Call
  make_timer_source add_timer_source make_dictionary : Call
  make_buffer prepare_buffer map_registers publish_dictionary attach_interface : Call
  get_net_stats get_ether_stats : Call
  make_medium add_medium : ℕ → Call
  allocate_packet : ℕ → Call
  register_power : Call

-- The I/O Kit calls that are made for their effect.
pub data Action : Type 0 where
  super_stop super_free : Action
  retain_provider close_provider register_service : Action
  enable_interrupt_source remove_interrupt_source : Action
  release_netif release_interrupt_source release_timer release_registers : Action
  release_dictionary release_provider release_work_loop : Action
  complete_buffer release_buffer : Action
  set_timeout : ℕ → Action
  cancel_timeout : Action
  set_capacity : ℕ → Action
  start_queue stop_queue flush_queue service_queue service_queue_async : Action
  sleep : ℕ → Action
  free_packet flush_input_queue : Action
  -- the packet's bytes and the length passed with it
  input_packet : List ℕ → ℕ → Action
  set_link_status : ℕ → Option ℕ → Action
  set_current_medium : ℕ → Action

pub data Event : Type 0 where
  read8 read16 read32 : ℕ → ℕ → Event
  write16 write32 : ℕ → ℕ → Event
  config_read16 config_write16 : ℕ → ℕ → Event
  asked : Call → Bool → Event
  did : Action → Event

pub record Env : Type 0 where
  -- the value at an I/O port
  pub port8 : List Event → ℕ → ℕ
  pub port16 : List Event → ℕ → ℕ
  pub port32 : List Event → ℕ → ℕ
  pub config16 : List Event → ℕ → ℕ
  -- whether a call succeeds
  pub answer : List Event → Call → Bool
  -- `getPhysicalSegment(offset)` of the driver's memory
  pub physical : ℕ → ℕ
  -- the address that `getBytesNoCopy` returns
  pub bytes : List Event → ℕ
  -- what `getSelectedMedium` returns: a medium's index, or null
  pub selected_medium : List Event → Option ℕ
  -- the byte that a read at an index past the end of `sc.ladrb` gives, which C leaves undefined
  pub past_ladrb : List Event → ℕ → ℕ
  -- the byte at an offset of a packet buffer that nothing was copied to yet
  pub fresh_byte : List Event → ℕ → ℕ
