-- ===== src/Adapter.antt =====
-- Turning the adapter on and off, and what the network stack asks of it: Source/PCNet.cpp, with
-- `initAdapter` of Source/PCNet_Private.cpp, `lnc_down` of Source/PCNet.h and
-- `lnc_set_promiscuous_mode` of Source/PCNet_lnc.cpp. An `IOReturn` is whether it is success, where
-- the drivers' callers ask no more; `selectMedium` tells its two errors apart.

pub mod Activation
pub mod Level
pub mod Whole
pub mod Promiscuous
pub mod Enable
pub mod Address
pub mod Down
use maxxuss_amdpcnet_v.Base.{
  ℕ, zero, suc, ◌+◌, ◌-◌, ◌/◌, ◌^◌, ◌==◌, Bool, true, false, List, [], ◌∷◌, Option, none, some,
  bit_and, bit_or, not32, has, u8, ltb, if◌then◌else◌,
}
use maxxuss_amdpcnet_v.World.{
  Env, open_provider, close_provider, sleep, set_timeout, cancel_timeout, set_capacity, start_queue,
  stop_queue, flush_queue, set_link_status, set_current_medium,
}
use maxxuss_amdpcnet_v.Hw.{medium_index_none, medium_index_default, medium_index_undef}
use maxxuss_amdpcnet_v.Hw.Registers.{mode_prom, pcn_io32_aprom00, pcn_io32_aprom01}
use maxxuss_amdpcnet_v.Softc.{LncSoftc, lnc_iff_promisc, lnc_iff_drv_running}
use maxxuss_amdpcnet_v.State.{PcNet, with_sc, act, ask}
use maxxuss_amdpcnet_v.Port.{csr_read32, pcnet32_stop, pcnet32_reset}
use maxxuss_amdpcnet_v.Init.{lnc_init}
use maxxuss_amdpcnet_v.Multicast.{lnc_set_multicast}
use maxxuss_amdpcnet_v.Intr.{enable_hardware_interrupts, disable_hardware_interrupts}
use maxxuss_amdpcnet_v.Phy.{
  link_valid, phy_get_medium_with_index, phy_set_medium, phy_report_link_status,
}

abbrev pub watchdog_timer_period : ℕ
watchdog_timer_period = 4000

abbrev pub transmit_queue_capacity : ℕ
transmit_queue_capacity = 384

abbrev pub activation_level_0 : ℕ
activation_level_0 = 0

abbrev pub activation_level_1 : ℕ
activation_level_1 = 1

abbrev pub activation_level_2 : ℕ
activation_level_2 = 2

-- kFullInitialization and kResetChip.
abbrev pub full_initialization : ℕ
full_initialization = 0

abbrev pub reset_chip : ℕ
reset_chip = 1

-- In the test of `lnc_down` `!=` binds before `&`, so that the mask is the truth value of
-- `LNC_IFF_DRV_RUNNING != 0`.
unfoldable pub lnc_down : PcNet → PcNet
lnc_down s =
    let s1 = pcnet32_stop s in
    if has s1.sc.if_drv_flags (if lnc_iff_drv_running == 0 then 0 else 1)
    then with_sc
        (record s1.sc { if_drv_flags = bit_and s1.sc.if_drv_flags (not32 lnc_iff_drv_running) }) s1
    else s1

-- The results of `selectMedium`: kIOReturnSuccess, kIOReturnUnsupported and kIOReturnIOError.
pub data SelectReturn : Type 0 where
  select_success select_unsupported select_io_error : SelectReturn

module _ (env : Env) where
  unfoldable pub init_adapter : ℕ → PcNet → Bool × PcNet
  init_adapter options s =
      let s1 = record (disable_hardware_interrupts s) {
        medium_index_last_reported = medium_index_undef;
      } in
      if has options reset_chip
      then (true, act (sleep 20) (pcnet32_reset env (pcnet32_stop s1)))
      else (true, lnc_init env s1)

  -- What `selectMedium` does with a medium that is there.
  unfoldable pub use_medium : ℕ → PcNet → SelectReturn × PcNet
  use_medium medium s =
      let (success, s1) = phy_set_medium env medium s in
      if success
      then (
        select_success,
        phy_report_link_status env true
            (act (set_link_status link_valid none) (act (set_current_medium medium) s1)),
      )
      else (select_io_error, s1)

  -- `if ( medium == 0 ) return kIOReturnUnsupported`.
  unfoldable pub use_found : Option ℕ → PcNet → SelectReturn × PcNet
  use_found none s = (select_unsupported, s)
  use_found (some medium) s = use_medium medium s

  unfoldable pub select_medium : Option ℕ → PcNet → SelectReturn × PcNet
  select_medium (some medium) s = use_found (some medium) s
  select_medium none s = use_found (phy_get_medium_with_index medium_index_default s) s

  -- The end of `enableAdapter(kActivationLevel1)`: the periodic timer starts.
  unfoldable pub start_timer : SelectReturn → PcNet → Bool × PcNet
  start_timer select_success s = (true, act (set_timeout watchdog_timer_period) s)
  start_timer select_unsupported s = (false, s)
  start_timer select_io_error s = (false, s)

  -- What `enableAdapter(kActivationLevel1)` does once the provider is open.
  unfoldable pub bring_up : PcNet → Bool × PcNet
  bring_up s =
      let (ok, s1) = init_adapter full_initialization s in
      if ok
      then (let (ret, s2) = select_medium (env.selected_medium s1.trace) s1 in start_timer ret s2)
      else (false, s1)

  unfoldable pub enable_adapter : ℕ → PcNet → Bool × PcNet
  enable_adapter level s =
      if level == activation_level_1
      then (if s.pci_nub
          then (let (opened, s1) = ask env open_provider s in
              if opened then bring_up s1 else (false, s1))
          else (false, s))
      else if level == activation_level_2
      then (
        true,
        enable_hardware_interrupts (act start_queue (act (set_capacity transmit_queue_capacity) s)),
      )
      else (false, s)

  -- `disableAdapter(kActivationLevel1)`.
  unfoldable pub shut_down : PcNet → PcNet
  shut_down s =
      let s1 = lnc_down (init_adapter reset_chip (act cancel_timeout s)).1 in
      let s2 = act (set_link_status 0 none) (phy_set_medium env medium_index_none s1).1 in
      let s3 = act flush_queue (act (set_capacity 0) s2) in
      if s3.pci_nub then act close_provider s3 else s3

  unfoldable pub disable_adapter : ℕ → PcNet → Bool × PcNet
  disable_adapter level s =
      if level == activation_level_1
      then (true, shut_down s)
      else if level == activation_level_2
      then (true, act stop_queue (disable_hardware_interrupts s))
      else (false, s)

  -- The two loops of `setActivationLevel`, `n` rounds at most; the flag is `success`.
  unfoldable pub lower_level : ℕ → ℕ → Bool → PcNet → Bool × PcNet
  lower_level zero level success s = (success, s)
  lower_level (suc n) level success s =
      let (ok, s1) = disable_adapter s.current_level s in
      let rest = lower_level n level true (record s1 { current_level = s1.current_level - 1 }) in
      if ltb level s.current_level then (if ok then rest else (false, s1)) else (success, s)

  unfoldable pub raise_level : ℕ → ℕ → ℕ → Bool → PcNet → Bool × PcNet
  raise_level zero next level success s = (success, s)
  raise_level (suc n) next level success s =
      let (ok, s1) = enable_adapter next s in
      let rest =
        raise_level n (next + 1) level true (record s1 { current_level = s1.current_level + 1 }) in
      if ltb s.current_level level then (if ok then rest else (false, s1)) else (success, s)

  unfoldable pub set_activation_level : ℕ → PcNet → Bool × PcNet
  set_activation_level level s =
      if s.current_level == level
      then (true, s)
      else (let (success, s1) = lower_level (s.current_level - level) level false s in
          raise_level (level - s1.current_level) (s1.current_level + 1) level success s1)

  -- `enable` and `disable` of a network interface.
  unfoldable pub enable : PcNet → Bool × PcNet
  enable s =
      if s.enabled_by_bsd
      then (true, s)
      else (let (ok, s1) = set_activation_level activation_level_2 s in
          (ok, record s1 { enabled_by_bsd = ok }))

  unfoldable pub disable : PcNet → Bool × PcNet
  disable s =
      let level = if s.enabled_by_kdp then activation_level_1 else activation_level_0 in
      (true, (set_activation_level level (record s { enabled_by_bsd = false })).1)

  unfoldable pub handle_timeout : PcNet → PcNet
  handle_timeout s = act (set_timeout watchdog_timer_period) (phy_report_link_status env false s)

  unfoldable pub lnc_set_promiscuous_mode : Bool → PcNet → PcNet
  lnc_set_promiscuous_mode on s =
      if on
      then lnc_init env (
          with_sc
            (record s.sc {
              if_flags = bit_or s.sc.if_flags lnc_iff_promisc;
              nic_mode = bit_or s.sc.nic_mode mode_prom;
            })
            s)
      else if has s.sc.if_flags lnc_iff_promisc
      then lnc_init env (
          with_sc
            (record s.sc {
              if_flags = bit_and s.sc.if_flags (not32 lnc_iff_promisc);
              nic_mode = bit_and s.sc.nic_mode (not32 mode_prom);
            })
            s)
      else s

  unfoldable pub set_promiscuous_mode : Bool → PcNet → Bool × PcNet
  set_promiscuous_mode enabled s = (true, lnc_set_promiscuous_mode enabled s)

  unfoldable pub set_multicast_mode : Bool → PcNet → Bool × PcNet
  set_multicast_mode enabled s = (true, lnc_set_multicast env none s)

  unfoldable pub set_multicast_list : Option (List (List ℕ)) → PcNet → Bool × PcNet
  set_multicast_list addrs s = (true, lnc_set_multicast env addrs s)

  -- The bytes of a little-endian word, and the six bytes of the address.
  unfoldable pub get_hardware_address : PcNet → List ℕ × PcNet
  get_hardware_address s =
      let (lo, s1) = csr_read32 env pcn_io32_aprom00 s in
      let (hi, s2) = csr_read32 env pcn_io32_aprom01 s1 in
      (
        u8 lo
            ∷ u8 (lo / 2 ^ 8)
            ∷ u8 (lo / 2 ^ 16)
            ∷ u8 (lo / 2 ^ 24)
            ∷ u8 hi
            ∷ u8 (hi / 2 ^ 8)
            ∷ [],
        s2,
      )
