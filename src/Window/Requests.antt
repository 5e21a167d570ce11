-- ===== src/Window/Requests.antt =====
-- Everything that I/O Kit asks of a started driver, and the port accesses that it makes for it.
use maxxuss_amdpcnet_v.Base.{
  ℕ, ◌≡◌, arith, Bool, true, false, List, [], ◌∷◌, Option, none, some, has, if_both, if◌then◌else◌,
}
use maxxuss_amdpcnet_v.World.{Env}
use maxxuss_amdpcnet_v.Softc.{lnc_iff_promisc}
use maxxuss_amdpcnet_v.State.{PcNet}
use maxxuss_amdpcnet_v.Port.{csr_read32}
use maxxuss_amdpcnet_v.Tx.{Mbuf, ◌>>=◌}
use maxxuss_amdpcnet_v.Intr.{handle_interrupt, output_packet}
use maxxuss_amdpcnet_v.Adapter.{
  activation_level_0, activation_level_1, activation_level_2, select_medium, handle_timeout,
  lnc_set_promiscuous_mode, set_promiscuous_mode, set_multicast_mode, set_multicast_list,
  get_hardware_address, enable, disable,
}
use maxxuss_amdpcnet_v.Debugger.{
  ClientCall, enables, disables, enables_debugger, disables_debugger, client_call, enable_debugger,
  disable_debugger,
}
use maxxuss_amdpcnet_v.Window.{WellTyped, EveryResult, every_some, bind-EveryResult}
use maxxuss_amdpcnet_v.Window.Chip.{
  lnc_init-WellTyped, lnc_set_multicast-WellTyped, phy_report_link_status-WellTyped,
}
use maxxuss_amdpcnet_v.Window.Interrupt.{handle_interrupt-WellTyped, output_packet-WellTyped}
use maxxuss_amdpcnet_v.Window.Level.{select_medium-WellTyped, set_activation_level-WellTyped}

pub data Request : Type 0 where
  interrupts times_out asks_address : Request
  sends : Mbuf → Request
  calls : ClientCall → Request
  selects : Option ℕ → Request
  sets_promiscuous sets_multicast : Bool → Request
  lists_multicast : Option (List (List ℕ)) → Request

module _ (env : Env) (f : ℕ) where
  -- The state after a request, if the driver comes back from it.
  unfoldable pub serve : Request → PcNet → Option PcNet
  serve interrupts s = handle_interrupt env f s
  serve times_out s = some (handle_timeout env s)
  serve asks_address s = some (get_hardware_address env s).1
  serve (sends pkt) s = some (output_packet pkt s).1
  serve (calls c) s = some (client_call env c s).1
  serve (selects m) s = some (select_medium env m s).1
  serve (sets_promiscuous on) s = some (set_promiscuous_mode env on s).1
  serve (sets_multicast on) s = some (set_multicast_mode env on s).1
  serve (lists_multicast addrs) s = some (set_multicast_list env addrs s).1

  unfoldable pub serve_all : List Request → PcNet → Option PcNet
  serve_all [] s = some s
  serve_all (r ∷ rs) s = serve r s >>= λ t. serve_all rs t

module _ (env : Env) where
  client_call-WellTyped :
      (c : ClientCall) (s : PcNet) → WellTyped s → WellTyped (client_call env c s).1
  unfolding client_call enable disable enable_debugger disable_debugger
  client_call-WellTyped enables s h =
      ground (arith, h, set_activation_level-WellTyped env activation_level_2 s h)
  client_call-WellTyped disables s h =
      set_activation_level-WellTyped env
        (if s.enabled_by_kdp then activation_level_1 else activation_level_0)
        (record s { enabled_by_bsd = false }) h
  client_call-WellTyped enables_debugger s h =
      ground (arith, h, set_activation_level-WellTyped env activation_level_1 s h)
  client_call-WellTyped disables_debugger s h = ground (
    arith,
    h,
    set_activation_level-WellTyped env activation_level_0 (record s { enabled_by_kdp = false }) h,
  )

  get_hardware_address-WellTyped :
      (s : PcNet) → WellTyped s → WellTyped (get_hardware_address env s).1
  unfolding get_hardware_address csr_read32
  get_hardware_address-WellTyped s h = ground arith

  set_promiscuous_mode-WellTyped :
      (on : Bool) (s : PcNet) → WellTyped s → WellTyped (set_promiscuous_mode env on s).1
  unfolding set_promiscuous_mode lnc_set_promiscuous_mode
  set_promiscuous_mode-WellTyped true s h = lnc_init-WellTyped env _ h
  set_promiscuous_mode-WellTyped false s h =
      if_both WellTyped (has s.sc.if_flags lnc_iff_promisc) _ _ (lnc_init-WellTyped env _ h) h

  handle_timeout-WellTyped : (s : PcNet) → WellTyped s → WellTyped (handle_timeout env s)
  unfolding handle_timeout
  handle_timeout-WellTyped s h = (tt, phy_report_link_status-WellTyped env s h false)

module _ (env : Env) (f : ℕ) where
  serve-WellTyped :
      (r : Request) (s : PcNet) → WellTyped s → EveryResult WellTyped (serve env f r s)
  unfolding serve set_multicast_mode set_multicast_list
  serve-WellTyped interrupts s h = handle_interrupt-WellTyped env f s h
  serve-WellTyped times_out s h = every_some WellTyped _ (handle_timeout-WellTyped env s h)
  serve-WellTyped asks_address s h = every_some WellTyped _ (get_hardware_address-WellTyped env s h)
  serve-WellTyped (sends pkt) s h = every_some WellTyped _ (output_packet-WellTyped pkt s h)
  serve-WellTyped (calls c) s h = every_some WellTyped _ (client_call-WellTyped env c s h)
  serve-WellTyped (selects m) s h = every_some WellTyped _ (select_medium-WellTyped env m s h)
  serve-WellTyped (sets_promiscuous on) s h =
      every_some WellTyped _ (set_promiscuous_mode-WellTyped env on s h)
  serve-WellTyped (sets_multicast on) s h =
      every_some WellTyped _ (lnc_set_multicast-WellTyped env s h none)
  serve-WellTyped (lists_multicast addrs) s h =
      every_some WellTyped _ (lnc_set_multicast-WellTyped env s h addrs)

  all-WellTyped :
      (rs : List Request) (s : PcNet) → WellTyped s → EveryResult WellTyped (serve_all env f rs s)
  unfolding serve_all
  all-WellTyped [] s h = every_some WellTyped s h
  all-WellTyped (r ∷ rs) s h =
      bind-EveryResult WellTyped WellTyped (serve env f r s) _ (serve-WellTyped r s h)
        (λ t k. all-WellTyped rs t k)

  -- Whatever the chip and I/O Kit answer, whatever the state of the driver, and after any requests that
  -- it comes back from: if every port access so far was well typed, every one still is, that is, it lies
  -- in the chip's window of 32 ports, is aligned to its width, and its value fits that width.
  pub serve_all-WellTyped :
      (rs : List Request) (s t : PcNet) → WellTyped s → serve_all env f rs s ≡ some t → WellTyped t
  serve_all-WellTyped rs s t h e = (all-WellTyped rs s h).holds t e
