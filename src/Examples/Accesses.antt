-- ===== src/Examples/Accesses.antt =====
-- The same for the port accesses of a run of requests.
use maxxuss_amdpcnet_v.Base.{refl, Option, none, some, List, [], ◌∷◌}
use maxxuss_amdpcnet_v.State.{PcNet}
use maxxuss_amdpcnet_v.Port.{read_csr}
use maxxuss_amdpcnet_v.Tx.{lnc_output_packet}
use maxxuss_amdpcnet_v.Intr.{handle_interrupt, output_packet, lnc_intr, intr_loop, read_rap}
use maxxuss_amdpcnet_v.Window.{WellTyped}
use maxxuss_amdpcnet_v.Window.Requests.{
  Request, interrupts, times_out, sends, asks_address, serve, serve_all, serve_all-WellTyped,
}
use maxxuss_amdpcnet_v.Examples.{quiet, soft, driver, packet}

abbrev requests : List Request
requests = sends packet ∷ interrupts ∷ times_out ∷ asks_address ∷ []

abbrev or_else : Option PcNet → PcNet → PcNet
or_else none s = s
or_else (some t) s = t

abbrev served : PcNet
served = or_else (serve_all quiet 34 requests (driver soft)) (driver soft)

serve_all-WellTyped_example : WellTyped served
unfolding serve_all serve handle_interrupt output_packet lnc_output_packet lnc_intr intr_loop
    read_csr read_rap
serve_all-WellTyped_example = serve_all-WellTyped quiet 34 requests (driver soft) served tt refl
