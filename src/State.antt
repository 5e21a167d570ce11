-- ===== src/State.antt =====
-- The members of class PCNET (Source/PCNet.h) with its soft state, the memory that packets are copied
-- through, and the history of events. A pointer to an I/O Kit object is whether it is set.
use maxxuss_amdpcnet_v.Base.{ℕ, ◌+◌, Bool, List, Option, ◌∷◌, u32}
use maxxuss_amdpcnet_v.World.{Env, Event, Call, Action, asked, did}
use maxxuss_amdpcnet_v.Softc.{LncSoftc}

-- The counters of IONetworkStats and IOEthernetStats that the driver bumps.
pub record Counters : Type 0 where
  pub input_packets : ℕ
  pub input_errors : ℕ
  pub output_packets : ℕ
  pub output_errors : ℕ
  pub sqe_test_errors : ℕ
  pub missed_frames : ℕ
  pub alignment_errors : ℕ
  pub fcs_errors : ℕ
  pub late_collisions : ℕ
  pub carrier_sense_errors : ℕ
  pub excessive_collisions : ℕ
  pub multiple_collision_frames : ℕ
  pub single_collision_frames : ℕ
  pub rx_interrupts : ℕ
  pub rx_resets : ℕ
  pub rx_resource_errors : ℕ
  pub tx_interrupts : ℕ
  pub tx_resets : ℕ
  pub tx_phy_errors : ℕ
  pub tx_underruns : ℕ

-- `x += 1` of the UInt32 counters.
abbrev pub bump : ℕ → ℕ
bump x = u32 (x + 1)

pub record PcNet : Type 0 where
  pub netif : Bool
  pub pci_nub : Bool
  pub work_loop : Bool
  pub interrupt_src : Bool
  pub transmit_queue : Bool
  pub timer_src : Bool
  pub counters : Counters
  pub net_stats : Bool
  pub ether_stats : Bool
  pub csr_map : Bool
  pub medium_dict : Bool
  pub medium_table : ℕ → Option ℕ
  pub current_level : ℕ
  pub enabled_by_bsd : Bool
  pub enabled_by_kdp : Bool
  pub interrupt_enabled : Bool
  pub current_medium_index : ℕ
  pub medium_index_last_reported : ℕ
  pub sc : LncSoftc
  -- memory by address, a byte each
  pub mem : ℕ → ℕ
  pub trace : List Event

abbrev pub log : Event → PcNet → PcNet
log e s = record s { trace = e ∷ s.trace }

abbrev pub act : Action → PcNet → PcNet
act a s = log (did a) s

abbrev pub with_sc : LncSoftc → PcNet → PcNet
with_sc c s = record s { sc = c }

abbrev pub ask : Env → Call → PcNet → Bool × PcNet
ask env c s = let b = env.answer s.trace c in (b, log (asked c b) s)
