-- ===== src/Examples/Clients.antt =====
-- The same for the clients of the adapter, the station's address, and a ring of mixed frames.
use maxxuss_amdpcnet_v.Base.{
  ℕ, ◌+◌, ◌*◌, ◌%◌, ◌^◌, ◌≡◌, refl, arith, ap, Bool, false, true, ◌==◌, ltb, [], ◌∷◌, some, none,
  inr, if◌then◌else◌,
}
use maxxuss_amdpcnet_v.World.{Env, open_provider}
use maxxuss_amdpcnet_v.Hw.{medium_index_undef}
use maxxuss_amdpcnet_v.Softc.{LncSoftc}
use maxxuss_amdpcnet_v.State.{PcNet, ask}
use maxxuss_amdpcnet_v.Init.{lnc_init}
use maxxuss_amdpcnet_v.Init.Frame.{lnc_init-frame}
use maxxuss_amdpcnet_v.Phy.{phy_get_medium_with_index}
use maxxuss_amdpcnet_v.Intr.{disable_hardware_interrupts}
use maxxuss_amdpcnet_v.Window.{allocated, consumed}
use maxxuss_amdpcnet_v.Window.Reception.{lnc_rint-accounts}
use maxxuss_amdpcnet_v.Window.Provider.{provider_open, enable_leaves_open}
use maxxuss_amdpcnet_v.Rx.{lnc_rint}
use maxxuss_amdpcnet_v.Rx.Waiting.{starts_at}
use maxxuss_amdpcnet_v.Rx.Span.{FrameAt, Handled}
use maxxuss_amdpcnet_v.Rx.Span.Mixed.{Holds, accepted_frames, descriptors}
use maxxuss_amdpcnet_v.Rx.Span.Rint.{lnc_rint-Handled}
use maxxuss_amdpcnet_v.Adapter.{
  get_hardware_address, enable, bring_up, init_adapter, select_medium, use_found, start_timer,
}
use maxxuss_amdpcnet_v.Adapter.Address.{IsProm, station_address, get_hardware_address-lnc_init}
use maxxuss_amdpcnet_v.Debugger.{enables, disables, enables_debugger, client_call, client_calls}
use maxxuss_amdpcnet_v.Debugger.Clients.{
  LevelFits, Answered, needed_level, client_call-Answered, client_calls-LevelFits,
}
use maxxuss_amdpcnet_v.Examples.{quiet, soft, driver, entry}

-- An adapter that nobody uses, and an I/O Kit where every call fails.
abbrev unused : PcNet
unused = record (driver soft) { current_level = 0; enabled_by_bsd = false }

abbrev refusing : Env
refusing = record quiet { answer = λ tr c. false }

client_call-Answered_example : Answered unused (client_call refusing enables unused)
unfolding needed_level
client_call-Answered_example = client_call-Answered refusing enables unused refl

client_calls-LevelFits_example :
    LevelFits (client_calls quiet (enables_debugger ∷ enables ∷ disables ∷ []) unused)
unfolding needed_level
client_calls-LevelFits_example =
    client_calls-LevelFits quiet (enables_debugger ∷ enables ∷ disables ∷ []) unused refl

-- A chip whose address PROM holds the bytes 0, 1, 2 and so on.
abbrev counting : ℕ → ℕ
counting i = i % 2 ^ 8

abbrev with_prom : Env
with_prom = record quiet {
  port8 = λ tr i. if ltb i 16 then counting i else 0;
  port32 = λ tr i.
      if ltb (i + 3) 16
      then counting i
        + counting (i + 1) * 2 ^ 8
        + counting (i + 2) * 2 ^ 16
        + counting (i + 3) * 2 ^ 24
      else 0x0100;
}

with_prom-IsProm : IsProm with_prom counting
with_prom-IsProm = record {
  bytes = λ i. omega arith;
  byte = λ tr i h. ground arith;
  word = λ tr i h. ground arith;
}

get_hardware_address-lnc_init_example :
    (get_hardware_address with_prom unused).0
    ≡ station_address (lnc_init with_prom (driver soft)).sc.init_block
get_hardware_address-lnc_init_example =
    get_hardware_address-lnc_init with_prom counting with_prom-IsProm (driver soft) unused

-- A frame of 60 bytes in one descriptor, one of 3500 bytes in three, and one with an error in two.
abbrev mixed : LncSoftc
mixed = record soft {
  recv_entries = λ i.
      if i == 30
      then entry 0x20_0000 0x0300 64
      else if i == 31
      then entry 0x21_0000 0x0200 0
      else if i == 0
      then entry 0x22_0000 0 0
      else if i == 1
      then entry 0x23_0000 0x0100 3504
      else if i == 2
      then entry 0x24_0000 0x0200 0
      else if i == 3
      then entry 0x25_0000 0x4100 1600
      else entry 0x26_0000 0x8000 0;
  recv_next = 30;
}

mixed-Holds : Holds (0 ∷ 2 ∷ 1 ∷ []) mixed
unfolding descriptors
mixed-Holds = record {
  size = refl;
  next_in = omega arith;
  frames = (one, (three, (two, tt)));
  fit = omega arith;
  end = inr refl;
}
  where
    one : FrameAt 0 0 mixed
    one = record {
      within = omega arith;
      starts = refl;
      goes_on = λ j p. absurd (omega arith);
      inner = λ j p. absurd (omega arith);
      ends = refl;
      last_starts = λ p. absurd (omega arith);
      last_freed = λ p. absurd (omega arith);
      long = λ p. omega arith;
      fits = λ p. omega arith;
    }

    three : FrameAt 2 1 mixed
    three = record {
      within = omega arith;
      starts = refl;
      goes_on = λ j p. ground arith;
      inner = λ j p. ground arith;
      ends = refl;
      last_starts = λ p. refl;
      last_freed = λ p. refl;
      long = λ p. omega arith;
      fits = λ p. omega arith;
    }

    two : FrameAt 1 4 mixed
    two = record {
      within = omega arith;
      starts = refl;
      goes_on = λ j p. ground arith;
      inner = λ j p. absurd (omega arith);
      ends = refl;
      last_starts = λ p. refl;
      last_freed = λ p. refl;
      long = λ p. cc;
      fits = λ p. cc;
    }

lnc_rint-Handled_example :
    let s = driver mixed in
    (r : Bool × PcNet) × (lnc_rint quiet 34 false s ≡ some (r.0, r.1))
    × Handled 6 (accepted_frames s.mem mixed (0 ∷ 2 ∷ 1 ∷ []) 0) s r.1
    × (starts_at r.1.sc 0 ≡ false)
unfolding descriptors
lnc_rint-Handled_example =
    lnc_rint-Handled quiet 32 false (0 ∷ 2 ∷ 1 ∷ []) (driver mixed) (omega arith) (λ tr n. refl)
      mixed-Holds

-- A driver that found its provider and no medium.
abbrev no_medium : PcNet
no_medium = record unused { medium_table = λ i. none }

abbrev probe : PcNet
probe = (ask quiet open_provider no_medium).1

probe_fails : (bring_up quiet probe).0 ≡ false
unfolding bring_up init_adapter select_medium use_found phy_get_medium_with_index start_timer
    disable_hardware_interrupts
probe_fails =
    let s1 = record (disable_hardware_interrupts probe) {
      medium_index_last_reported = medium_index_undef;
    } in
    let table : (lnc_init quiet s1).medium_table ≡ (λ i. none) =
      ap {A = PcNet} (λ x. x.medium_table) (lnc_init-frame quiet s1) in
    rw table refl

enable_leaves_open_example :
    let t = enable quiet no_medium in
    (t.0 ≡ false) × (t.1.current_level ≡ 0) × (provider_open t.1 ≡ true)
enable_leaves_open_example = enable_leaves_open quiet no_medium refl refl probe_fails refl refl

abbrev emptied : Bool × PcNet
emptied =
    (lnc_rint-Handled quiet 32 false (0 ∷ 2 ∷ 1 ∷ []) (driver mixed) (omega arith) (λ tr n. refl)
      mixed-Holds).0

lnc_rint-accounts_example :
    allocated emptied.1.trace + consumed [] ≡ consumed emptied.1.trace + allocated []
lnc_rint-accounts_example = lnc_rint-accounts quiet 34 false (driver mixed) emptied (
    (lnc_rint-Handled quiet 32 false (0 ∷ 2 ∷ 1 ∷ []) (driver mixed) (omega arith) (λ tr n. refl)
      mixed-Holds).1)
