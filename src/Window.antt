-- ===== src/Window.antt =====
-- The accesses to the chip's window of I/O ports, 32 bytes wide (Source/PCNet_HW.h), and the provider
-- and the packets that the driver holds, all by the history of events.
pub mod Registers
pub mod Chip
pub mod Transmission
pub mod Reception
pub mod Interrupt
pub mod Level
pub mod Provider
pub mod Requests
use maxxuss_amdpcnet_v.Base.{
  ℕ, ◌+◌, ◌*◌, ◌%◌, ◌^◌, ◌<◌, ◌≤◌, ◌≡◌, List, [], ◌∷◌, Option, none, some, refl, sym, ◌⊎◌, inl, inr,
  Bool, true, false, suc, if◌then◌else◌,
}
use mathlib.Core.Option.{some-injective}
use maxxuss_amdpcnet_v.World.{
  Event, read8, read16, read32, write16, write32, config_read16, config_write16, asked, did,
  open_provider, close_provider, allocate_packet, input_packet, free_packet,
}
use maxxuss_amdpcnet_v.State.{PcNet}
use maxxuss_amdpcnet_v.Tx.{◌>>=◌, Flow, go_on, leave, bail}

-- An access of `width` bytes at a port lies in the window and is aligned, and its value fits.
abbrev pub Access : ℕ → ℕ → ℕ → Type 0
Access width port value = (port % width ≡ 0) × (port + width ≤ 32) × (value < 2 ^ (width * 8))

abbrev pub IsTyped : Event → Type 0
IsTyped (read8 port value) = Access 1 port value
IsTyped (read16 port value) = Access 2 port value
IsTyped (read32 port value) = Access 4 port value
IsTyped (write16 port value) = Access 2 port value
IsTyped (write32 port value) = Access 4 port value
IsTyped (config_read16 reg value) = Unit {0}
IsTyped (config_write16 reg value) = Unit {0}
IsTyped (asked c b) = Unit {0}
IsTyped (did a) = Unit {0}

abbrev pub AllTyped : List Event → Type 0
AllTyped [] = Unit {0}
AllTyped (e ∷ tr) = IsTyped e × AllTyped tr

-- Every access so far is well typed.
abbrev pub WellTyped : PcNet → Type 0
WellTyped s = AllTyped s.trace

-- Whether the provider is open, how many packets were allocated, and how many of them were handed to
-- the stack or freed.
abbrev pub is_open : List Event → Bool
is_open [] = false
is_open (asked open_provider b ∷ tr) = if b then true else is_open tr
is_open (did close_provider ∷ tr) = false
is_open (e ∷ tr) = is_open tr

abbrev pub allocated : List Event → ℕ
allocated [] = 0
allocated (asked (allocate_packet n) b ∷ tr) = if b then suc (allocated tr) else allocated tr
allocated (e ∷ tr) = allocated tr

abbrev pub consumed : List Event → ℕ
consumed [] = 0
consumed (did (input_packet pkt n) ∷ tr) = suc (consumed tr)
consumed (did free_packet ∷ tr) = suc (consumed tr)
consumed (e ∷ tr) = consumed tr

-- The accesses are well typed if `T` holds, and the provider and the packets are as given.
abbrev pub Steady : Type 0 → Bool → ℕ → ℕ → PcNet → Type 0
Steady T o a c s =
    (T → WellTyped s) × (is_open s.trace ≡ o) × (allocated s.trace ≡ a) × (consumed s.trace ≡ c)

pub steady :
    (s : PcNet)
    → WellTyped s
    → Steady (Unit {0}) (is_open s.trace) (allocated s.trace) (consumed s.trace) s
steady s h = (λ x. h, refl, refl, refl)

-- What holds of the result, if there is one.
pub record EveryResult {A : Type 0} (P : A → Type 0) (o : Option A) : Type 0 where
  pub holds : (a : A) → o ≡ some a → P a

pub every_some : {A : Type 0} (P : A → Type 0) (a : A) → P a → EveryResult P (some a)
every_some P a h = record {
  holds = λ b e. let same : b ≡ a = sym (some-injective a b e) in rw same h;
}

pub every_none : {A : Type 0} (P : A → Type 0) → EveryResult P none
every_none P = record { holds = λ b e. cc }

pub bind-EveryResult :
    {A B : Type 0} (P : A → Type 0) (Q : B → Type 0) (o : Option A) (f : A → Option B)
    → EveryResult P o
    → ((a : A) → P a → EveryResult Q (f a))
    → EveryResult Q (o >>= f)
bind-EveryResult P Q none f h k = every_none Q
bind-EveryResult P Q (some a) f h k = k a (h.holds a refl)

-- A result that is a state, or a state beside flags.
abbrev pub Second : {A : Type 0} → A × PcNet → Type 0
Second r = WellTyped r.1

abbrev pub Third : {A B : Type 0} → A × B × PcNet → Type 0
Third r = WellTyped r.2

abbrev pub Flows : Flow × PcNet → Type 0
Flows r = WellTyped r.1

pub Flow-cases : (f : Flow) → (f ≡ go_on) ⊎ (f ≡ leave) ⊎ (f ≡ bail)
Flow-cases go_on = inl refl
Flow-cases leave = inr (inl refl)
Flow-cases bail = inr (inr refl)

abbrev pub Any : {A : Type 0} → A → Type 0
Any x = Unit {0}

pub always : {A : Type 0} (o : Option A) → EveryResult Any o
always o = record { holds = λ a e. tt }
