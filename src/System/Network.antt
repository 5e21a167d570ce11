-- ===== src/System/Network.antt =====
-- What the driver and the chip promise the network stack, without rings: packets go out in the order in
-- which they were accepted, and frames come in in the order of their arrival.
use maxxuss_amdpcnet_v.Base.{
  ℕ, ◌≡◌, refl, sym, ap, ◌∙◌, Bool, ◌||◌, List, [], ◌∷◌, ◌++◌, if◌then◌else◌,
}
use mathlib.Core.List.{append-nil, append_assoc}
use maxxuss_amdpcnet_v.Hw.{ether_addr_len}
use maxxuss_amdpcnet_v.Rx.Ring.{from_self}

pub data Label : Type 0 where
  submit send : List ℕ → Label
  receive : Bool → List ℕ → Label
  refuse reclaim deliver : Label

-- The packets accepted but not sent, and the frames received but not handed on, oldest first.
pub record Network : Type 0 where
  pub outbox : List (List ℕ)
  pub inbox : List (List ℕ)
  pub handed : List (List ℕ)

-- A frame with an error or from the station itself is dropped.
abbrev pub kept : (ℕ → ℕ) → Bool → List ℕ → List (List ℕ)
kept addr failed payload =
    if failed || from_self ether_addr_len 0 addr payload then [] else payload ∷ []

pub data NetStep (addr : ℕ → ℕ) (a b : Network) : Label → Type 0 where
  submitted :
      (p : List ℕ) → b ≡ record a { outbox = a.outbox ++ (p ∷ []) } → NetStep addr a b (submit p)
  refused : b ≡ a → NetStep addr a b refuse
  sent : (p : List ℕ) → a ≡ record b { outbox = p ∷ b.outbox } → NetStep addr a b (send p)
  received :
      (failed : Bool) (p : List ℕ)
      → b ≡ record a { inbox = a.inbox ++ kept addr failed p }
      → NetStep addr a b (receive failed p)
  reclaimed : b ≡ a → NetStep addr a b reclaim
  delivered : b ≡ record a { inbox = []; handed = a.handed ++ a.inbox } → NetStep addr a b deliver

-- A sequence of steps, by its labels, the last one first.
pub data NetRun (addr : ℕ → ℕ) (a : Network) : List Label → Network → Type 0 where
  start : NetRun addr a [] a
  later :
      {ls : List Label} {l : Label} {b c : Network}
      → NetRun addr a ls b
      → NetStep addr b c l
      → NetRun addr a (l ∷ ls) c

-- A sequence of labels in which the chip sends and the driver takes packets off its ring, and nothing
-- else happens.
pub data OnlySends : List Label → Type 0 where
  nothing : OnlySends []
  sending : {ls : List Label} (p : List ℕ) → OnlySends ls → OnlySends (send p ∷ ls)
  reclaiming : {ls : List Label} → OnlySends ls → OnlySends (reclaim ∷ ls)

-- The packets that a sequence of labels, the last one first, accepts and sends, and the frames that
-- it receives and does not drop.
unfoldable pub submits : List Label → List (List ℕ)
submits [] = []
submits (submit p ∷ ls) = submits ls ++ (p ∷ [])
submits (l ∷ ls) = submits ls

unfoldable pub sends : List Label → List (List ℕ)
sends [] = []
sends (send p ∷ ls) = sends ls ++ (p ∷ [])
sends (l ∷ ls) = sends ls

unfoldable pub arrivals : (ℕ → ℕ) → List Label → List (List ℕ)
arrivals addr [] = []
arrivals addr (receive failed p ∷ ls) = arrivals addr ls ++ kept addr failed p
arrivals addr (l ∷ ls) = arrivals addr ls

-- An empty network, as it is after the initialization.
abbrev pub quiet_network : List (List ℕ) → Network
quiet_network handed = record { outbox = []; inbox = []; handed = handed }

pub NetRun-order :
    {addr : ℕ → ℕ} {h : List (List ℕ)} {ls : List Label} {b : Network}
    → NetRun addr (quiet_network h) ls b
    → (submits ls ≡ sends ls ++ b.outbox) × (h ++ arrivals addr ls ≡ b.handed ++ b.inbox)
unfolding submits sends arrivals
NetRun-order {h} start = (refl, refl)
NetRun-order (later {ls} {b = a} r (submitted p e)) =
    let i = NetRun-order r in (rw (e, i.0) (append_assoc (sends ls) a.outbox (p ∷ [])), rw e i.1)
NetRun-order (later r (refused e)) = rw e (NetRun-order r)
NetRun-order (later {ls} {b = a} {c} r (sent p e)) =
    let i = NetRun-order r in
    (i.0 ∙ rw e (sym (append_assoc (sends ls) (p ∷ []) c.outbox)), i.1 ∙ rw e refl)
NetRun-order {addr} {h} (later {ls} {b = a} r (received failed p e)) =
    let i = NetRun-order r in
    let new = kept addr failed p in
    (
      rw e i.0,
      rw e (
          sym (append_assoc h (arrivals addr ls) new)
          ∙ ap (λ l. l ++ new) i.1
          ∙ append_assoc a.handed a.inbox new),
    )
NetRun-order (later r (reclaimed e)) = rw e (NetRun-order r)
NetRun-order (later {b = a} r (delivered e)) =
    let i = NetRun-order r in (rw e i.0, rw e (i.1 ∙ sym (append-nil (a.handed ++ a.inbox))))
