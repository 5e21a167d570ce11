-- ===== src/Base/Bits.antt =====
-- Laws of the bit operations at variables, from the recursion on binary digits.
use Prim.Native.Nat.{ℕ, zero, suc, ◌+◌, ◌*◌, ◌/◌, ◌%◌, ◌≤◌, ◌<◌, ◌-◌, ◌^◌, min, max}
use Prim.Native.Nat.{bit_and, bit_or, bit_xor, digits, bitwise, differ}
use Prim.Native.Nat.{bit_and-bitwise, bit_or-bitwise, bit_xor-bitwise}
use mathlib.Core.Path.{◌≡◌, refl, ap, ◌∙◌}
use mathlib.Core.WellFounded
use native.Mathlib.Nat.{pow-suc}
use native.Mathlib.Omega.{arith}
use mathlib.Core.Bool.{Bool, true, ◌&&◌, ◌||◌}
use native.Mathlib.Decide.{dec_lt}
use maxxuss_amdpcnet_v.Base.Order.{lt_wf}
use maxxuss_amdpcnet_v.Base.Words.{has}

-- One more unit of fuel than the number needs changes nothing, and so do any number of them.
module _ (none_left : ℕ → ℕ) (combine : ℕ → ℕ → ℕ) where
  digits-suc :
      (fuel x y : ℕ)
      → x ≤ fuel
      → digits none_left combine (suc fuel) x y ≡ digits none_left combine fuel x y
  digits-suc zero x y h = let e : x ≡ 0 = omega arith in rw e refl
  digits-suc (suc fuel) zero y h = refl
  digits-suc (suc fuel) (suc x) y h = rw (digits-suc fuel (suc x / 2) (y / 2) (omega arith))

  digits-add :
      (more x y : ℕ) → digits none_left combine (more + x) x y ≡ digits none_left combine x x y
  digits-add zero x y = let e : 0 + x ≡ x = omega arith in rw e refl
  digits-add (suc more) x y =
      let e : suc more + x ≡ suc (more + x) = omega arith in
      rw e (digits-suc (more + x) x y (omega arith) ∙ digits-add more x y)

  lowest_digit :
      (x y : ℕ)
      → bitwise none_left combine (suc x) y
        ≡ combine (suc x % 2) (y % 2) + 2 * bitwise none_left combine (suc x / 2) (y / 2)
  lowest_digit x y =
      let spare : x - suc x / 2 + suc x / 2 ≡ x = omega arith in
      let e = digits-add (x - suc x / 2) (suc x / 2) (y / 2) in
      omega (arith, ap (λ n. digits none_left combine n (suc x / 2) (y / 2)) spare, e)

differ-eq-sub : (x y : ℕ) → differ x y ≡ (x - y) + (y - x)
differ-eq-sub zero y = omega arith
differ-eq-sub (suc x) zero = omega arith
differ-eq-sub (suc x) (suc y) = omega (arith, differ-eq-sub x y)

differ_lem : (a b : ℕ) → differ (a % 2) (b % 2) ≡ (a % 2 + b % 2) % 2
differ_lem a b = omega (arith, differ-eq-sub (a % 2) (b % 2))

pub bit_xor_step : (a b : ℕ) → bit_xor a b ≡ (a % 2 + b % 2) % 2 + 2 * bit_xor (a / 2) (b / 2)
bit_xor_step zero b = simp bit_xor-bitwise (omega arith)
bit_xor_step (suc a) b = simp (bit_xor-bitwise, ← differ_lem) (lowest_digit (λ n. n) differ a b)

pub bit_or_step : (x y : ℕ) → bit_or x y ≡ max (x % 2) (y % 2) + 2 * bit_or (x / 2) (y / 2)
bit_or_step zero y = simp bit_or-bitwise (omega arith)
bit_or_step (suc x) y = simp bit_or-bitwise (lowest_digit (λ n. n) max x y)

pub bit_and_step : (x y : ℕ) → bit_and x y ≡ min (x % 2) (y % 2) + 2 * bit_and (x / 2) (y / 2)
bit_and_step zero y = simp bit_and-bitwise (omega arith)
bit_and_step (suc x) y = simp bit_and-bitwise (lowest_digit (λ n. 0) min x y)

pub zero-bit_and : (b : ℕ) → bit_and 0 b ≡ 0
zero-bit_and b = bit_and-bitwise 0 b

pub zero-bit_or : (b : ℕ) → bit_or 0 b ≡ b
zero-bit_or b = bit_or-bitwise 0 b

pub zero-bit_xor : (b : ℕ) → bit_xor 0 b ≡ b
zero-bit_xor b = bit_xor-bitwise 0 b

-- The lowest digit and the rest of each operation's result.
pub bit_xor_parts :
    (a b : ℕ)
    → (bit_xor a b / 2 ≡ bit_xor (a / 2) (b / 2)) × (bit_xor a b % 2 ≡ (a % 2 + b % 2) % 2)
bit_xor_parts a b = omega (arith, bit_xor_step a b)

or_parts :
    (a b : ℕ) → (bit_or a b / 2 ≡ bit_or (a / 2) (b / 2)) × (bit_or a b % 2 ≡ max (a % 2) (b % 2))
or_parts a b = omega (arith, bit_or_step a b)

pub and_parts :
    (a b : ℕ)
    → (bit_and a b / 2 ≡ bit_and (a / 2) (b / 2)) × (bit_and a b % 2 ≡ min (a % 2) (b % 2))
and_parts a b = omega (arith, bit_and_step a b)

-- A mask distributes over `|`.
pub bit_and-bit_or : (a b c : ℕ) → bit_and (bit_or a b) c ≡ bit_or (bit_and a c) (bit_and b c)
bit_and-bit_or a =
    WellFounded.induction lt_wf
      {C = λ a. (b c : ℕ) → bit_and (bit_or a b) c ≡ bit_or (bit_and a c) (bit_and b c)} a step
  where
    step :
        (n : ℕ)
        → ((m : ℕ)
            → m < n
            → (b c : ℕ) → bit_and (bit_or m b) c ≡ bit_or (bit_and m c) (bit_and b c))
        → (b c : ℕ) → bit_and (bit_or n b) c ≡ bit_or (bit_and n c) (bit_and b c)
    step zero ih b c = simp (zero-bit_or, zero-bit_and)
    step (suc n) ih b c =
        rw
          (
            bit_and_step (bit_or (suc n) b) c,
            bit_or_step (bit_and (suc n) c) (bit_and b c),
            (or_parts (suc n) b).0,
            (and_parts (suc n) c).0,
            (and_parts b c).0,
            ih (suc n / 2) (omega arith) (b / 2) (c / 2),
          )
          (omega (arith, or_parts (suc n) b, and_parts (suc n) c, and_parts b c))

pub bit_xor-zero : (a : ℕ) → bit_xor a 0 ≡ a
bit_xor-zero a = WellFounded.induction lt_wf {C = λ a. bit_xor a 0 ≡ a} a step
  where
    step : (n : ℕ) → ((m : ℕ) → m < n → bit_xor m 0 ≡ m) → bit_xor n 0 ≡ n
    step zero ih = refl
    step (suc n) ih = omega (arith, bit_xor_step (suc n) 0, ih (suc n / 2) (omega arith))

pub bit_xor_comm : (a b : ℕ) → bit_xor a b ≡ bit_xor b a
bit_xor_comm a = WellFounded.induction lt_wf {C = λ a. (b : ℕ) → bit_xor a b ≡ bit_xor b a} a step
  where
    step :
        (n : ℕ)
        → ((m : ℕ) → m < n → (b : ℕ) → bit_xor m b ≡ bit_xor b m)
        → (b : ℕ) → bit_xor n b ≡ bit_xor b n
    step zero ih b = rw (zero-bit_xor, bit_xor-zero)
    step (suc n) ih b = omega (
      arith,
      bit_xor_step (suc n) b,
      bit_xor_step b (suc n),
      ih (suc n / 2) (omega arith) (b / 2),
    )

pub bit_xor_assoc : (a b c : ℕ) → bit_xor (bit_xor a b) c ≡ bit_xor a (bit_xor b c)
bit_xor_assoc a =
    WellFounded.induction lt_wf
      {C = λ a. (b c : ℕ) → bit_xor (bit_xor a b) c ≡ bit_xor a (bit_xor b c)} a step
  where
    step :
        (n : ℕ)
        → ((m : ℕ) → m < n → (b c : ℕ) → bit_xor (bit_xor m b) c ≡ bit_xor m (bit_xor b c))
        → (b c : ℕ) → bit_xor (bit_xor n b) c ≡ bit_xor n (bit_xor b c)
    step zero ih b c = simp zero-bit_xor
    step (suc n) ih b c =
        rw
          (
            bit_xor_step (bit_xor (suc n) b) c,
            bit_xor_step (suc n) (bit_xor b c),
            (bit_xor_parts (suc n) b).0,
            (bit_xor_parts b c).0,
            ih (suc n / 2) (omega arith) (b / 2) (c / 2),
          )
          (omega (arith, bit_xor_parts (suc n) b, bit_xor_parts b c))

pub bit_xor_self : (a : ℕ) → bit_xor a a ≡ 0
bit_xor_self a = WellFounded.induction lt_wf {C = λ a. bit_xor a a ≡ 0} a step
  where
    step : (n : ℕ) → ((m : ℕ) → m < n → bit_xor m m ≡ 0) → bit_xor n n ≡ 0
    step zero ih = refl
    step (suc n) ih = omega (arith, bit_xor_step (suc n) (suc n), ih (suc n / 2) (omega arith))

bit_and-bit_or_right : (x m n : ℕ) → bit_and x (bit_or m n) ≡ bit_or (bit_and x m) (bit_and x n)
bit_and-bit_or_right x =
    WellFounded.induction lt_wf
      {C = λ x. (m n : ℕ) → bit_and x (bit_or m n) ≡ bit_or (bit_and x m) (bit_and x n)} x step
  where
    step :
        (k : ℕ)
        → ((j : ℕ)
            → j < k
            → (m n : ℕ) → bit_and j (bit_or m n) ≡ bit_or (bit_and j m) (bit_and j n))
        → (m n : ℕ) → bit_and k (bit_or m n) ≡ bit_or (bit_and k m) (bit_and k n)
    step zero ih m n = simp (zero-bit_or, zero-bit_and)
    step (suc k) ih m n =
        rw
          (
            bit_and_step (suc k) (bit_or m n),
            bit_or_step (bit_and (suc k) m) (bit_and (suc k) n),
            (or_parts m n).0,
            (and_parts (suc k) m).0,
            (and_parts (suc k) n).0,
            ih (suc k / 2) (omega arith) (m / 2) (n / 2),
          )
          (omega (arith, or_parts m n, and_parts (suc k) m, and_parts (suc k) n))

le-bit_or : (a b : ℕ) → (a ≤ bit_or a b) × (b ≤ bit_or a b)
le-bit_or a =
    WellFounded.induction lt_wf {C = λ a. (b : ℕ) → (a ≤ bit_or a b) × (b ≤ bit_or a b)} a step
  where
    step :
        (n : ℕ)
        → ((m : ℕ) → m < n → (b : ℕ) → (m ≤ bit_or m b) × (b ≤ bit_or m b))
        → (b : ℕ) → (n ≤ bit_or n b) × (b ≤ bit_or n b)
    step zero ih b = omega (arith, zero-bit_or b)
    step (suc n) ih b = omega (arith, bit_or_step (suc n) b, ih (suc n / 2) (omega arith) (b / 2))

-- A test of several bits is the disjunction of the tests.
pub has-bit_or : (x m n : ℕ) → has x (bit_or m n) ≡ (has x m || has x n)
has-bit_or x m n =
    ground (arith, bit_and-bit_or_right x m n, le-bit_or (bit_and x m) (bit_and x n), zero-bit_or 0)

-- A bit of `a | b` is a bit of `a` or of `b`.
pub has_of-bit_or : (a b m : ℕ) → has (bit_or a b) m ≡ (has a m || has b m)
has_of-bit_or a b m =
    ground (arith, bit_and-bit_or a b m, le-bit_or (bit_and a m) (bit_and b m), zero-bit_or 0)

-- The result needs no more digits than its arguments.
pub bit_xor-lt : (n a b : ℕ) → a < 2 ^ n → b < 2 ^ n → bit_xor a b < 2 ^ n
bit_xor-lt zero a b ha hb = let e : a ≡ 0 = omega arith in rw (e, zero-bit_xor) (omega arith)
bit_xor-lt (suc n) a b ha hb = omega (
  arith,
  bit_xor_step a b,
  pow-suc 2 n,
  bit_xor-lt n (a / 2) (b / 2) (omega (arith, pow-suc 2 n)) (omega (arith, pow-suc 2 n)),
)

bit_and-zero_below : (bound x : ℕ) → x ≤ bound → bit_and x 0 ≡ 0
bit_and-zero_below zero x h = let none_left : x ≡ 0 = omega arith in rw none_left (zero-bit_and 0)
bit_and-zero_below (suc bound) x h = elim (dec_lt 0 x) [
  | no p ↦ let none_left : x ≡ 0 = omega arith in rw none_left (zero-bit_and 0)
  | yes p ↦ omega (arith, bit_and_step x 0, bit_and-zero_below bound (x / 2) (omega arith))
]

pub bit_and-zero : (x : ℕ) → bit_and x 0 ≡ 0
bit_and-zero x = bit_and-zero_below x x (omega arith)

pub bit_and_fifteen : (a : ℕ) → bit_and a 15 ≡ a % 16
bit_and_fifteen a = omega (
  arith,
  bit_and_step a 15,
  bit_and_step (a / 2) 7,
  bit_and_step (a / 2 / 2) 3,
  bit_and_step (a / 2 / 2 / 2) 1,
  bit_and-zero (a / 2 / 2 / 2 / 2),
)

pub bit_and_seven : (a : ℕ) → bit_and a 7 ≡ a % 8
bit_and_seven a = omega (
  arith,
  bit_and_step a 7,
  bit_and_step (a / 2) 3,
  bit_and_step (a / 2 / 2) 1,
  bit_and-zero (a / 2 / 2 / 2),
)

bit_xor_double : (q r : ℕ) → bit_xor (q * 2) r ≡ bit_xor q (r / 2) * 2 + r % 2
bit_xor_double q r =
    let e : q * 2 / 2 ≡ q = omega arith in rw (bit_xor_step (q * 2) r, e) (omega arith)

-- Half a byte under a multiple of sixteen.
pub bit_xor_low : (q r : ℕ) → r < 16 → bit_xor (q * 16) r ≡ q * 16 + r
bit_xor_low q r h =
    let e : q * 16 ≡ q * 2 * 2 * 2 * 2 = omega arith in
    let z : r / 2 / 2 / 2 / 2 ≡ 0 = omega arith in
    rw
      (
        e,
        bit_xor_double (q * 2 * 2 * 2) r,
        bit_xor_double (q * 2 * 2) (r / 2),
        bit_xor_double (q * 2) (r / 2 / 2),
        bit_xor_double q (r / 2 / 2 / 2),
        z,
        bit_xor-zero q,
      )
      (omega arith)

pub bit_xor_cancel : (x y p : ℕ) → bit_xor (bit_xor x p) (bit_xor y p) ≡ bit_xor x y
bit_xor_cancel x y p =
    rw (bit_xor_comm y p, bit_xor_assoc, ← bit_xor_assoc p p y, bit_xor_self, zero-bit_xor)

pub bit_xor_swap : (x y p : ℕ) → bit_xor (bit_xor x p) y ≡ bit_xor (bit_xor x y) p
bit_xor_swap x y p = rw (bit_xor_assoc x p y, bit_xor_comm p y, ← bit_xor_assoc x y p)

-- A property of every number below a bound, by evaluation.
unfoldable pub all_below : ℕ → (ℕ → Bool) → Bool
all_below zero test = true
all_below (suc bound) test = test bound && all_below bound test

pub all_below_sound :
    (bound : ℕ) (test : ℕ → Bool) (n : ℕ) → all_below bound test ≡ true → n < bound → test n ≡ true
unfolding all_below
all_below_sound zero test n all lt = absurd (omega arith)
all_below_sound (suc bound) test n all lt = ground (arith, all_below_sound bound test n)
