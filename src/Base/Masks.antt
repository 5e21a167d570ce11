-- ===== src/Base/Masks.antt =====
-- Masks of several bits, and masks of masks.
use maxxuss_amdpcnet_v.Base.{
  ℕ, zero, suc, ◌+◌, ◌*◌, ◌/◌, ◌%◌, ◌^◌, ◌<◌, ◌≡◌, refl, arith, ap, sym, ◌∙◌, bit_and, bit_or, has,
  false, lt_wf,
}
use mathlib.Core.WellFounded
use maxxuss_amdpcnet_v.Base.Bits.{
  bit_or_step, zero-bit_or, bit_and_step, zero-bit_and, and_parts, bit_and-zero, bit_and_fifteen,
}

-- A mask of four bits more.
bit_and_sixteen_times : (a m : ℕ) → bit_and a (16 * m + 15) ≡ a % 16 + 16 * bit_and (a / 16) m
bit_and_sixteen_times a m =
    let e1 : (16 * m + 15) / 2 ≡ 8 * m + 7 = omega arith in
    let e2 : (8 * m + 7) / 2 ≡ 4 * m + 3 = omega arith in
    let e3 : (4 * m + 3) / 2 ≡ 2 * m + 1 = omega arith in
    let e4 : (2 * m + 1) / 2 ≡ m = omega arith in
    let d : a / 2 / 2 / 2 / 2 ≡ a / 16 = omega arith in
    let s1 = rw e1 at (bit_and_step a (16 * m + 15)) in
    let s2 = rw e2 at (bit_and_step (a / 2) (8 * m + 7)) in
    let s3 = rw e3 at (bit_and_step (a / 2 / 2) (4 * m + 3)) in
    let s4 = rw (e4, d) at (bit_and_step (a / 2 / 2 / 2) (2 * m + 1)) in
    omega (arith, s1, s2, s3, s4)

-- The low half of a 32-bit word.
pub bit_and_low_half : (a : ℕ) → bit_and a 0xffff ≡ a % 2 ^ 16
bit_and_low_half a = omega (
  arith,
  bit_and_sixteen_times a 0xfff,
  bit_and_sixteen_times (a / 16) 0xff,
  bit_and_sixteen_times (a / 16 / 16) 0xf,
  bit_and_fifteen (a / 16 / 16 / 16),
)

-- A mask of a mask.
pub bit_and_assoc : (a b c : ℕ) → bit_and (bit_and a b) c ≡ bit_and a (bit_and b c)
bit_and_assoc a =
    WellFounded.induction lt_wf
      {C = λ a. (b c : ℕ) → bit_and (bit_and a b) c ≡ bit_and a (bit_and b c)} a step
  where
    step :
        (n : ℕ)
        → ((m : ℕ) → m < n → (b c : ℕ) → bit_and (bit_and m b) c ≡ bit_and m (bit_and b c))
        → (b c : ℕ) → bit_and (bit_and n b) c ≡ bit_and n (bit_and b c)
    step zero ih b c = simp zero-bit_and
    step (suc n) ih b c =
        rw
          (
            bit_and_step (bit_and (suc n) b) c,
            bit_and_step (suc n) (bit_and b c),
            (and_parts (suc n) b).0,
            (and_parts b c).0,
            ih (suc n / 2) (omega arith) (b / 2) (c / 2),
          )
          (omega (arith, and_parts (suc n) b, and_parts b c))

-- A bit within the low half of a word, and one that a mask takes away.
pub has-low_half : (x q : ℕ) → bit_and 0xffff q ≡ q → bit_and (x % 2 ^ 16) q ≡ bit_and x q
has-low_half x q h =
    ap (λ y. bit_and y q) (sym (bit_and_low_half x)) ∙ bit_and_assoc x 0xffff q ∙ ap (bit_and x) h

pub has_masked : (x m q : ℕ) → bit_and m q ≡ 0 → has (bit_and x m) q ≡ false
has_masked x m q h =
    let e : bit_and (bit_and x m) q ≡ 0 = bit_and_assoc x m q ∙ ap (bit_and x) h ∙ bit_and-zero x in
    rw e refl

pub bit_or-zero : (a : ℕ) → bit_or a 0 ≡ a
bit_or-zero a = WellFounded.induction lt_wf {C = λ a. bit_or a 0 ≡ a} a step
  where
    step : (n : ℕ) → ((m : ℕ) → m < n → bit_or m 0 ≡ m) → bit_or n 0 ≡ n
    step zero ih = zero-bit_or 0
    step (suc n) ih = omega (arith, bit_or_step (suc n) 0, ih (suc n / 2) (omega arith))
