-- ===== src/Base/Words.antt =====
-- Fixed-width integers of the C code as native numbers, and memory as a function.
use Prim.Native.Nat.{ℕ, zero, suc, ◌+◌, ◌-◌, ◌%◌, ◌^◌, bit_and, bit_xor}
use mathlib.Core.Path.{◌≡◌, refl}
use mathlib.Core.Bool.{Bool, not}
use mathlib.Core.List.{List, [], ◌∷◌, ◌++◌}
use native.Mathlib.Omega.{arith}
use maxxuss_amdpcnet_v.Base.Tests.{◌==◌, if◌then◌else◌}

abbrev pub u8 : ℕ → ℕ
u8 n = n % 2 ^ 8

abbrev pub u16 : ℕ → ℕ
u16 n = n % 2 ^ 16

abbrev pub u32 : ℕ → ℕ
u32 n = n % 2 ^ 32

-- The 16-bit pattern of `-n`.
abbrev pub neg16 : ℕ → ℕ
neg16 n = (2 ^ 16 - n % 2 ^ 16) % 2 ^ 16

-- `~n` in 16 and in 32 bits.
abbrev pub not16 : ℕ → ℕ
not16 n = bit_xor (n % 2 ^ 16) 0xffff

abbrev pub not32 : ℕ → ℕ
not32 n = bit_xor (n % 2 ^ 32) 0xffff_ffff

-- `if (x & mask)`.
abbrev pub has : ℕ → ℕ → Bool
has x mask = not (bit_and x mask == 0)

-- A store into one cell.
abbrev pub update {ℓ} : {A : Type ℓ} → (ℕ → A) → ℕ → A → ℕ → A
update f i v j = if j == i then v else f j

module _ {ℓ} {A : Type ℓ} where
  abbrev pub length : List A → ℕ
  length [] = 0
  length (x ∷ xs) = suc (length xs)

  abbrev pub get_or : List A → ℕ → A → A
  get_or [] i d = d
  get_or (x ∷ xs) zero d = x
  get_or (x ∷ xs) (suc i) d = get_or xs i d

  pub length-append : (xs ys : List A) → length (xs ++ ys) ≡ length xs + length ys
  length-append [] ys = omega arith
  length-append (x ∷ xs) ys = omega (arith, length-append xs ys)

-- The `n` bytes from address `a` on.
unfoldable pub bytes_at : (ℕ → ℕ) → ℕ → ℕ → List ℕ
bytes_at m a zero = []
bytes_at m a (suc n) = m a ∷ bytes_at m (a + 1) n

pub length-bytes_at : (m : ℕ → ℕ) (a n : ℕ) → length (bytes_at m a n) ≡ n
unfolding bytes_at
length-bytes_at m a zero = refl
length-bytes_at m a (suc n) = omega (arith, length-bytes_at m (a + 1) n)
