-- ===== src/Multicast/Filter.antt =====
-- The filter that `lnc_setladrf` leaves in the soft state: a bit for each hash.
use maxxuss_amdpcnet_v.Base.{
  ℕ, zero, suc, ◌/◌, ◌%◌, ◌^◌, ◌<◌, List, [], ◌∷◌, bit_and, bit_or, bit_xor, ◌≡◌, refl, arith,
  get_or, ◌==◌, if◌then◌else◌, Bool, true, false, ◌||◌, not, some, none, has, u8, ltb, ◌∙◌, ap,
  Option,
}
use maxxuss_amdpcnet_v.Base.Bits.{
  all_below, all_below_sound, bit_and_seven, bit_and_fifteen, bit_xor-lt, zero-bit_and,
}
use maxxuss_amdpcnet_v.Softc.{lnc_iff_allmulti}
use maxxuss_amdpcnet_v.State.{PcNet}
use maxxuss_amdpcnet_v.Multicast.{
  crctab, crc_nibble, crc_bytes, ether_crc32_le, hash_index, add_hash, add_addresses, fill,
  lnc_setladrf,
}

abbrev pub IsBytes : List ℕ → Type 0
IsBytes [] = Unit
IsBytes (b ∷ l) = (b < 256) × IsBytes l

abbrev pub AllBytes : List (List ℕ) → Type 0
AllBytes [] = Unit
AllBytes (a ∷ l) = IsBytes a × AllBytes l

crctab_table : all_below 16 (λ r. ltb (get_or crctab r 0) (2 ^ 32)) ≡ true
unfolding all_below
crctab_table = refl

ltb→lt : (a b : ℕ) → ltb a b ≡ true → a < b
ltb→lt a b h = ground arith

crctab_small : (r : ℕ) → r < 16 → get_or crctab r 0 < 2 ^ 32
crctab_small r h = ltb→lt _ _ (all_below_sound 16 _ r crctab_table h)

crc_nibble-lt : (c : ℕ) → c < 2 ^ 32 → crc_nibble c < 2 ^ 32
unfolding crc_nibble
crc_nibble-lt c h =
    bit_xor-lt 32 (c / 2 ^ 4) (get_or crctab (bit_and c 0xf) 0) (omega arith)
      (crctab_small (bit_and c 0xf) (omega (arith, bit_and_fifteen c)))

crc_bytes-lt : (c : ℕ) (l : List ℕ) → c < 2 ^ 32 → IsBytes l → crc_bytes c l < 2 ^ 32
unfolding crc_bytes
crc_bytes-lt c [] h hb = h
crc_bytes-lt c (b ∷ l) h hb =
    crc_bytes-lt (crc_nibble (crc_nibble (bit_xor c b))) l
      (crc_nibble-lt _ (crc_nibble-lt _ (bit_xor-lt 32 c b h (omega arith)))) hb.1

-- The hash of an address of bytes is a bit number of the filter, so that the store of
-- `lnc_setladrf` stays within the array.
pub hash_index-lt : (a : List ℕ) → IsBytes a → hash_index a / 2 ^ 3 < 8
unfolding hash_index ether_crc32_le
hash_index-lt a h = omega (arith, crc_bytes-lt 0xffff_ffff a (omega arith) h)

-- Bit `k` of the filter, counted through its bytes from the lowest bit of each.
pub bit_at : (ℕ → ℕ) → ℕ → Bool
bit_at f k = has (f (k / 8)) (2 ^ (k % 8))

-- Some address of the list has the hash `k`.
pub has_hash : List (List ℕ) → ℕ → Bool
has_hash [] k = false
has_hash (a ∷ l) k = hash_index a == k || has_hash l k

same : Bool → Bool → Bool
same true b = b
same false b = not b

same_eq : (a b : Bool) → same a b ≡ true → a ≡ b
unfolding same
same_eq a b h = ground arith

abbrev set_bit_ok : ℕ → ℕ → ℕ → Bool
unfolding same
set_bit_ok x i j = same (has (u8 (bit_or x (2 ^ j))) (2 ^ i)) (has x (2 ^ i) || j == i)

set_bit_table : all_below 256 (λ x. all_below 8 (λ i. all_below 8 (λ j. set_bit_ok x i j))) ≡ true
unfolding all_below same
set_bit_table = refl

set_bit :
    (x i j : ℕ)
    → x < 256
    → i < 8
    → j < 8
    → has (u8 (bit_or x (2 ^ j))) (2 ^ i) ≡ (has x (2 ^ i) || j == i)
unfolding same
set_bit x i j hx hi hj =
    same_eq _ _ (
      all_below_sound 8 _ j (all_below_sound 8 _ i (all_below_sound 256 _ x set_bit_table hx) hi)
        hj)

module _ (f : ℕ → ℕ) (n : ℕ) where
  add_hash_bytes : ((i : ℕ) → f i < 256) → (i : ℕ) → add_hash f n i < 256
  unfolding add_hash
  add_hash_bytes h i = ground (arith, h i)

  bit_at-add_hash :
      ((i : ℕ) → f i < 256) → (k : ℕ) → bit_at (add_hash f n) k ≡ (bit_at f k || n == k)
  unfolding add_hash bit_at
  bit_at-add_hash h k =
      ground (arith, h (n / 8), bit_and_seven n, set_bit (f (n / 8)) (k % 8) (n % 8))

add_addresses_bytes :
    (f : ℕ → ℕ) (l : List (List ℕ)) → ((i : ℕ) → f i < 256) → (i : ℕ) → add_addresses f l i < 256
unfolding add_addresses
add_addresses_bytes f [] h = h
add_addresses_bytes f (a ∷ l) h =
    add_addresses_bytes (add_hash f (hash_index a)) l (add_hash_bytes f (hash_index a) h)

bit_at-add_addresses :
    (f : ℕ → ℕ) (l : List (List ℕ)) (k : ℕ)
    → ((i : ℕ) → f i < 256)
    → bit_at (add_addresses f l) k ≡ (bit_at f k || has_hash l k)
unfolding add_addresses has_hash
bit_at-add_addresses f [] k h = ground arith
bit_at-add_addresses f (a ∷ l) k h = ground (
  arith,
  bit_at-add_hash f (hash_index a) h k,
  bit_at-add_addresses (add_hash f (hash_index a)) l k (add_hash_bytes f (hash_index a) h),
)

fill_lem : (n v : ℕ) (a : ℕ → ℕ) (i : ℕ) → fill n v a i ≡ (if ltb i n then v else a i)
unfolding fill
fill_lem zero v a i = ground arith
fill_lem (suc n) v a i = ground (arith, fill_lem n v a i)

bit_at_zero : (f : ℕ → ℕ) (k : ℕ) → f (k / 8) ≡ 0 → bit_at f k ≡ false
unfolding bit_at
bit_at_zero f k e = rw (e, zero-bit_and (2 ^ (k % 8)))

-- While the all-multicast flag is clear, `lnc_setladrf` with a list of addresses sets exactly the
-- filter bits that some address of the list hashes to, and with the null pointer sets none.
pub lnc_setladrf_lem :
    (l : List (List ℕ)) (s : PcNet) (k : ℕ)
    → k < 64
    → ((i : ℕ) → s.sc.ladrb i < 256)
    → has s.sc.flags lnc_iff_allmulti ≡ false
    → (bit_at (lnc_setladrf (some l) s).sc.ladrb k ≡ has_hash l k)
      × (bit_at (lnc_setladrf none s).sc.ladrb k ≡ false)
unfolding lnc_setladrf
lnc_setladrf_lem l s k hk hb clear =
    let small = λ (i : ℕ). zeroed_small i (hb i) in
    rw clear
      (bit_at-add_addresses zeroed l k small ∙ ap (λ b. b || has_hash l k) zero_bit, zero_bit)
  where
    zeroed : ℕ → ℕ
    zeroed = fill 8 0 s.sc.ladrb

    zeroed_small : (i : ℕ) → s.sc.ladrb i < 256 → zeroed i < 256
    zeroed_small i h = ground (arith, fill_lem 8 0 s.sc.ladrb i)

    zero_bit : bit_at zeroed k ≡ false
    zero_bit = bit_at_zero zeroed k (ground (arith, fill_lem 8 0 s.sc.ladrb (k / 8)))

-- The soft state's other members stay as they are.
pub lnc_setladrf-frame :
    (l : Option (List (List ℕ))) (s : PcNet)
    → lnc_setladrf l s ≡ record s { sc = record s.sc { ladrb = (lnc_setladrf l s).sc.ladrb } }
unfolding lnc_setladrf
lnc_setladrf-frame l s = ground arith
