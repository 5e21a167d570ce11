-- ===== src/Multicast.antt =====
-- The multicast filter of Source/PCNet_lnc.cpp: `ether_crc32_le`, `lnc_setladrf` and
-- `lnc_set_multicast`. An address is its list of bytes; the pair of pointer and count is an option of
-- a list of addresses, `none` for the null pointer.
pub mod Crc
pub mod Filter
pub mod Program
use maxxuss_amdpcnet_v.Base.{
  ℕ, zero, suc, ◌+◌, ◌*◌, ◌/◌, ◌%◌, ◌^◌, List, [], ◌∷◌, Option, none, some, bit_and, bit_or,
  bit_xor, u8, ltb, has, get_or, update, if◌then◌else◌,
}
use maxxuss_amdpcnet_v.World.{Env}
use maxxuss_amdpcnet_v.Hw.{pcnet_multi_init_addr, multicast_filter_len}
use maxxuss_amdpcnet_v.Hw.Registers.{laf_start}
use maxxuss_amdpcnet_v.Softc.{LncSoftc, lnc_iff_allmulti}
use maxxuss_amdpcnet_v.State.{PcNet, with_sc}
use maxxuss_amdpcnet_v.Port.{write_csr, pcnet32_stop, pcnet32_start}

abbrev pub crctab : List ℕ
crctab =
    0x00000000 ∷ 0x1db71064 ∷ 0x3b6e20c8 ∷ 0x26d930ac ∷ 0x76dc4190 ∷ 0x6b6b51f4 ∷ 0x4db26158
    ∷ 0x5005713c ∷ 0xedb88320 ∷ 0xf00f9344 ∷ 0xd6d6a3e8 ∷ 0xcb61b38c ∷ 0x9b64c2b0 ∷ 0x86d3d2d4
    ∷ 0xa00ae278 ∷ 0xbdbdf21c ∷ []

-- `(crc >> 4) ^ crctab[crc & 0xf]`.
unfoldable pub crc_nibble : ℕ → ℕ
crc_nibble crc = bit_xor (crc / 2 ^ 4) (get_or crctab (bit_and crc 0xf) 0)

-- The loop over the bytes.
unfoldable pub crc_bytes : ℕ → List ℕ → ℕ
unfolding crc_nibble
crc_bytes crc [] = crc
crc_bytes crc (b ∷ buf) = crc_bytes (crc_nibble (crc_nibble (bit_xor crc b))) buf

unfoldable pub ether_crc32_le : List ℕ → ℕ
unfolding crc_bytes
ether_crc32_le buf = crc_bytes 0xffff_ffff buf

-- The high six bits of the checksum of an address.
unfoldable pub hash_index : List ℕ → ℕ
unfolding ether_crc32_le
hash_index addr = ether_crc32_le addr / 2 ^ 26

-- `sc.ladrb[index >> 3] |= 1 << (index & 7)`.
unfoldable pub add_hash : (ℕ → ℕ) → ℕ → ℕ → ℕ
add_hash ladrb index =
    update ladrb (index / 2 ^ 3) (u8 (bit_or (ladrb (index / 2 ^ 3)) (2 ^ bit_and index 7)))

-- The loop over the addresses.
unfoldable pub add_addresses : (ℕ → ℕ) → List (List ℕ) → ℕ → ℕ
unfolding add_hash hash_index
add_addresses ladrb [] = ladrb
add_addresses ladrb (addr ∷ addrs) = add_addresses (add_hash ladrb (hash_index addr)) addrs

-- `for (i = 0; i < len; i++) a[i] = v`.
unfoldable pub fill : ℕ → ℕ → (ℕ → ℕ) → ℕ → ℕ
fill zero v a = a
fill (suc n) v a = update (fill n v a) n v

unfoldable pub lnc_setladrf : Option (List (List ℕ)) → PcNet → PcNet
unfolding add_addresses fill
lnc_setladrf addrs s =
    if has s.sc.flags lnc_iff_allmulti
    then with_sc
        (record s.sc { ladrb = fill multicast_filter_len pcnet_multi_init_addr s.sc.ladrb }) s
    else (let zeroed = fill multicast_filter_len 0 s.sc.ladrb in
        with_sc
          (record s.sc { ladrb = elim addrs [ none ↦ zeroed | some l ↦ add_addresses zeroed l ] })
          s)

module _ (env : Env) where
  -- `sc.ladrb[i]`, read wherever `i` points.
  abbrev pub ladrb_at : PcNet → ℕ → ℕ
  ladrb_at s i = if ltb i multicast_filter_len then s.sc.ladrb i else u8 (env.past_ladrb s.trace i)

  -- `n` rounds of the loop from `i` on, whose index is the number of the register.
  unfoldable pub write_filter : ℕ → ℕ → PcNet → PcNet
  write_filter zero i s = s
  write_filter (suc n) i s =
      write_filter n (i + 1)
        (write_csr i (bit_or (ladrb_at s (i * 2 + 1) * 2 ^ 8) (ladrb_at s (i * 2))) s)

  unfoldable pub lnc_set_multicast : Option (List (List ℕ)) → PcNet → PcNet
  lnc_set_multicast addrs s =
      pcnet32_start (write_filter 4 laf_start (lnc_setladrf addrs (pcnet32_stop s)))
