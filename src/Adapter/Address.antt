-- ===== src/Adapter/Address.antt =====
-- The station's address, which `lnc_init` reads byte by byte and `getHardwareAddress` word by word.
use maxxuss_amdpcnet_v.Base.{
  ℕ, ◌+◌, ◌*◌, ◌/◌, ◌^◌, ◌<◌, ◌≡◌, refl, arith, ◌∙◌, sym, List, [], ◌∷◌, map, u8, u32,
}
use maxxuss_amdpcnet_v.World.{Env, Event}
use maxxuss_amdpcnet_v.Hw.{ether_addr_len, InitBlock}
use maxxuss_amdpcnet_v.State.{PcNet, with_sc}
use maxxuss_amdpcnet_v.Port.{csr_read8, csr_read32, pcnet32_stop}
use maxxuss_amdpcnet_v.Init.{
  read_station_address, prepare_memory, fill_init_block, probe_dwio, lnc_init, init_rings,
}
use maxxuss_amdpcnet_v.Init.Ready.{flagged, lnc_init-sc}
use maxxuss_amdpcnet_v.Adapter.{get_hardware_address}

-- The chip answers reads of its address PROM, which the ports 0 to 15 show, with the bytes of `prom`, one
-- at a time or four in a word, the lowest first. Nothing is said of its other ports.
pub record IsProm (env : Env) (prom : ℕ → ℕ) : Type 0 where
  pub bytes : (i : ℕ) → prom i < 2 ^ 8
  pub byte : (tr : List Event) (i : ℕ) → i < 16 → env.port8 tr i ≡ prom i
  pub word :
      (tr : List Event) (i : ℕ)
      → i + 3 < 16
      → env.port32 tr i
        ≡ prom i + prom (i + 1) * 2 ^ 8 + prom (i + 2) * 2 ^ 16 + prom (i + 3) * 2 ^ 24

abbrev pub station_address : InitBlock → List ℕ
station_address b = map b.phys_addr (0 ∷ 1 ∷ 2 ∷ 3 ∷ 4 ∷ 5 ∷ [])

split_word :
    (a b c d : ℕ)
    → a < 2 ^ 8
    → b < 2 ^ 8
    → c < 2 ^ 8
    → d < 2 ^ 8
    → let w = a + b * 2 ^ 8 + c * 2 ^ 16 + d * 2 ^ 24 in
      (u32 w ≡ w)
      × (u8 w ≡ a)
      × (u8 (w / 2 ^ 8) ≡ b)
      × (u8 (w / 2 ^ 16) ≡ c)
      × (u8 (w / 2 ^ 24) ≡ d)
split_word a b c d ha hb hc hd = (omega arith, omega arith, omega arith, omega arith, omega arith)

module _ (env : Env) (prom : ℕ → ℕ) (chip : IsProm env prom) where
  prom_byte : (tr : List Event) (i : ℕ) → i < 16 → u8 (env.port8 tr i) ≡ prom i
  prom_byte tr i h = omega (arith, chip.byte tr i h, chip.bytes i)

  abbrev prom_address : List ℕ
  prom_address = prom 0 ∷ prom 1 ∷ prom 2 ∷ prom 3 ∷ prom 4 ∷ prom 5 ∷ []

  read_station_address_lem :
      (s : PcNet)
      → station_address (read_station_address env ether_addr_len 0 s).sc.init_block ≡ prom_address
  unfolding read_station_address csr_read8
  read_station_address_lem s =
      let at : (i : ℕ) → i < 6 → (tr : List Event) → u8 (env.port8 tr i) ≡ prom i =
        λ i h tr. prom_byte tr i (omega arith) in
      simp
        (
          at 0 (omega arith),
          at 1 (omega arith),
          at 2 (omega arith),
          at 3 (omega arith),
          at 4 (omega arith),
          at 5 (omega arith),
        )
        refl

  lnc_init_station : (s : PcNet) → station_address (lnc_init env s).sc.init_block ≡ prom_address
  unfolding prepare_memory fill_init_block
  lnc_init_station s =
      let p = probe_dwio env (pcnet32_stop s) in
      rw (lnc_init-sc env s)
        (read_station_address_lem (with_sc (init_rings env (flagged env p.0 p.1.sc)) p.1))

  get_hardware_address_prom : (s : PcNet) → (get_hardware_address env s).0 ≡ prom_address
  unfolding get_hardware_address csr_read32
  get_hardware_address_prom s =
      let lo =
        split_word (prom 0) (prom 1) (prom 2) (prom 3) (chip.bytes 0) (chip.bytes 1) (chip.bytes 2)
          (chip.bytes 3) in
      let hi =
        split_word (prom 4) (prom 5) (prom 6) (prom 7) (chip.bytes 4) (chip.bytes 5) (chip.bytes 6)
          (chip.bytes 7) in
      let at : (i : ℕ)
          → i + 3 < 16
          → (tr : List Event)
          → env.port32 tr i
            ≡ prom i + prom (i + 1) * 2 ^ 8 + prom (i + 2) * 2 ^ 16 + prom (i + 3) * 2 ^ 24 =
        λ i h tr. chip.word tr i h in
      simp (at 0 (omega arith), at 4 (omega arith), lo.0, lo.1, lo.2, lo.3, lo.4, hi.0, hi.1, hi.2)
        refl

  -- If reads of the address PROM (bytes at the ports 0 to 15, words that lie in them) give the same bytes one at a time and four in a word, the lowest
  -- first, `getHardwareAddress` reports the address that `lnc_init` gave to the chip in the
  -- initialization block.
  pub get_hardware_address-lnc_init :
      (s t : PcNet)
      → (get_hardware_address env t).0 ≡ station_address (lnc_init env s).sc.init_block
  get_hardware_address-lnc_init s t = get_hardware_address_prom t ∙ sym (lnc_init_station s)
