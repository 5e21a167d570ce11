-- ===== src/Port/Written.antt =====
-- The chip's side of the register access: what it finds in a CSR after the writes of a history.
use maxxuss_amdpcnet_v.Base.{
  ℕ, ◌%◌, ◌^◌, ◌<◌, ◌≡◌, ◌==◌, arith, ◌&&◌, Option, none, some, List, [], ◌∷◌, if◌then◌else◌,
}
use maxxuss_amdpcnet_v.World.{Env, Event, write16, write32}
use maxxuss_amdpcnet_v.Hw.Registers.{
  pcnet32_wio_rdp, pcnet32_wio_rap, pcnet32_dwio_rdp, pcnet32_dwio_rap,
}
use maxxuss_amdpcnet_v.State.{PcNet}
use maxxuss_amdpcnet_v.Port.{write_csr, read_csr}

-- The register that the address port selects, 16 and 32 bits wide, from the last write to it.
unfoldable pub selected16 : List Event → ℕ
selected16 [] = 0
selected16 (write16 offset v ∷ tr) = if offset == pcnet32_wio_rap then v else selected16 tr
selected16 (e ∷ tr) = selected16 tr

unfoldable pub selected32 : List Event → ℕ
selected32 [] = 0
selected32 (write32 offset v ∷ tr) = if offset == pcnet32_dwio_rap then v else selected32 tr
selected32 (e ∷ tr) = selected32 tr

-- The last value written to the CSR `n` through the data port, in either width.
unfoldable pub written : ℕ → List Event → Option ℕ
unfolding selected16 selected32
written n [] = none
written n (write16 offset v ∷ tr) =
    if offset == pcnet32_wio_rdp && selected16 tr == n then some v else written n tr
written n (write32 offset v ∷ tr) =
    if offset == pcnet32_dwio_rdp && selected32 tr == n then some v else written n tr
written n (e ∷ tr) = written n tr

-- A write through `write_csr` reaches the register that it is for, and no other.
pub written-write_csr :
    (n port val : ℕ) (s : PcNet)
    → port < 2 ^ 16
    → val < 2 ^ 16
    → written n (write_csr port val s).trace ≡ (if port == n then some val else written n s.trace)
unfolding write_csr written selected16 selected32
written-write_csr n port val s h k =
    let p16 : port % 2 ^ 16 ≡ port = omega arith in
    let p32 : port % 2 ^ 32 ≡ port = omega arith in
    let v16 : val % 2 ^ 16 ≡ val = omega arith in
    let v32 : val % 2 ^ 32 ≡ val = omega arith in rw (p16, p32, v16, v32) (ground arith)

module _ (env : Env) (n port : ℕ) (s : PcNet) where
  pub written-read_csr : written n (read_csr env port s).1.trace ≡ written n s.trace
  unfolding read_csr written
  written-read_csr = ground arith
