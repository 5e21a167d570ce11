-- ===== src/Rx/Joined.antt =====
-- The search of `lnc_rint` for the end of a frame that spans several descriptors.
use maxxuss_amdpcnet_v.Base.{
  ℕ, zero, suc, ◌+◌, ◌%◌, ◌<◌, ◌≡◌, refl, arith, true, false, some, has, bit_or,
}
use maxxuss_amdpcnet_v.Hw.Descriptors.{rmd_own, rmd_err, rmd_stp, rmd_enp}
use maxxuss_amdpcnet_v.Softc.{HostRingEntry}
use maxxuss_amdpcnet_v.Tx.{scan_end}
use maxxuss_amdpcnet_v.Tx.Ring.{inc_lem}

-- What the search for the end of a frame stops at.
abbrev pub stop_mask : ℕ
stop_mask = bit_or (bit_or (bit_or rmd_stp rmd_own) rmd_enp) rmd_err

pub scan_end_lem :
    (ring : ℕ → HostRingEntry) (mask n fuel i : ℕ)
    → i < 32
    → n < fuel
    → ((k : ℕ) → k < n → has ((ring ((i + (1 + k)) % 32)).md.status) mask ≡ false)
    → has ((ring ((i + (n + 1)) % 32)).md.status) mask ≡ true
    → scan_end fuel ring 5 mask i ≡ some ((i + (n + 1)) % 32)
unfolding scan_end
scan_end_lem ring mask n zero i l f inner last = absurd (omega arith)
scan_end_lem ring mask zero (suc fuel) i l f inner last =
    let inc = inc_lem i 5 refl l in
    let e : (i + (0 + 1)) % 32 ≡ (i + 1) % 32 = omega arith in rw (inc, e, rw e at last) refl
scan_end_lem ring mask (suc n) (suc fuel) i l f inner last =
    let inc = inc_lem i 5 refl l in
    let e : (i + (1 + 0)) % 32 ≡ (i + 1) % 32 = omega arith in
    let on : (k : ℕ) → (i + (1 + suc k)) % 32 ≡ ((i + 1) % 32 + (1 + k)) % 32 = λ k. omega arith in
    let end : (i + (suc n + 1)) % 32 ≡ ((i + 1) % 32 + (n + 1)) % 32 = omega arith in
    rw (inc, end, rw e at (inner 0 (omega arith)))
      (scan_end_lem ring mask n fuel ((i + 1) % 32) (omega arith) (omega arith)
        (λ k h. rw (on k) at (inner (suc k) (omega arith))) (rw end at last))
