-- ===== src/Layout/Regions.antt =====
-- The loops of `lnc_init` in closed form, by index.
use maxxuss_amdpcnet_v.Base.{
  ℕ, zero, suc, ◌+◌, ◌-◌, ◌*◌, ◌≡◌, arith, ltb, leb, if◌then◌else◌, ◌&&◌, update, neg16,
}
use maxxuss_amdpcnet_v.Hw.{sizeof_mds}
use maxxuss_amdpcnet_v.Hw.Descriptors.{rmd_own}
use maxxuss_amdpcnet_v.Softc.{HostRingEntry, lnc_recvbufsize, lnc_transbufsize}
use maxxuss_amdpcnet_v.Layout.{place_descriptors, fill_recv, fill_trans}

abbrev pub Ring : Type 0
Ring = ℕ → HostRingEntry

pub place_descriptors-mem :
    (n i : ℕ) (ring : Ring) (m : ℕ) → (place_descriptors n i ring m).1 ≡ m + n * sizeof_mds
unfolding place_descriptors
place_descriptors-mem zero i ring m = omega arith
place_descriptors-mem (suc n) i ring m = omega (
  arith,
  place_descriptors-mem n (i + 1) (update ring i (record (ring i) { md_addr = m }))
      (m + sizeof_mds),
)

-- Entry `j` of the `n` from `i` on gets the `j - i`-th descriptor; the others are left alone.
pub place_descriptors_lem :
    (n i : ℕ) (ring : Ring) (m j : ℕ)
    → (place_descriptors n i ring m).0 j ≡ (
        if leb i j && ltb j (i + n)
        then record (ring j) { md_addr = m + (j - i) * sizeof_mds }
        else ring j)
unfolding place_descriptors
place_descriptors_lem zero i ring m j = ground arith
place_descriptors_lem (suc n) i ring m j = ground (
  arith,
  place_descriptors_lem n (i + 1) (update ring i (record (ring i) { md_addr = m })) (m + sizeof_mds)
      j,
)

module _ (kvtop : ℕ → ℕ) where
  -- A receive entry with the buffer at `at`, given to the chip.
  abbrev pub recv_filled : HostRingEntry → ℕ → HostRingEntry
  recv_filled e at = record e {
    md = record (e.md) {
      buffer = kvtop at;
      msg_size = neg16 lnc_recvbufsize;
      status = rmd_own;
      rx_msg_length = 0;
    };
    buf_addr = at;
  }

  -- A transmit entry with the buffer at `at`, free.
  abbrev pub trans_filled : HostRingEntry → ℕ → HostRingEntry
  trans_filled e at = record e {
    md = record (e.md) { buffer = kvtop at; msg_size = 0; status = 0; ext_status = 0 };
    buf_addr = at;
  }

  pub fill_recv-mem :
      (n i : ℕ) (ring : Ring) (m : ℕ) → (fill_recv kvtop n i ring m).1 ≡ m + n * lnc_recvbufsize
  unfolding fill_recv
  fill_recv-mem zero i ring m = omega arith
  fill_recv-mem (suc n) i ring m = omega (
    arith,
    fill_recv-mem n (i + 1) (update ring i (recv_filled (ring i) m)) (m + lnc_recvbufsize),
  )

  pub fill_recv_lem :
      (n i : ℕ) (ring : Ring) (m j : ℕ)
      → (fill_recv kvtop n i ring m).0 j ≡ (
          if leb i j && ltb j (i + n)
          then recv_filled (ring j) (m + (j - i) * lnc_recvbufsize)
          else ring j)
  unfolding fill_recv
  fill_recv_lem zero i ring m j = ground arith
  fill_recv_lem (suc n) i ring m j = ground (
    arith,
    fill_recv_lem n (i + 1) (update ring i (recv_filled (ring i) m)) (m + lnc_recvbufsize) j,
  )

  pub fill_trans_lem :
      (n i : ℕ) (ring : Ring) (m j : ℕ)
      → (fill_trans kvtop n i ring m).0 j ≡ (
          if leb i j && ltb j (i + n)
          then trans_filled (ring j) (m + (j - i) * lnc_transbufsize)
          else ring j)
  unfolding fill_trans
  fill_trans_lem zero i ring m j = ground arith
  fill_trans_lem (suc n) i ring m j = ground (
    arith,
    fill_trans_lem n (i + 1) (update ring i (trans_filled (ring i) m)) (m + lnc_transbufsize) j,
  )
