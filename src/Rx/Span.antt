-- ===== src/Rx/Span.antt =====
-- A round of `lnc_rint` for a frame in any number of descriptors, with an error or without.
pub mod Taken
pub mod Mixed
pub mod Rint
use maxxuss_amdpcnet_v.Base.{
  ℕ, zero, suc, ◌+◌, ◌*◌, ◌%◌, ◌<◌, ◌≤◌, ◌≡◌, ◌≢◌, refl, arith, ap, sym, ◌∙◌, Bool, true, false,
  List, [], ◌∷◌, ◌++◌, some, if◌then◌else◌, ◌||◌, ◌==◌, length, has, bit_or, neg16, Bool-cases, inl,
  inr,
}
use maxxuss_amdpcnet_v.Base.Bits.{has-bit_or}
use maxxuss_amdpcnet_v.World.{Env, Event, allocate_packet}
use maxxuss_amdpcnet_v.Hw.{ether_addr_len}
use maxxuss_amdpcnet_v.Hw.Descriptors.{rmd_own, rmd_err, rmd_stp, rmd_enp}
use maxxuss_amdpcnet_v.Softc.{LncSoftc, HostRingEntry, lnc_recvbufsize, lnc_inc_md_ptr}
use maxxuss_amdpcnet_v.State.{PcNet, with_sc}
use maxxuss_amdpcnet_v.Tx.{go_on}
use maxxuss_amdpcnet_v.Tx.Ring.{inc_lem}
use maxxuss_amdpcnet_v.Rx.{
  rint_round, find_rx_end, check_rx_end, take_packet, deliver, with_recv_next, recv_status,
  drop_ring, give_back, note_rx_error,
}
use maxxuss_amdpcnet_v.Rx.Ring.{frame_length, from_self, inputs}
use maxxuss_amdpcnet_v.Rx.Round.{deliver_lem, same_sender_lem, note_rx_error-frame}
use maxxuss_amdpcnet_v.Rx.Waiting.{place, starts_at}
use maxxuss_amdpcnet_v.Rx.Copy.{take, stored, Returned, Returned-suc, mbuf_packet-Returned}
use maxxuss_amdpcnet_v.Rx.Joined.{stop_mask, scan_end_lem}

abbrev pub entry_at : LncSoftc → ℕ → HostRingEntry
entry_at sc k = sc.recv_entries (place sc k)

abbrev pub flags_at : LncSoftc → ℕ → ℕ
flags_at sc k = (entry_at sc k).md.status

-- The chip has put a frame into the `m + 1` descriptors from place `k` on.
pub record FrameAt (m k : ℕ) (sc : LncSoftc) : Type 0 where
  pub within : m ≤ 30
  pub starts : starts_at sc k ≡ true
  pub goes_on : (j : ℕ) → j < m → has (flags_at sc (k + j)) (bit_or rmd_enp rmd_err) ≡ false
  pub inner : (j : ℕ) → suc j < m → has (flags_at sc (k + suc j)) stop_mask ≡ false
  pub ends : has (flags_at sc (k + m)) (bit_or rmd_enp rmd_err) ≡ true
  pub last_starts : 0 < m → has (flags_at sc (k + m)) rmd_stp ≡ false
  pub last_freed : 0 < m → has (flags_at sc (k + m)) rmd_own ≡ false
  -- a frame without error holds both addresses of its header, and fits its buffers
  pub long : has (flags_at sc (k + m)) rmd_err ≡ false → 12 ≤ frame_length (entry_at sc (k + m))
  pub fits :
      has (flags_at sc (k + m)) rmd_err ≡ false
      → frame_length (entry_at sc (k + m)) ≤ suc m * lnc_recvbufsize

-- Its bytes, and what is handed on of it.
abbrev pub frame_bytes : (ℕ → ℕ) → LncSoftc → ℕ → ℕ → List ℕ
frame_bytes mem sc m k =
    take (frame_length (entry_at sc (k + m))) (stored mem sc (suc m) (place sc k))

unfoldable pub accepted_frame : (ℕ → ℕ) → LncSoftc → ℕ → ℕ → List (List ℕ)
accepted_frame mem sc m k =
    if has (flags_at sc (k + m)) rmd_err
      || from_self ether_addr_len 0 sc.init_block.phys_addr (frame_bytes mem sc m k)
    then []
    else frame_bytes mem sc m k ∷ []

-- `t` is `s` after frames in `n` descriptors: these are the chip's again, and the frames that are due are
-- handed on.
pub record Handled (n : ℕ) (frames : List (List ℕ)) (s t : PcNet) : Type 0 where
  pub given_back :
      (k : ℕ)
      → k < n
      → k < 32
      → let m = (t.sc.recv_entries (place s.sc k)).md in
        (m.status ≡ rmd_own) × (m.msg_size ≡ neg16 lnc_recvbufsize)
  pub others :
      (k : ℕ) → n ≤ k → k < 32 → t.sc.recv_entries (place s.sc k) ≡ s.sc.recv_entries (place s.sc k)
  pub bufs : (j : ℕ) → (t.sc.recv_entries j).buf_addr ≡ (s.sc.recv_entries j).buf_addr
  pub soft : t.sc ≡ record s.sc { recv_entries = t.sc.recv_entries; recv_next = t.sc.recv_next }
  pub next : t.sc.recv_next ≡ place s.sc n
  pub handed : inputs t.trace ≡ inputs s.trace ++ frames
  pub same_mem : t.mem ≡ s.mem

drop_ring-Returned :
    (n fuel start : ℕ) (sc : LncSoftc)
    → n < fuel
    → n ≤ 31
    → start < 32
    → sc.nrdre ≡ 5
    → sc.recv_next ≡ (start + n) % 32
    → (t : LncSoftc) × (drop_ring fuel start sc ≡ some t) × Returned n start sc t
unfolding drop_ring give_back
drop_ring-Returned n zero start sc f h l size next = absurd (omega arith)
drop_ring-Returned zero (suc fuel) start sc f h l size next =
    let here : sc.recv_next ≡ start = omega (arith, next) in
    (
      sc,
      rw here (ground arith),
      record {
        given_back = λ k p. absurd (omega arith);
        others = λ k p q. refl;
        bufs = λ j. refl;
        soft = refl;
      },
    )
drop_ring-Returned (suc n) (suc fuel) start sc f h l size next =
    let apart : sc.recv_next ≢ start = omega (arith, next) in
    let different : (start == sc.recv_next) ≡ false = ground (arith, apart) in
    let (t, e, r) =
      drop_ring-Returned n fuel ((start + 1) % 32) (give_back start sc) (omega arith) (omega arith)
        (omega arith) size (omega (arith, next)) in
    (
      t,
      rw (different, inc_lem start sc.nrdre size l) e,
      Returned-suc n start sc t (omega arith) l r,
    )

-- The ring once its descriptors are returned and its place is behind them.
Returned-Handled :
    (n : ℕ) (frames : List (List ℕ)) (s t : PcNet)
    → Returned n s.sc.recv_next (record s.sc { recv_next = place s.sc n }) t.sc
    → inputs t.trace ≡ inputs s.trace ++ frames
    → t.mem ≡ s.mem
    → Handled n frames s t
Returned-Handled n frames s t r handed mem =
    let next : t.sc.recv_next ≡ place s.sc n = ap (λ c. c.recv_next) r.soft in
    record {
      given_back = λ k p q. r.given_back k p;
      others = r.others;
      bufs = r.bufs;
      soft =
          r.soft
          ∙ ap {A = ℕ} (λ x. record s.sc { recv_entries = t.sc.recv_entries; recv_next = x })
              (sym next);
      next = next;
      handed = handed;
      same_mem = mem;
    }
