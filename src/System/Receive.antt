-- ===== src/System/Receive.antt =====
-- The receive ring between the driver and the chip: which frames wait in it, one that the chip receives,
-- and the frames that `lnc_rint` hands on.
use maxxuss_amdpcnet_v.Base.{
  ℕ, zero, suc, ◌+◌, ◌*◌, ◌%◌, ◌<◌, ◌≤◌, ◌≡◌, refl, arith, ap, ap₂, sym, ◌∙◌, true, false, has,
  List, ◌++◌,
}
use mathlib.Core.List.{append_assoc, append-nil}
use maxxuss_amdpcnet_v.Hw.Descriptors.{rmd_own}
use maxxuss_amdpcnet_v.Softc.{LncSoftc, HostRingEntry, lnc_recvbufsize}
use maxxuss_amdpcnet_v.State.{PcNet}
use maxxuss_amdpcnet_v.Rx.{recv_status}
use maxxuss_amdpcnet_v.Rx.Ring.{RxValid, accepted, frame}
use maxxuss_amdpcnet_v.Rx.Waiting.{place, starts_at, due}
use maxxuss_amdpcnet_v.System.Frames.{bytes_at-agree}

abbrev pub station : PcNet → ℕ → ℕ
station s = s.sc.init_block.phys_addr

-- `w` frames wait, from `recv_next` on; the chip's place is behind them.
pub record RecvInv (base : ℕ) (s : PcNet) (at : ℕ) (w : ℕ) : Type 0 where
  pub rx : RxValid s.sc
  pub most : w ≤ 32
  pub behind : at ≡ (s.sc.recv_next + w) % 32
  pub filled : (k : ℕ) → k < w → starts_at s.sc k ≡ true
  pub freed : (k : ℕ) → k < w → has (recv_status s (place s.sc k)) rmd_own ≡ false
  pub empty : (k : ℕ) → w ≤ k → k < 32 → starts_at s.sc k ≡ false
  pub bufs : (i : ℕ) → i < 32 → (s.sc.recv_entries i).buf_addr ≡ base + i * lnc_recvbufsize

-- The frames that wait, less those that `lnc_rint` drops.
abbrev pub undelivered : PcNet → ℕ → List (List ℕ)
undelivered s w = due s.mem s.sc w 0

pub due-cong :
    (m m' : ℕ → ℕ) (a b : LncSoftc) (n i : ℕ)
    → ((k : ℕ)
        → k < n
        → accepted b.init_block.phys_addr m' (b.recv_entries (place b (i + k)))
          ≡ accepted a.init_block.phys_addr m (a.recv_entries (place a (i + k))))
    → due m' b n i ≡ due m a n i
unfolding due
due-cong m m' a b zero i h = refl
due-cong m m' a b (suc n) i h =
    let here : i + 0 ≡ i = omega arith in
    ap₂ ◌++◌ (rw here at (h 0 (omega arith))) (
      due-cong m m' a b n (i + 1)
        (λ k l. let on : i + suc k ≡ i + 1 + k = omega arith in rw on at (h (suc k) (omega arith))))

pub due-snoc :
    (m : ℕ → ℕ) (sc : LncSoftc) (n k : ℕ)
    → due m sc (suc n) k
      ≡ due m sc n k ++ accepted sc.init_block.phys_addr m (sc.recv_entries (place sc (k + n)))
unfolding due
due-snoc m sc zero k = let e : k + 0 ≡ k = omega arith in rw e (append-nil _)
due-snoc m sc (suc n) k =
    let e : k + suc n ≡ k + 1 + n = omega arith in
    let first = accepted sc.init_block.phys_addr m (sc.recv_entries (place sc k)) in
    rw e (
      ap (λ l. first ++ l) (due-snoc m sc n (k + 1))
      ∙ sym (append_assoc first (due m sc n (k + 1)) _))

-- What is due for a descriptor depends on its own buffer alone.
pub accepted-agree :
    (addr m m' : ℕ → ℕ) (e : HostRingEntry)
    → ((x : ℕ) → e.buf_addr ≤ x → x < e.buf_addr + lnc_recvbufsize → m' x ≡ m x)
    → accepted addr m' e ≡ accepted addr m e
unfolding accepted
accepted-agree addr m m' e h =
    let same : frame m' e ≡ frame m e =
      bytes_at-agree m m' _ _ (λ x p q. h x p (ground (arith, q))) in
    rw same refl

-- The invariant and the frames depend on the receive ring, its buffers and the address alone.
pub record SameRecv (base : ℕ) (s t : PcNet) : Type 0 where
  pub nrdre : t.sc.nrdre ≡ s.sc.nrdre
  pub recv_entries : t.sc.recv_entries ≡ s.sc.recv_entries
  pub recv_next : t.sc.recv_next ≡ s.sc.recv_next
  pub address : station t ≡ station s
  pub mem : (x : ℕ) → base ≤ x → x < base + 32 * lnc_recvbufsize → t.mem x ≡ s.mem x

module _ (base at w : ℕ) (s t : PcNet) (e : SameRecv base s t) (i : RecvInv base s at w) where
  pub RecvInv-SameRecv : RecvInv base t at w
  RecvInv-SameRecv = record {
    rx = record {
      size = e.nrdre ∙ i.rx.size;
      next_in = rw (e.recv_next) i.rx.next_in;
      single = rw (e.recv_entries) i.rx.single;
      long = rw (e.recv_entries) i.rx.long;
    };
    most = i.most;
    behind = i.behind ∙ rw (e.recv_next) refl;
    filled = rw (e.recv_entries, e.recv_next) i.filled;
    freed = rw (e.recv_entries, e.recv_next) i.freed;
    empty = rw (e.recv_entries, e.recv_next) i.empty;
    bufs = rw (e.recv_entries) i.bufs;
  }

  pub undelivered-SameRecv : undelivered t w ≡ undelivered s w
  undelivered-SameRecv = due-cong s.mem t.mem s.sc t.sc w 0 (λ k h.
      let there = i.bufs (place s.sc (0 + k)) (omega arith) in
      rw (e.address, e.recv_entries, e.recv_next)
        (accepted-agree (station s) s.mem t.mem _
          (λ x p q. e.mem x (omega (arith, there)) (omega (arith, there)))))
