-- ===== src/System/Frames.antt =====
-- The packets in the transmit ring as the chip will send them.
use maxxuss_amdpcnet_v.Base.{
  ℕ, zero, suc, ◌+◌, ◌-◌, ◌%◌, ◌<◌, ◌≤◌, ◌≡◌, refl, arith, ap, ap₂, ◌∙◌, Bool, true, false, has,
  List, [], ◌∷◌, ◌++◌, bytes_at, neg16, ◌≢◌, some, Option, length, update,
}
use maxxuss_amdpcnet_v.Hw.Descriptors.{tmd_own}
use maxxuss_amdpcnet_v.Softc.{LncSoftc}
use maxxuss_amdpcnet_v.Tx.{bcopy}
use maxxuss_amdpcnet_v.Tx.Output.{bcopy_outside}
use maxxuss_amdpcnet_v.Tx.Ring.{slot, slot_status}
use maxxuss_amdpcnet_v.Tx.Drain.{finished}
use maxxuss_amdpcnet_v.System.{sent_frame}

-- The packets of the `n` descriptors from place `k` on.
unfoldable pub frames : (ℕ → ℕ) → LncSoftc → ℕ → ℕ → List (List ℕ)
frames mem sc zero k = []
frames mem sc (suc n) k = sent_frame mem (sc.trans_entries (slot sc k)) ∷ frames mem sc n (k + 1)

pub frames-cong :
    (m m' : ℕ → ℕ) (a b : LncSoftc) (n i j : ℕ)
    → ((k : ℕ)
        → k < n
        → sent_frame m' (b.trans_entries (slot b (j + k)))
          ≡ sent_frame m (a.trans_entries (slot a (i + k))))
    → frames m' b n j ≡ frames m a n i
unfolding frames
frames-cong m m' a b zero i j h = refl
frames-cong m m' a b (suc n) i j h =
    let at_j : j + 0 ≡ j = omega arith in
    let at_i : i + 0 ≡ i = omega arith in
    ap₂ ◌∷◌ (rw (at_j, at_i) at (h 0 (omega arith))) (
      frames-cong m m' a b n (i + 1) (j + 1) (λ k l.
        let on_j : j + suc k ≡ j + 1 + k = omega arith in
        let on_i : i + suc k ≡ i + 1 + k = omega arith in
        rw (on_j, on_i) at (h (suc k) (omega arith))))

pub frames-snoc :
    (m : ℕ → ℕ) (sc : LncSoftc) (n k : ℕ)
    → frames m sc (suc n) k
      ≡ frames m sc n k ++ (sent_frame m (sc.trans_entries (slot sc (k + n))) ∷ [])
unfolding frames
frames-snoc m sc zero k = let e : k + 0 ≡ k = omega arith in rw e refl
frames-snoc m sc (suc n) k =
    let e : k + suc n ≡ k + 1 + n = omega arith in
    rw e (ap (λ l. sent_frame m (sc.trans_entries (slot sc k)) ∷ l) (frames-snoc m sc n (k + 1)))

pub bytes_at-agree :
    (m m' : ℕ → ℕ) (a n : ℕ)
    → ((x : ℕ) → a ≤ x → x < a + n → m' x ≡ m x)
    → bytes_at m' a n ≡ bytes_at m a n
unfolding bytes_at
bytes_at-agree m m' a zero h = refl
bytes_at-agree m m' a (suc n) h =
    ap₂ ◌∷◌ (h a (omega arith) (omega arith))
      (bytes_at-agree m m' (a + 1) n (λ x p q. h x (omega arith) (omega arith)))

-- The count of the descriptors that the chip has given back.
pub finished_count :
    (sc : LncSoftc) (d n k : ℕ)
    → d ≤ n
    → ((j : ℕ) → j < d → has (slot_status sc (k + j)) tmd_own ≡ false)
    → ((j : ℕ) → d ≤ j → j < n → has (slot_status sc (k + j)) tmd_own ≡ true)
    → finished sc n k ≡ d
unfolding finished
finished_count sc zero zero k h done owned = refl
finished_count sc (suc d) zero k h done owned = absurd (omega arith)
finished_count sc zero (suc n) k h done owned =
    let e : k + 0 ≡ k = omega arith in rw (rw e at (owned 0 (omega arith) (omega arith)))
finished_count sc (suc d) (suc n) k h done owned =
    let e : k + 0 ≡ k = omega arith in
    let on : (j : ℕ) → k + suc j ≡ k + 1 + j = λ j. omega arith in
    rw (rw e at (done 0 (omega arith))) (
      ap suc (
        finished_count sc d n (k + 1) (omega arith)
          (λ j l. rw (on j) at (done (suc j) (omega arith)))
          (λ j l p. rw (on j) at (owned (suc j) (omega arith) (omega arith)))))

-- The chip sends as many bytes as the driver stated.
pub byte_count_lem : (n : ℕ) → 0 < n → n ≤ 1544 → 4096 - neg16 n % 4096 ≡ n
byte_count_lem n p h = omega arith

pub true-false : true ≢ false
true-false e = cc

-- A call has one result.
pub some-pair {ℓ} :
    {A : Type ℓ} {b c : Bool} {x y : A}
    → ◌≡◌ {A = Option (Bool × A)} (some (b, x)) (some (c, y))
    → x ≡ y
some-pair e = cc

-- What is copied stands in the memory, its beginning too.
pub bytes_at-bcopy_append :
    (bs cs : List ℕ) (at : ℕ) (m : ℕ → ℕ) → bytes_at (bcopy (bs ++ cs) at m) at (length bs) ≡ bs
unfolding bcopy bytes_at
bytes_at-bcopy_append [] cs at m = refl
bytes_at-bcopy_append (b ∷ bs) cs at m =
    ap₂ ◌∷◌ (bcopy_outside (bs ++ cs) (at + 1) (update m at b) at (omega arith) ∙ ground arith)
      (bytes_at-bcopy_append bs cs (at + 1) (update m at b))
