-- ===== src/Rx/Span/Mixed.antt =====
-- A ring of frames that take any number of descriptors each, and what is left of it once some of them
-- are handled.
use mathlib.Core.List.{append-nil, append_assoc}
use maxxuss_amdpcnet_v.Base.{
  ℕ, suc, ◌+◌, ◌-◌, ◌<◌, ◌≤◌, ◌≡◌, ◌⊎◌, refl, arith, ap, ap₂, sym, ◌∙◌, Bool, false, List, [], ◌∷◌,
  ◌++◌, ◌||◌, if◌then◌else◌, has, bit_or, dec_lt,
}
use maxxuss_amdpcnet_v.Hw.Descriptors.{rmd_own, rmd_err, rmd_stp, rmd_enp}
use maxxuss_amdpcnet_v.Softc.{LncSoftc}
use maxxuss_amdpcnet_v.State.{PcNet}
use maxxuss_amdpcnet_v.Hw.{ether_addr_len}
use maxxuss_amdpcnet_v.Rx.Ring.{frame_length, from_self, inputs}
use maxxuss_amdpcnet_v.Rx.Waiting.{place, starts_at}
use maxxuss_amdpcnet_v.Rx.Copy.{take, stored-cong}
use maxxuss_amdpcnet_v.Rx.Joined.{stop_mask}
use maxxuss_amdpcnet_v.Rx.Span.{entry_at, flags_at, FrameAt, frame_bytes, accepted_frame, Handled}

-- The frames of a ring, each by the number of its descriptors less one.
unfoldable pub descriptors : List ℕ → ℕ
descriptors [] = 0
descriptors (m ∷ ms) = suc m + descriptors ms

-- They lie one behind the other from place `k` on.
abbrev pub FramesAt : List ℕ → ℕ → LncSoftc → Type 0
FramesAt [] k sc = Unit {0}
FramesAt (m ∷ ms) k sc = FrameAt m k sc × FramesAt ms (k + suc m) sc

-- What is handed on of them, oldest first.
unfoldable pub accepted_frames : (ℕ → ℕ) → LncSoftc → List ℕ → ℕ → List (List ℕ)
accepted_frames mem sc [] k = []
accepted_frames mem sc (m ∷ ms) k =
    accepted_frame mem sc m k ++ accepted_frames mem sc ms (k + suc m)

-- The ring holds the frames `ms`, oldest first, and no frame begins behind them.
pub record Holds (ms : List ℕ) (sc : LncSoftc) : Type 0 where
  pub size : sc.nrdre ≡ 5
  pub next_in : sc.recv_next < 32
  pub frames : FramesAt ms 0 sc
  pub fit : descriptors ms ≤ 32
  pub end : descriptors ms ≡ 32 ⊎ starts_at sc (descriptors ms) ≡ false

pub Handled-nil : (s : PcNet) → s.sc.recv_next < 32 → Handled 0 [] s s
Handled-nil s h = record {
  given_back = λ k p q. absurd (omega arith);
  others = λ k p q. refl;
  bufs = λ j. refl;
  soft = refl;
  next = omega (arith, h);
  handed = sym (append-nil (inputs s.trace));
  same_mem = refl;
}

abbrev pick : Bool → (ℕ → ℕ) → List ℕ → List (List ℕ)
pick bad addr pkt = if bad || from_self ether_addr_len 0 addr pkt then [] else pkt ∷ []

-- The descriptors behind those that were handled, from the new place on.
module _ {n : ℕ} {xs : List (List ℕ)} {s t : PcNet} (d : Handled n xs s t) where
  pub place-Handled : (k : ℕ) → place t.sc k ≡ place s.sc (n + k)
  place-Handled k = omega (arith, d.next)

  pub entry-Handled : (k : ℕ) → n + k < 32 → entry_at t.sc k ≡ entry_at s.sc (n + k)
  entry-Handled k h = ap t.sc.recv_entries (place-Handled k) ∙ d.others (n + k) (omega arith) h

  pub flags-Handled :
      (mask k : ℕ) → n + k < 32 → has (flags_at t.sc k) mask ≡ has (flags_at s.sc (n + k)) mask
  flags-Handled mask k h = ap (λ e. has e.md.status mask) (entry-Handled k h)

  before : (k : ℕ) → k < n → n ≤ 32 → place s.sc k ≡ place t.sc (k + 32 - n)
  before k l h = omega (arith, d.next)

  behind : (k : ℕ) → n ≤ k → place s.sc k ≡ place t.sc (k - n)
  behind k l = omega (arith, d.next)

  pub Handled-append :
      {m : ℕ} {ys : List (List ℕ)} {u : PcNet}
      → n + m ≤ 32
      → Handled m ys t u
      → Handled (n + m) (xs ++ ys) s u
  Handled-append {m} {ys} {u} h e = record {
    given_back = λ k p q. elim (dec_lt k n) [
      | yes l ↦
          let j = k + 32 - n in
          rw
            (
              before k l (omega arith),
              e.others j (omega arith) (omega arith),
              sym (before k l (omega arith)),
            )
            (d.given_back k l q)
      | no l ↦ rw (behind k (omega arith)) (e.given_back (k - n) (omega arith) (omega arith))
    ];
    others = λ k p q.
        ap u.sc.recv_entries (behind k (omega arith))
        ∙ e.others (k - n) (omega arith) (omega arith)
        ∙ ap t.sc.recv_entries (sym (behind k (omega arith)))
        ∙ d.others k (omega arith) q;
    bufs = λ j. e.bufs j ∙ d.bufs j;
    soft =
        e.soft
        ∙ ap {A = LncSoftc}
            (λ c. record c { recv_entries = u.sc.recv_entries; recv_next = u.sc.recv_next }) d.soft;
    next = e.next ∙ place-Handled m;
    handed = e.handed ∙ ap (λ l. l ++ ys) d.handed ∙ append_assoc (inputs s.trace) xs ys;
    same_mem = e.same_mem ∙ d.same_mem;
  }

  entry-moved : (k j : ℕ) → n + k + j < 32 → entry_at t.sc (k + j) ≡ entry_at s.sc (n + k + j)
  entry-moved k j h =
      let e : n + (k + j) ≡ n + k + j = omega arith in
      entry-Handled (k + j) (omega arith) ∙ ap (entry_at s.sc) e

  FrameAt-Handled : (m k : ℕ) → n + k + m < 32 → FrameAt m (n + k) s.sc → FrameAt m k t.sc
  FrameAt-Handled m k h v = record {
    within = v.within;
    starts = flags-Handled rmd_stp k (omega arith) ∙ v.starts;
    goes_on = λ j p. flags j (bit_or rmd_enp rmd_err) (omega arith) ∙ v.goes_on j p;
    inner = λ j p. flags (suc j) stop_mask (omega arith) ∙ v.inner j p;
    ends = flags m (bit_or rmd_enp rmd_err) h ∙ v.ends;
    last_starts = λ p. flags m rmd_stp h ∙ v.last_starts p;
    last_freed = λ p. flags m rmd_own h ∙ v.last_freed p;
    long = λ p. rw (entry-moved k m h) (v.long (sym (flags m rmd_err h) ∙ p));
    fits = λ p. rw (entry-moved k m h) (v.fits (sym (flags m rmd_err h) ∙ p));
  }
    where
      flags :
          (j mask : ℕ)
          → n + k + j < 32
          → has (flags_at t.sc (k + j)) mask ≡ has (flags_at s.sc (n + k + j)) mask
      flags j mask l = ap (λ e. has e.md.status mask) (entry-moved k j l)

  pub FramesAt-Handled :
      (ms : List ℕ) (k : ℕ)
      → n + k + descriptors ms ≤ 32
      → FramesAt ms (n + k) s.sc
      → FramesAt ms k t.sc
  unfolding descriptors
  FramesAt-Handled [] k h v = tt
  FramesAt-Handled (m ∷ ms) k h v =
      let e : n + k + suc m ≡ n + (k + suc m) = omega arith in
      (
        FrameAt-Handled m k (omega arith) v.0,
        FramesAt-Handled ms (k + suc m) (omega arith) (rw (sym e) v.1),
      )

  accepted_frame-Handled :
      (m k : ℕ)
      → n + k + m < 32
      → accepted_frame t.mem t.sc m k ≡ accepted_frame s.mem s.sc m (n + k)
  unfolding accepted_frame
  accepted_frame-Handled m k h =
      let entry = entry-moved k m h in
      let bytes = ap₂ take (ap frame_length entry) (
        rw (d.same_mem, place-Handled k)
          (stored-cong s.mem s.sc t.sc (suc m) (place s.sc (n + k)) d.bufs)) in
      ap (λ b. pick b t.sc.init_block.phys_addr (frame_bytes t.mem t.sc m k))
        (ap (λ e. has e.md.status rmd_err) entry)
      ∙ ap₂ (pick (has (flags_at s.sc (n + k + m)) rmd_err))
          (ap (λ c. c.init_block.phys_addr) d.soft) bytes

  pub accepted_frames-Handled :
      (ms : List ℕ) (k : ℕ)
      → n + k + descriptors ms ≤ 32
      → accepted_frames t.mem t.sc ms k ≡ accepted_frames s.mem s.sc ms (n + k)
  unfolding descriptors accepted_frames
  accepted_frames-Handled [] k h = refl
  accepted_frames-Handled (m ∷ ms) k h =
      let e : n + (k + suc m) ≡ n + k + suc m = omega arith in
      ap₂ ◌++◌ (accepted_frame-Handled m k (omega arith)) (
        accepted_frames-Handled ms (k + suc m) (omega arith) ∙ ap (accepted_frames s.mem s.sc ms) e)
