-- ===== src/Rx/Copy.antt =====
-- A frame in several descriptors: `mbuf_packet` joins the pieces and gives every descriptor back.
use maxxuss_amdpcnet_v.Base.{
  ℕ, zero, suc, ◌+◌, ◌-◌, ◌*◌, ◌%◌, ◌^◌, ◌<◌, ◌≤◌, ◌≡◌, ◌≢◌, refl, arith, ap, ap₂, sym, ◌∙◌, true,
  false, List, [], ◌∷◌, ◌++◌, some, ◌==◌, ltb, if◌then◌else◌, bytes_at, length, u16, neg16, dec_lt,
  ℕ_discrete, length-append, length-bytes_at,
}
use mathlib.Core.List.{append-nil, append_assoc}
use maxxuss_amdpcnet_v.World.{Env, allocate_packet, asked}
use maxxuss_amdpcnet_v.Hw.Descriptors.{rmd_own}
use maxxuss_amdpcnet_v.Softc.{LncSoftc, lnc_recvbufsize}
use maxxuss_amdpcnet_v.State.{PcNet, ask, with_sc}
use maxxuss_amdpcnet_v.Tx.Ring.{inc_lem}
use maxxuss_amdpcnet_v.Rx.{give_back, copy_ring, mbuf_packet}

-- The first bytes of a list.
unfoldable pub take : ℕ → List ℕ → List ℕ
take zero xs = []
take (suc n) [] = []
take (suc n) (x ∷ xs) = x ∷ take n xs

-- What stands in the buffers of the `n` descriptors from `start` on.
unfoldable pub stored : (ℕ → ℕ) → LncSoftc → ℕ → ℕ → List ℕ
stored mem sc zero start = []
stored mem sc (suc n) start =
    bytes_at mem (sc.recv_entries start).buf_addr lnc_recvbufsize
    ++ stored mem sc n ((start + 1) % 32)

-- The `n` descriptors from `start` on are the chip's, and the rest stays.
pub record Returned (n start : ℕ) (sc t : LncSoftc) : Type 0 where
  pub given_back :
      (k : ℕ)
      → k < n
      → let m = (t.recv_entries ((start + k) % 32)).md in
        (m.status ≡ rmd_own) × (m.msg_size ≡ neg16 lnc_recvbufsize)
  pub others :
      (k : ℕ)
      → n ≤ k
      → k < 32
      → t.recv_entries ((start + k) % 32) ≡ sc.recv_entries ((start + k) % 32)
  pub bufs : (j : ℕ) → (t.recv_entries j).buf_addr ≡ (sc.recv_entries j).buf_addr
  pub soft : t ≡ record sc { recv_entries = t.recv_entries }

take-append_short : (n : ℕ) (xs ys : List ℕ) → n ≤ length xs → take n (xs ++ ys) ≡ take n xs
unfolding take
take-append_short zero xs ys h = refl
take-append_short (suc n) [] ys h = absurd (omega arith)
take-append_short (suc n) (x ∷ xs) ys h = ap (λ l. x ∷ l) (take-append_short n xs ys (omega arith))

take-append_long : (n : ℕ) (xs ys : List ℕ) → take (length xs + n) (xs ++ ys) ≡ xs ++ take n ys
unfolding take
take-append_long n [] ys = let e : 0 + n ≡ n = omega arith in ap (λ k. take k ys) e
take-append_long n (x ∷ xs) ys =
    let e : length (x ∷ xs) + n ≡ suc (length xs + n) = omega arith in
    ap (λ k. take k (x ∷ (xs ++ ys))) e ∙ ap (λ l. x ∷ l) (take-append_long n xs ys)

take-bytes_at : (n k a : ℕ) (m : ℕ → ℕ) → n ≤ k → take n (bytes_at m a k) ≡ bytes_at m a n
unfolding take bytes_at
take-bytes_at zero k a m h = refl
take-bytes_at (suc n) zero a m h = absurd (omega arith)
take-bytes_at (suc n) (suc k) a m h = ap (λ l. m a ∷ l) (take-bytes_at n k (a + 1) m (omega arith))

pub stored-cong :
    (mem : ℕ → ℕ) (a b : LncSoftc) (n start : ℕ)
    → ((j : ℕ) → (b.recv_entries j).buf_addr ≡ (a.recv_entries j).buf_addr)
    → stored mem b n start ≡ stored mem a n start
unfolding stored
stored-cong mem a b zero start h = refl
stored-cong mem a b (suc n) start h =
    ap₂ ◌++◌ (ap (λ x. bytes_at mem x lnc_recvbufsize) (h start))
      (stored-cong mem a b n ((start + 1) % 32) h)

-- The piece that one round copies, and what the others add.
piece :
    (mem : ℕ → ℕ) (sc : LncSoftc) (n start len : ℕ)
    → let amount = if ltb len lnc_recvbufsize then len else lnc_recvbufsize in
      take len (stored mem sc (suc n) start)
      ≡ bytes_at mem (sc.recv_entries start).buf_addr amount
        ++ take (len - amount) (stored mem sc n ((start + 1) % 32))
unfolding stored take
piece mem sc n start len =
    let buf = (sc.recv_entries start).buf_addr in
    let here = bytes_at mem buf lnc_recvbufsize in
    let others = stored mem sc n ((start + 1) % 32) in
    let size : length here ≡ 1544 = length-bytes_at mem buf lnc_recvbufsize in
    elim (dec_lt len 1544) [
      | yes p ↦
          let amount : (if ltb len lnc_recvbufsize then len else lnc_recvbufsize) ≡ len =
            ground (arith, p) in
          let none_left : len - len ≡ 0 = omega arith in
          rw (amount, none_left)
            (take-append_short len here others (omega (arith, size))
              ∙ take-bytes_at len 1544 buf mem (omega arith)
              ∙ sym (append-nil (bytes_at mem buf len)))
      | no p ↦
          let amount : (if ltb len lnc_recvbufsize then len else lnc_recvbufsize) ≡ 1544 =
            ground (arith, p) in
          let split : len ≡ length here + (len - 1544) = omega (arith, size) in
          rw amount
            (ap (λ k. take k (here ++ others)) split ∙ take-append_long (len - 1544) here others)
    ]

-- The state after giving `start` back, and then the others.
pub Returned-suc :
    (n start : ℕ) (sc t : LncSoftc)
    → n ≤ 30
    → start < 32
    → Returned n ((start + 1) % 32) (give_back start sc) t
    → Returned (suc n) start sc t
unfolding give_back
Returned-suc n start sc t h l r = record {
  given_back = λ k p. elim (ℕ_discrete k 0) [
    | yes e ↦
        let last : (start + k) % 32 ≡ ((start + 1) % 32 + 31) % 32 = omega arith in
        let here : ((start + 1) % 32 + 31) % 32 ≡ start = omega arith in
        rw (last, r.others 31 (omega arith) (omega arith), here) (ground arith)
    | no ne ↦ rw (move k (omega arith)) (r.given_back (k - 1) (omega arith))
  ];
  others = λ k p q.
      let apart : (start + k) % 32 ≢ start = omega arith in
      ap t.recv_entries (move k (omega arith))
      ∙ r.others (k - 1) (omega arith) (omega arith)
      ∙ ap (give_back start sc).recv_entries (sym (move k (omega arith)))
      ∙ ground (arith, apart);
  bufs = λ j. r.bufs j ∙ ground arith;
  soft = r.soft;
}
  where
    move : (k : ℕ) → 0 < k → (start + k) % 32 ≡ ((start + 1) % 32 + (k - 1)) % 32
    move k p = omega arith

take-nil : (n : ℕ) → take n [] ≡ []
unfolding take
take-nil zero = refl
take-nil (suc n) = refl

copy_ring_lem :
    (n fuel : ℕ) (mem : ℕ → ℕ) (start len : ℕ) (got : List ℕ) (sc : LncSoftc)
    → n < fuel
    → n ≤ 31
    → start < 32
    → len < 2 ^ 16
    → sc.nrdre ≡ 5
    → sc.recv_next ≡ (start + n) % 32
    → (t : LncSoftc) × (copy_ring fuel mem start
          (sc.recv_entries start).buf_addr
          lnc_recvbufsize
          len
          got
          sc
        ≡ some (got ++ take len (stored mem sc n start), t))
      × Returned n start sc t
unfolding copy_ring take stored give_back
copy_ring_lem n zero mem start len got sc f h l w size next = absurd (omega arith)
copy_ring_lem zero (suc fuel) mem start len got sc f h l w size next =
    let here : sc.recv_next ≡ start = omega (arith, next) in
    (
      sc,
      rw (here, take-nil len) (ground (arith, append-nil got)),
      record {
        given_back = λ k p. absurd (omega arith);
        others = λ k p q. refl;
        bufs = λ j. refl;
        soft = refl;
      },
    )
copy_ring_lem (suc n) (suc fuel) mem start len got sc f h l w size next =
    let apart : sc.recv_next ≢ start = omega (arith, next) in
    let amount = if ltb len lnc_recvbufsize then len else lnc_recvbufsize in
    let buf = (sc.recv_entries start).buf_addr in
    let sc' = give_back start sc in
    let start' = (start + 1) % 32 in
    let got' = got ++ bytes_at mem buf amount in
    let most : amount ≤ len = ground arith in
    let left : u16 (len + 2 ^ 16 - amount) ≡ len - amount = omega arith in
    let different : (start == sc.recv_next) ≡ false = ground (arith, apart) in
    let inc = inc_lem start sc.nrdre size l in
    let same = stored-cong mem sc sc' n start' (λ j. ground arith) in
    let joined : got' ++ take (len - amount) (stored mem sc' n start')
        ≡ got ++ take len (stored mem sc (suc n) start) =
      append_assoc got (bytes_at mem buf amount) _
      ∙ ap (λ b. got ++ b)
          (ap (λ b. bytes_at mem buf amount ++ take (len - amount) b) same
            ∙ sym (piece mem sc n start len)) in
    let (t, e, r) =
      copy_ring_lem n fuel mem start' (len - amount) got' sc' (omega arith) (omega arith)
        (omega arith) (omega arith) size (omega (arith, next)) in
    (
      t,
      rw (different, inc, left) refl ∙ e ∙ ap (λ b. some (b, t)) joined,
      Returned-suc n start sc t (omega arith) l r,
    )

length-take : (n : ℕ) (xs : List ℕ) → n ≤ length xs → length (take n xs) ≡ n
unfolding take
length-take zero xs h = refl
length-take (suc n) [] h = absurd (omega arith)
length-take (suc n) (x ∷ xs) h = omega (arith, length-take n xs (omega arith))

length-stored :
    (mem : ℕ → ℕ) (sc : LncSoftc) (n start : ℕ) → length (stored mem sc n start) ≡ n * 1544
unfolding stored
length-stored mem sc zero start = refl
length-stored mem sc (suc n) start = omega (
  arith,
  length-append (bytes_at mem (sc.recv_entries start).buf_addr 1544)
      (stored mem sc n ((start + 1) % 32)),
  length-bytes_at mem (sc.recv_entries start).buf_addr 1544,
  length-stored mem sc n ((start + 1) % 32),
)

-- For a frame in the `n` descriptors from `start` up to `recv_next`, fewer than all 32, and whose length
-- is 16 bits wide, `mbuf_packet` returns with any fuel above `n`. While a packet can be had, it holds
-- the frame's first `pkt_len` bytes of what stands in the descriptors' buffers one behind the other, and
-- all of `pkt_len` bytes if the buffers have so many; each of the descriptors is given back to the chip
-- with the size of its buffer, and the other descriptors and the rest of the state stay.
pub mbuf_packet-Returned :
    (env : Env) (n fuel start pkt_len : ℕ) (s : PcNet)
    → n < fuel
    → n ≤ 31
    → start < 32
    → pkt_len < 2 ^ 16
    → s.sc.nrdre ≡ 5
    → s.sc.recv_next ≡ (start + n) % 32
    → env.answer s.trace (allocate_packet pkt_len) ≡ true
    → let pkt = take pkt_len (stored s.mem s.sc n start) in
      (t : PcNet) × (mbuf_packet env fuel start pkt_len s ≡ some (some pkt, t))
      × (pkt_len ≤ n * lnc_recvbufsize → length pkt ≡ pkt_len)
      × Returned n start s.sc t.sc
      × (t ≡ record s { sc = t.sc; trace = asked (allocate_packet pkt_len) true ∷ s.trace })
unfolding mbuf_packet
mbuf_packet-Returned env n fuel start pkt_len s f h l w size next ok =
    let s1 = (ask env (allocate_packet pkt_len) s).1 in
    let (t, e, r) = copy_ring_lem n fuel s.mem start pkt_len [] s.sc f h l w size next in
    (
      with_sc t s1,
      rw (ok, e) refl,
      λ fits. length-take pkt_len _ (omega (arith, length-stored s.mem s.sc n start)),
      r,
      rw ok refl,
    )
