-- ===== src/Rx/Failed.antt =====
-- A frame for which no packet can be allocated.
use maxxuss_amdpcnet_v.Base.{ℕ, ◌+◌, ◌%◌, ◌≡◌, refl, Bool, true, false, has, some, none, List}
use maxxuss_amdpcnet_v.World.{Env, Event, allocate_packet}
use maxxuss_amdpcnet_v.Hw.Descriptors.{rmd_err, rmd_stp}
use maxxuss_amdpcnet_v.State.{PcNet, bump, ask}
use maxxuss_amdpcnet_v.Tx.{go_on}
use maxxuss_amdpcnet_v.Rx.{
  rint_round, take_packet, mbuf_packet, deliver, recv_status, with_recv_next,
}
use maxxuss_amdpcnet_v.Rx.Ring.{RxValid, frame_length}
use maxxuss_amdpcnet_v.Rx.Round.{find_one, step_one}

-- `t` is `s` after a frame that was lost.
pub record Lost (s t : PcNet) : Type 0 where
  pub next : t.sc.recv_next ≡ (s.sc.recv_next + 1) % 32
  pub entries : t.sc.recv_entries ≡ s.sc.recv_entries
  pub counted : t.counters.rx_resource_errors ≡ bump s.counters.rx_resource_errors

-- If the packet for a frame without error cannot be allocated, the round counts the frame as lost and
-- goes on to the next descriptor, but gives no descriptor back: the frame's stays with the host.
pub rint_round-Lost :
    (env : Env) (f : ℕ) (lookahead : Bool) (s : PcNet)
    → RxValid s.sc
    → has (recv_status s s.sc.recv_next) rmd_stp ≡ true
    → has (recv_status s s.sc.recv_next) rmd_err ≡ false
    → ((tr : List Event) (n : ℕ) → env.answer tr (allocate_packet n) ≡ false)
    → (t : PcNet) × (rint_round env f lookahead s ≡ some (go_on, false, t)) × Lost s t
unfolding rint_round take_packet mbuf_packet deliver
rint_round-Lost env f lookahead s v starts good fails =
    let i = s.sc.recv_next in
    let s1 = with_recv_next ((i + 1) % 32) s in
    let s2 = (ask env (allocate_packet (frame_length (s.sc.recv_entries i))) s1).1 in
    (
      (deliver env none (frame_length (s.sc.recv_entries i)) s2).1,
      rw (
        find_one env f s v starts lookahead,
        good,
        step_one env f s v starts,
        fails s.trace (frame_length (s.sc.recv_entries i)),
      ),
      record { next = refl; entries = refl; counted = refl },
    )
