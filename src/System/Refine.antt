-- ===== src/System/Refine.antt =====
-- The driver and the chip refine the network of `System.Network`.
use maxxuss_amdpcnet_v.Base.{ℕ, ◌≡◌, true, List}
use maxxuss_amdpcnet_v.World.{Env, allocate_packet, Event}
use maxxuss_amdpcnet_v.System.{
  System, Step, submitted, refused, transmitted, received, reclaimed, delivered,
}
use maxxuss_amdpcnet_v.System.Network.{Label, Network, NetStep}
use maxxuss_amdpcnet_v.System.Steps.{
  Refines, submit_step, refuse_step, transmit_step, receive_step, reclaim_step, deliver_step,
}

-- While packet buffers can be had, each step of the driver and the chip, from a state that stands for a
-- network, is the step of that network with the same label, and ends in a state that stands for the
-- network after it: a packet that is accepted joins the end of the outbox, the chip sends the packet
-- at its front, a received frame joins the inbox unless it is dropped, and `lnc_rint` hands the inbox on;
-- a refused packet and `lnc_tint` change nothing.
pub Step-NetStep :
    (env : Env) (base : ℕ) (addr : ℕ → ℕ) (x y : System) (a : Network) (l : Label)
    → ((tr : List Event) (n : ℕ) → env.answer tr (allocate_packet n) ≡ true)
    → Refines base addr x a
    → Step env x y l
    → (b : Network) × NetStep addr a b l × Refines base addr y b
Step-NetStep env base addr x y a l allocates r (submitted pkt fits some_bytes ok e) =
    rw e (submit_step base addr x a r pkt fits some_bytes ok)
Step-NetStep env base addr x y a l allocates r (refused pkt full e) =
    rw e (refuse_step base addr x a r pkt full)
Step-NetStep env base addr x y a l allocates r (transmitted m own sent size e) =
    rw e (transmit_step base addr x a r m own sent size)
Step-NetStep env base addr x y a l allocates r (received failed m payload fcs own got e) =
    rw e (receive_step base addr x a r failed m payload fcs own got)
Step-NetStep env base addr x y a l allocates r (reclaimed f b t enough pending sent run e) =
    rw e (reclaim_step env base addr x a r f enough b t pending sent run)
Step-NetStep env base addr x y a l allocates r (delivered f queued b t enough run e) =
    rw e (deliver_step env base addr x a r f enough allocates queued b t run)
