-- ===== src/System.antt =====
-- The driver and the chip together, a call of the driver or an action of the chip at a time: what the
-- stack gives to `lnc_output_packet`, what the chip sends and receives through the rings, and what
-- `lnc_tint` and `lnc_rint` do then. The chip works as its manual says: through each ring in order, on
-- descriptors that it owns alone, each of which it gives back when it is done with it.
pub mod Network
pub mod Frames
pub mod Send
pub mod Sent
pub mod Receive
pub mod Deliver
pub mod Steps
pub mod Refine
pub mod Run
pub mod Progress
use mathlib.Core.List.{flatten}
use maxxuss_amdpcnet_v.Base.{
  ℕ, suc, ◌+◌, ◌-◌, ◌%◌, ◌^◌, ◌<◌, ◌≤◌, ◌≡◌, Bool, true, false, has, List, [], ◌∷◌, ◌++◌, some,
  bit_or, bit_and, bytes_at, length,
}
use maxxuss_amdpcnet_v.World.{Env}
use maxxuss_amdpcnet_v.Hw.{Mds}
use maxxuss_amdpcnet_v.Hw.Descriptors.{
  tmd_own, tmd_stp, tmd_enp, rmd_own, rmd_stp, rmd_enp, rmd_err, mdhead_len_mask,
}
use maxxuss_amdpcnet_v.Softc.{LncSoftc, HostRingEntry, lnc_recvbufsize, set_md}
use maxxuss_amdpcnet_v.State.{PcNet, with_sc}
use maxxuss_amdpcnet_v.Tx.{
  Mbuf, lnc_output_packet, output_success, output_stall, lnc_tint, bcopy, trans_status,
}
use maxxuss_amdpcnet_v.Tx.Output.{Fits}
use maxxuss_amdpcnet_v.Tx.Reclaim.{NoUnderflow}
use maxxuss_amdpcnet_v.Rx.{lnc_rint, recv_status}
use maxxuss_amdpcnet_v.System.Network.{Label, submit, refuse, send, receive, reclaim, deliver}

-- The driver, and the chip's place in each ring.
pub record System : Type 0 where
  pub driver : PcNet
  pub send_at : ℕ
  pub receive_at : ℕ

-- How many bytes the chip sends of a buffer: the low twelve bits of `-msg_size`, 0 for 4096.
abbrev pub byte_count : Mds → ℕ
byte_count m = 4096 - m.msg_size % 4096

-- The bytes that the chip sends for an entry.
abbrev pub sent_frame : (ℕ → ℕ) → HostRingEntry → List ℕ
sent_frame mem e = bytes_at mem e.buf_addr (byte_count e.md)

-- The chip is done with a transmit descriptor: it keeps all but the status words, and in the status the
-- marks of the packet's start and end. Underflows are left out.
pub record IsSent (m m' : Mds) : Type 0 where
  pub freed : has m'.status tmd_own ≡ false
  pub starts : has m'.status tmd_stp ≡ has m.status tmd_stp
  pub ends : has m'.status tmd_enp ≡ has m.status tmd_enp
  pub fine : NoUnderflow (record { md = m'; md_addr = 0; buf_addr = 0 })

-- The chip is done with a receive descriptor, whose buffer holds a frame as a whole; with an error the
-- frame is of no use.
pub record IsReceived (failed : Bool) (m' : Mds) (payload fcs : List ℕ) : Type 0 where
  pub freed : has m'.status rmd_own ≡ false
  pub starts : has m'.status rmd_stp ≡ true
  pub ends : has m'.status (bit_or rmd_enp rmd_err) ≡ true
  pub error : has m'.status rmd_err ≡ failed
  pub checksum : length fcs ≡ 4
  pub header : 12 ≤ length payload
  pub counted : bit_and m'.rx_msg_length mdhead_len_mask ≡ length payload + 4
  pub fits : length payload + 4 ≤ lnc_recvbufsize

abbrev pub with_trans_md : ℕ → Mds → PcNet → PcNet
with_trans_md i m s = with_sc (record s.sc { trans_entries = set_md s.sc.trans_entries i m }) s

abbrev pub with_recv_md : ℕ → Mds → PcNet → PcNet
with_recv_md i m s = with_sc (record s.sc { recv_entries = set_md s.sc.recv_entries i m }) s

pub data Step (env : Env) (x y : System) : Label → Type 0 where
  -- the stack's packets; the chip does not send empty ones
  submitted :
      (pkt : Mbuf)
      → Fits pkt
      → 0 < pkt.pkthdr_len
      → (lnc_output_packet pkt x.driver).0 ≡ output_success
      → y ≡ record x { driver = (lnc_output_packet pkt x.driver).1 }
      → Step env x y (submit (flatten pkt.chain))
  refused :
      (pkt : Mbuf)
      → (lnc_output_packet pkt x.driver).0 ≡ output_stall
      → y ≡ record x { driver = (lnc_output_packet pkt x.driver).1 }
      → Step env x y refuse
  -- the chip sends the packet at its place
  transmitted :
      (m : Mds)
      → has (trans_status x.driver x.send_at) tmd_own ≡ true
      → IsSent ((x.driver.sc.trans_entries x.send_at).md) m
      → m.msg_size ≡ (x.driver.sc.trans_entries x.send_at).md.msg_size
      → y ≡ record x { driver = with_trans_md x.send_at m x.driver; send_at = (x.send_at + 1) % 32 }
      → Step env x y (send (sent_frame x.driver.mem (x.driver.sc.trans_entries x.send_at)))
  -- the chip receives a frame into the buffer at its place
  received :
      (failed : Bool) (m : Mds) (payload fcs : List ℕ)
      → has (recv_status x.driver x.receive_at) rmd_own ≡ true
      → IsReceived failed m payload fcs
      → y ≡ record x {
        driver = record (with_recv_md x.receive_at m x.driver) {
          mem =
              bcopy (payload ++ fcs) (x.driver.sc.recv_entries x.receive_at).buf_addr x.driver.mem;
        };
        receive_at = (x.receive_at + 1) % 32;
      }
      → Step env x y (receive failed payload)
  -- `lnc_tint` with enough fuel, when the chip has sent the oldest packet
  reclaimed :
      (f : ℕ) (b : Bool) (t : PcNet)
      → 32 ≤ f
      → 0 < x.driver.sc.pending_transmits
      → has (trans_status x.driver x.driver.sc.trans_next) tmd_own ≡ false
      → lnc_tint env (suc f) x.driver ≡ some (b, t)
      → y ≡ record x { driver = t }
      → Step env x y reclaim
  -- `lnc_rint` with enough fuel
  delivered :
      (f : ℕ) (queued b : Bool) (t : PcNet)
      → 32 ≤ f
      → lnc_rint env (suc (suc f)) queued x.driver ≡ some (b, t)
      → y ≡ record x { driver = t }
      → Step env x y deliver
