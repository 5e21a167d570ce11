-- ===== src/Rx/Ring.antt =====
-- The receive ring where every frame fits one buffer, and what the driver owes for each frame.
use maxxuss_amdpcnet_v.Base.{
  ℕ, zero, suc, ◌+◌, ◌-◌, ◌^◌, ◌<◌, ◌≤◌, ◌≡◌, Bool, true, false, has, bit_or, bit_and,
  if◌then◌else◌, u16, List, [], ◌∷◌, ◌++◌, bytes_at, ltb, ◌&&◌, ◌||◌, get_or, ◌==◌,
}
use maxxuss_amdpcnet_v.World.{Event, did, input_packet}
use maxxuss_amdpcnet_v.Hw.{ether_crc_len, ether_addr_len, ether_shost_offset}
use maxxuss_amdpcnet_v.Hw.Descriptors.{rmd_err, rmd_stp, rmd_enp, mdhead_len_mask}
use maxxuss_amdpcnet_v.Softc.{LncSoftc, HostRingEntry, lnc_recvbufsize}

-- `pkt_len` of a descriptor: the length without the checksum, in 16 bits.
abbrev pub frame_length : HostRingEntry → ℕ
frame_length e = u16 (bit_and e.md.rx_msg_length mdhead_len_mask + 2 ^ 16 - ether_crc_len)

-- The ring has 32 descriptors, and each one that starts a frame also ends it, or reports an error.
pub record RxValid (sc : LncSoftc) : Type 0 where
  pub size : sc.nrdre ≡ 5
  pub next_in : sc.recv_next < 32
  pub single :
      (i : ℕ)
      → i < 32
      → has ((sc.recv_entries i).md.status) rmd_stp ≡ true
      → has ((sc.recv_entries i).md.status) (bit_or rmd_enp rmd_err) ≡ true
  -- a frame without error holds both addresses of its header
  pub long :
      (i : ℕ)
      → i < 32
      → has ((sc.recv_entries i).md.status) rmd_stp ≡ true
      → has ((sc.recv_entries i).md.status) rmd_err ≡ false
      → 12 ≤ frame_length (sc.recv_entries i)

-- The bytes of a frame: as many as its buffer holds at most.
abbrev pub frame : (ℕ → ℕ) → HostRingEntry → List ℕ
frame mem e =
    bytes_at mem e.buf_addr
      (if ltb (frame_length e) lnc_recvbufsize then frame_length e else lnc_recvbufsize)

-- Whether the bytes from offset 6 + i on are the station's own address.
unfoldable pub from_self : ℕ → ℕ → (ℕ → ℕ) → List ℕ → Bool
from_self zero i addr pkt = true
from_self (suc n) i addr pkt =
    get_or pkt (ether_shost_offset + i) 0 == addr i && from_self n (i + 1) addr pkt

-- What is handed on of the frame in a descriptor: nothing if it has an error or comes from the station
-- itself, and the frame otherwise.
unfoldable pub accepted : (ℕ → ℕ) → (ℕ → ℕ) → HostRingEntry → List (List ℕ)
accepted addr mem e =
    if has e.md.status rmd_err || from_self ether_addr_len 0 addr (frame mem e)
    then []
    else frame mem e ∷ []

-- The packets handed to the network interface, oldest first, from a history.
unfoldable pub inputs : List Event → List (List ℕ)
inputs [] = []
inputs (did (input_packet pkt n) ∷ tr) = inputs tr ++ (pkt ∷ [])
inputs (e ∷ tr) = inputs tr
