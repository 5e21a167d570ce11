-- ===== src/Lib.antt =====
-- The AMD PCNET II network driver for Darwin, the class PCNET of Source/: a port of the FreeBSD
-- driver lnc to I/O Kit. The driver and the chip share one block of memory with a ring of receive and
-- a ring of transmit descriptors; the driver starts and stops the chip by its registers, and the chip
-- interrupts the driver.
--
-- Base          shared names, 8-, 16- and 32-bit words and the laws of the bit operations
-- Hw            Source/PCNet_HW.h: registers, flags, descriptors, initialization block
-- Softc         Source/PCNet_lnc.h and Source/PCNet_Var.h: the soft state and the ring macros
-- World         what the chip and I/O Kit answer, as functions of the history of all events so far
-- State         Source/PCNet.h: the members of the class, its counters, and the history
-- Port          Source/PCNet.h: access to ports, CSRs and BCRs
-- Layout        Source/PCNet_lnc.cpp: the size of the shared memory and the addresses in it
-- Init          Source/PCNet_lnc.cpp: lnc_pci_attach, lnc_init and lnc_reset
-- Tx            Source/PCNet_lnc.cpp: lnc_output_packet and lnc_tint
-- Rx            Source/PCNet_lnc.cpp: lnc_rint and mbuf_packet
-- Multicast     Source/PCNet_lnc.cpp: the multicast filter
-- Medium, Phy   Source/PCNet_lnc.cpp and Source/PCNet_PHY.cpp: the medium and the state of the link
-- Intr          lnc_intr, and Source/PCNet_Private.cpp: handleInterrupt and outputPacket
-- Adapter       Source/PCNet.cpp: activation levels and the requests of the network stack
-- Debugger      Source/PCNet.cpp: the kernel debugger as a second client of the adapter
-- Lifecycle     Source/PCNet.cpp: init, start, stop and free
-- System        the driver and the chip together, step by step, and the network that they stand for
-- Window        the accesses to the I/O ports that all of these make, the provider and the packets
-- Examples      concrete states and a run
--
-- A function keeps its name in snake case and takes the driver's state as its last argument. Loops
-- over a counter are structural. A loop that the contents of a ring or the chip end takes fuel, and
-- its result is none when the fuel is used up: 33 units are enough for lnc_tint and 34 for lnc_rint
-- under the conditions stated, one for each of the 32 descriptors and one or two for a round. The
-- chip is no code of this repository: System.Step is what its manual lets it do, one transmit or receive
-- descriptor at a time, and only between calls of the driver's functions; every other answer of the chip
-- is a parameter of the model. What a call into I/O Kit does beyond its answer is not modelled, nor are
-- its delays. In System a call of lnc_tint has a finished packet to take off, as the
-- interrupt says, a packet of the stack is not empty and fits a buffer, a frame fits a buffer, too, and
-- underflows are left out.
-- Not modelled, too: the code under DEBUG, which is not compiled, the log, the calls that
-- KDB_SUPPORT adds but for those of Debugger, since their bodies are commented out or only lock,
-- the fixed strings and power constants given to I/O Kit, and the drivers of other projects in
-- "Useful Stuff".
pub mod Base
pub mod Hw
pub mod Softc
pub mod World
pub mod State
pub mod Port
pub mod Multicast
pub mod Medium
pub mod Layout
pub mod Init
pub mod Tx
pub mod Rx
pub mod Intr
pub mod Phy
pub mod Adapter
pub mod Debugger
pub mod Window
pub mod Lifecycle
pub mod System
mod Examples
