-- ===== src/Frame.antt =====
-- include/frame.hpp: a frame, its flags, and the packet buffers that frames point to.
pub mod Hash
use ariadne.Base.{ℕ, ◌==◌, if◌then◌else◌, bit_and}
use ariadne.Headers.{Ether, Ipv4, Arp}

-- `buf_ptr` is the address of a buffer.
pub record Frame : Type 0 where
  pub buf_ptr : ℕ
  pub len : ℕ
  pub iface : ℕ
  pub vlan : ℕ

abbrev pub iface_nomac : ℕ
iface_nomac = 0x1000

abbrev pub iface_arp : ℕ
iface_arp = 0x2000

abbrev pub iface_host : ℕ
iface_host = 0x4000

abbrev pub iface_discard : ℕ
iface_discard = 0x8000

abbrev pub iface_id : ℕ
iface_id = 0x0fff

-- `iface & IFACE_ID`.
abbrev pub port : Frame → ℕ
port f = bit_and f.iface iface_id

-- What a buffer holds: the Ethernet header and the bytes behind it, which the code reads
-- through `reinterpret_cast` as an IPv4 or as an ARP header, by the ethertype or the flags of the
-- frame. No operation reads one of the two views after a write through the other.
pub record Packet : Type 0 where
  pub ether : Ether
  pub ipv4 : Ipv4
  pub arp : Arp

abbrev pub Memory : Type 0
Memory = ℕ → Packet

abbrev pub store : Memory → ℕ → Packet → Memory
store mem ptr p q = if q == ptr then p else mem q
