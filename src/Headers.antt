-- ===== src/Headers.antt =====
-- include/headers.hpp: the packet headers. A field of 16 or 32 bits is the number that the
-- little-endian host loads, so fields that the network sends big-endian are read by `ntohs` and
-- `ntohl` of `Util`.
use ariadne.Base.{ℕ, ◌+◌, ◌*◌, ◌/◌, ◌%◌, ◌^◌, ◌<◌, bit_and, zero, suc}
use ariadne.Interface.{Mac}

pub record Ether : Type 0 where
  pub d_mac : Mac
  pub s_mac : Mac
  pub ethertype : ℕ

-- `beyond` is the memory behind the fixed header, as 16-bit words: the options come first.
pub record Ipv4 : Type 0 where
  pub version_ihl : ℕ
  pub tos : ℕ
  pub total_length : ℕ
  pub id : ℕ
  pub flags_fragmentation : ℕ
  pub ttl : ℕ
  pub proto : ℕ
  pub checksum : ℕ
  pub s_ip : ℕ
  pub d_ip : ℕ
  pub beyond : ℕ → ℕ

unfoldable pub version : Ipv4 → ℕ
version h = bit_and h.version_ihl 0xf0 / 2 ^ 4

unfoldable pub ihl : Ipv4 → ℕ
ihl h = bit_and h.version_ihl 0x0f

unfoldable pub fragmentation : Ipv4 → ℕ
fragmentation h = bit_and h.flags_fragmentation 0x1fff

unfoldable pub flags : Ipv4 → ℕ
flags h = h.flags_fragmentation / 2 ^ 18 % 2 ^ 16

abbrev pub proto_icmp : ℕ
proto_icmp = 1

abbrev pub proto_tcp : ℕ
proto_tcp = 6

abbrev pub proto_udp : ℕ
proto_udp = 17

pub record Arp : Type 0 where
  pub hw_type : ℕ
  pub proto_type : ℕ
  pub hw_len : ℕ
  pub proto_len : ℕ
  pub op : ℕ
  pub s_hw_addr : Mac
  pub s_proto_addr : ℕ
  pub t_hw_addr : Mac
  pub t_proto_addr : ℕ

abbrev pub op_request : ℕ
op_request = 1

abbrev pub op_reply : ℕ
op_reply = 2

abbrev pub size_of_ether : ℕ
size_of_ether = 14

abbrev pub size_of_arp : ℕ
size_of_arp = 28

-- Every header's fields are in range for their widths.
pub record IsIpv4 (h : Ipv4) : Type 0 where
  pub version_ihl : h.version_ihl < 2 ^ 8
  pub tos : h.tos < 2 ^ 8
  pub total_length : h.total_length < 2 ^ 16
  pub id : h.id < 2 ^ 16
  pub flags_fragmentation : h.flags_fragmentation < 2 ^ 16
  pub ttl : h.ttl < 2 ^ 8
  pub proto : h.proto < 2 ^ 8
  pub checksum : h.checksum < 2 ^ 16
  pub s_ip : h.s_ip < 2 ^ 32
  pub d_ip : h.d_ip < 2 ^ 32
  pub beyond : (i : ℕ) → h.beyond i < 2 ^ 16

-- `reinterpret_cast<uint16_t*>(header)[i]`.
unfoldable pub word : Ipv4 → ℕ → ℕ
word h zero = h.version_ihl + 256 * h.tos
word h (suc zero) = h.total_length
word h (suc (suc zero)) = h.id
word h (suc (suc (suc zero))) = h.flags_fragmentation
word h (suc (suc (suc (suc zero)))) = h.ttl + 256 * h.proto
word h (suc (suc (suc (suc (suc zero))))) = h.checksum
word h (suc (suc (suc (suc (suc (suc zero)))))) = h.s_ip % 2 ^ 16
word h (suc (suc (suc (suc (suc (suc (suc zero))))))) = h.s_ip / 2 ^ 16
word h (suc (suc (suc (suc (suc (suc (suc (suc zero)))))))) = h.d_ip % 2 ^ 16
word h (suc (suc (suc (suc (suc (suc (suc (suc (suc zero))))))))) = h.d_ip / 2 ^ 16
word h (suc (suc (suc (suc (suc (suc (suc (suc (suc (suc i)))))))))) = h.beyond i

pub record Tcp : Type 0 where
  pub s_port : ℕ
  pub d_port : ℕ
  pub seq : ℕ
  pub ack : ℕ
  pub offset_flags : ℕ
  pub window : ℕ
  pub checksum : ℕ
  pub urgend_ptr : ℕ

pub record Udp : Type 0 where
  pub s_port : ℕ
  pub d_port : ℕ
  pub len : ℕ
  pub checksum : ℕ

-- `kind` is the field `type`.
pub record Icmp : Type 0 where
  pub kind : ℕ
  pub code : ℕ
  pub checksum : ℕ
