-- ===== src/Tests/Data.antt =====
-- A router with two ports, a small routing table, and packets for it.
use ariadne.Base.{ℕ, [], ◌∷◌, ◌++◌, replicate, some}
use ariadne.Util.{htons, htonl}
use ariadne.Interface.{Interface, Heap, Mac, invalid_mac}
use ariadne.RoutingTable.{Route, Entries, RoutingTable, nh_invalid}
use ariadne.Headers.{Ipv4, Arp}
use ariadne.Frame.{Frame, Packet}
use ariadne.ArpTable.{ArpTable}

-- 10.0.0.1 and 10.1.0.1.
abbrev pub eth0 : Interface
eth0 = record {
  mac = 2 ∷ 0 ∷ 0 ∷ 0 ∷ 0 ∷ 1 ∷ [];
  netlink_index = 2;
  netmap_index = 0;
  ips = 0x0a000001 ∷ [];
  name = "eth0";
}

abbrev pub eth1 : Interface
eth1 = record {
  mac = 2 ∷ 0 ∷ 0 ∷ 0 ∷ 0 ∷ 2 ∷ [];
  netlink_index = 3;
  netmap_index = 1;
  ips = 0x0a010001 ∷ [];
  name = "eth1";
}

abbrev pub two_ports : Heap
two_ports = eth0 ∷ eth1 ∷ []

abbrev pub route_via : ℕ → ℕ → ℕ → ℕ → ℕ → Route
route_via base len next_hop port index = record {
  base = base;
  next_hop = next_hop;
  prefix_length = len;
  interface = some port;
  index = index;
}

-- A default route by 10.0.0.254, the network 10.1.0.0/16 of eth1, and 192.168.1.0/24 by 10.1.0.2,
-- with given indices.
abbrev pub three_routes : ℕ → ℕ → ℕ → Entries
three_routes a b c =
    (route_via 0 0 0x0a0000fe 0 a ∷ [])
    ∷ (replicate 15 []
        ++ (route_via 0x0a010000 16 0 1 b ∷ [])
          ∷ (replicate 7 [] ++ (route_via 0xc0a80100 24 0x0a010002 1 c ∷ []) ∷ replicate 8 []))

abbrev pub fresh_table : RoutingTable
fresh_table = record {
  entries = three_routes nh_invalid nh_invalid nh_invalid;
  next_hop_mapping = [];
}

abbrev pub built_entries : Entries
built_entries = three_routes 0 0x8001 1

abbrev pub hop_mac : Mac
hop_mac = 2 ∷ 0 ∷ 0 ∷ 0 ∷ 1 ∷ 2 ∷ []

-- ARP knows the MAC address of 10.1.0.2.
abbrev pub arp_table : ArpTable
arp_table = record {
  next_hop_mapping = [];
  next_hops = [];
  directly_connected = [];
  mapping = (0x0a010002, record { mac = hop_mac; netmap_interface = 1 }) ∷ [];
  interfaces = two_ports;
}

-- From 10.0.0.9 to 192.168.1.7, with a time to live of 64.
abbrev pub ipv4_header : Ipv4
ipv4_header = record {
  version_ihl = 0x45;
  tos = 0;
  total_length = htons 40;
  id = htons 7;
  flags_fragmentation = 0;
  ttl = 64;
  proto = 6;
  checksum = htons 0xaf11;
  s_ip = htonl 0x0a000009;
  d_ip = htonl 0xc0a80107;
  beyond = λ i. 0;
}

abbrev pub no_arp : Arp
no_arp = record {
  hw_type = 0;
  proto_type = 0;
  hw_len = 0;
  proto_len = 0;
  op = 0;
  s_hw_addr = invalid_mac;
  s_proto_addr = 0;
  t_hw_addr = invalid_mac;
  t_proto_addr = 0;
}

abbrev pub ipv4_packet : Ipv4 → Packet
ipv4_packet h = record {
  ether = record { d_mac = eth0.mac; s_mac = 2 ∷ 0 ∷ 0 ∷ 0 ∷ 0 ∷ 9 ∷ []; ethertype = htons 0x0800 };
  ipv4 = h;
  arp = no_arp;
}

abbrev pub first_frame : Frame
first_frame = record { buf_ptr = 4096; len = 60; iface = 0; vlan = 0 }
