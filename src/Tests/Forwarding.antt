-- ===== src/Tests/Forwarding.antt =====
-- A packet on its way through the workers.
use ariadne.Base.{
  if◌then◌else◌, bit_or, ℕ, ◌+◌, ◌%◌, ◌^◌, ◌≤◌, ◌<◌, ◌≡◌, ◌≢◌, ◌⊎◌, ◌↔◌, refl, arith, true, false,
  some, List, [], ◌∷◌, length, ◌==◌,
}
use ariadne.Util.{htons, htonl, uint16_t_max}
use ariadne.Interface.{find_by_netmap, has_ip}
use ariadne.Headers.{Ipv4, IsIpv4, version, ihl}
use ariadne.AddressMap.{find}
use ariadne.Frame.{Frame, Packet, iface_host}
use ariadne.RoutingTable.{RoutingTable}
use ariadne.RoutingTable.NextHops.{build_next_hop_list}
use ariadne.RoutingTable.Runs.{num_routes}
use ariadne.ArpTable.{ArpTable, NextHop, create_current_table}
use ariadne.BasicTrie.{Trie, build_trie, new_internal}
use ariadne.Checksum.{ipv4_hdr_checksum}
use ariadne.Checksum.Forward.{forward, forward-checksum, forward-checksum_zero}
use ariadne.Worker.{
  Tables, Processed, ok, State, process_frame, process, process_frames, ipv4_hdr_verification,
  route_packet, cleared,
}
use ariadne.Worker.Route.{IsTransit}
use ariadne.Worker.Host.{own_packet_routed, process_frame_lost}
use ariadne.Worker.Batch.{process-Processes, Processes, dequeued}
use ariadne.Worker.Pipeline.{Verdict, worker_tables, pipeline}
use ariadne.Tests.Data.{
  two_ports, eth0, fresh_table, arp_table, ipv4_header, ipv4_packet, first_frame,
}
use ariadne.Tests.Lookup.{seven, entries-IsTable, routes-HasPort}

header-IsIpv4 :
    (ttl checksum d_ip : ℕ)
    → ttl < 256
    → checksum < 2 ^ 16
    → d_ip < 2 ^ 32
    → IsIpv4 (record ipv4_header { ttl = ttl; checksum = checksum; d_ip = d_ip })
header-IsIpv4 ttl checksum d_ip a b c = record {
  version_ihl = omega arith;
  tos = omega arith;
  total_length = omega arith;
  id = omega arith;
  flags_fragmentation = omega arith;
  ttl = a;
  proto = omega arith;
  checksum = b;
  s_ip = omega arith;
  d_ip = c;
  beyond = λ i. omega arith;
}

is_v4 : version ipv4_header ≡ 4
unfolding version
is_v4 = refl

five_words : 5 ≤ ihl ipv4_header
unfolding ihl
five_words = omega arith

valid : ipv4_hdr_checksum ipv4_header ≡ ipv4_header.checksum
unfolding ipv4_hdr_checksum
valid = refl

forward-checksum_example : ipv4_hdr_checksum (forward ipv4_header) ≡ (forward ipv4_header).checksum
forward-checksum_example =
    forward-checksum ipv4_header
      (header-IsIpv4 64 (htons 0xaf11) (htonl 0xc0a80107) (omega arith) (omega arith) (omega arith))
      is_v4 five_words (omega arith) valid (λ e. omega arith)

-- With this identification the checksum is 0xfeff on the wire.
abbrev corner : Ipv4
corner = record ipv4_header { id = htons 0xb018; checksum = 0xfffe }

corner-IsIpv4 : IsIpv4 corner
corner-IsIpv4 = record {
  version_ihl = omega arith;
  tos = omega arith;
  total_length = omega arith;
  id = omega arith;
  flags_fragmentation = omega arith;
  ttl = omega arith;
  proto = omega arith;
  checksum = omega arith;
  s_ip = omega arith;
  d_ip = omega arith;
  beyond = λ i. omega arith;
}

corner_valid : ipv4_hdr_checksum corner ≡ corner.checksum
unfolding ipv4_hdr_checksum
corner_valid = refl

corner_v4 : version corner ≡ 4
unfolding version
corner_v4 = refl

corner_long : 5 ≤ ihl corner
unfolding ihl
corner_long = omega arith

forward-checksum_zero_example :
    ((forward corner).checksum ≡ 0xffff) × (ipv4_hdr_checksum (forward corner) ≡ 0)
forward-checksum_zero_example =
    forward-checksum_zero corner corner-IsIpv4 corner_v4 corner_long (omega arith) corner_valid refl

abbrev pub transit_packet : Packet
transit_packet = ipv4_packet ipv4_header

at_eth0 : find_by_netmap two_ports 0 ≡ some eth0
unfolding find_by_netmap
at_eth0 = refl

accepted : ipv4_hdr_verification ipv4_header 60 ≡ true
unfolding ipv4_hdr_verification ipv4_hdr_checksum version ihl
accepted = refl

not_own : has_ip (htonl 0xc0a80107) eth0.ips ≡ false
unfolding has_ip
not_own = refl

pub packet-IsTransit : IsTransit two_ports first_frame transit_packet eth0
packet-IsTransit = record {
  at_port = at_eth0;
  is_ipv4 = refl;
  verified = accepted;
  foreign = not_own;
}

nobody :
    (ip : ℕ) (nh : NextHop)
    → find arp_table.directly_connected ip ≡ some nh
    → nh.netmap_interface ≢ uint16_t_max
unfolding find
nobody ip nh h e = cc

few_routes : num_routes fresh_table.entries ≤ 0x8000
few_routes = omega arith

pipeline_example :
    (rt' : RoutingTable) × (arp' : ArpTable) × (u : Trie) × (build_next_hop_list two_ports
        fresh_table
      ≡ some rt')
    × (create_current_table rt'.next_hop_mapping arp_table ≡ some arp')
    × (build_trie seven rt'.entries ≡ some u)
    × Verdict rt'.entries arp_table 0xc0a80107 eth0 first_frame transit_packet
        (process_frame seven (worker_tables u arp') first_frame transit_packet)
pipeline_example =
    pipeline seven fresh_table arp_table first_frame transit_packet eth0 refl entries-IsTable
      routes-HasPort few_routes nobody packet-IsTransit

-- Tables of a worker without routes.
abbrev no_routes : Tables
no_routes = record {
  lpm = new_internal;
  next_hops = [];
  directly_connected = [];
  interfaces = two_ports;
}

-- A packet for 10.0.0.1, the router's own address.
abbrev own_header : Ipv4
own_header = record ipv4_header { d_ip = htonl 0x0a000001; checksum = htons 0x66c0 }

own_accepted : ipv4_hdr_verification own_header 60 ≡ true
unfolding ipv4_hdr_verification ipv4_hdr_checksum version ihl
own_accepted = refl

-- A packet for 1.0.0.10, which is none of the router's.
abbrev swapped_header : Ipv4
swapped_header = record ipv4_header { d_ip = 0x0a000001; checksum = htons 0x6fb7 }

swapped_accepted : ipv4_hdr_verification swapped_header 60 ≡ true
unfolding ipv4_hdr_verification ipv4_hdr_checksum version ihl
swapped_accepted = refl

own_packet_routed_example :
    (process_frame seven no_routes first_frame (ipv4_packet own_header)
      ≡ route_packet seven no_routes eth0 first_frame (ipv4_packet own_header))
    × (process_frame seven no_routes first_frame (ipv4_packet swapped_header)
        ≡ ok (record {
          frame = record first_frame { iface = bit_or first_frame.iface iface_host };
          packet = ipv4_packet swapped_header;
          enqueued = false;
        }))
own_packet_routed_example =
    own_packet_routed seven no_routes eth0 0x0a000001 first_frame first_frame
      (ipv4_packet own_header) (ipv4_packet swapped_header) refl (omega arith) (λ e. omega arith)
      (at_eth0, refl, own_accepted) refl (omega arith) (at_eth0, refl, swapped_accepted) refl
      (omega arith)

-- A packet with a wrong checksum.
abbrev damaged : Ipv4
damaged = record ipv4_header { checksum = 0 }

abbrev dropped : Processed
dropped = record {
  frame = record first_frame { iface = 0x8000 };
  packet = ipv4_packet damaged;
  enqueued = false;
}

drops : process_frame seven no_routes first_frame (ipv4_packet damaged) ≡ ok dropped
unfolding process_frame ipv4_hdr_verification ipv4_hdr_checksum find_by_netmap
drops = refl

process_frame_lost_example : (dropped.enqueued ≡ false) ↔ (
    (htons 0x0800 ≡ htons 0x0800)
    × ((ipv4_hdr_verification damaged 60 ≡ false) ⊎ (has_ip damaged.d_ip eth0.ips ≡ true)))
process_frame_lost_example =
    process_frame_lost seven no_routes first_frame (ipv4_packet damaged) eth0 dropped at_eth0 drops

-- One batch of that packet and an ARP packet, then an empty one, then one that stays.
abbrev second_frame : Frame
second_frame = record first_frame { buf_ptr = 8192; len = 42 }

abbrev arp_packet : Packet
arp_packet = record (ipv4_packet damaged) {
  ether = record (ipv4_packet damaged).ether { ethertype = htons 0x0806 };
}

abbrev start : State
start = record {
  memory = λ ptr. if ptr == 4096 then ipv4_packet damaged else arp_packet;
  stats = cleared;
  egress = [];
}

abbrev batches : List (List Frame)
batches = (first_frame ∷ second_frame ∷ []) ∷ [] ∷ (first_frame ∷ []) ∷ []

abbrev finished : State
finished = record {
  memory = λ ptr.
      if ptr == 8192
      then arp_packet
      else (if ptr == 4096
          then ipv4_packet damaged
          else (if ptr == 4096 then ipv4_packet damaged else arp_packet));
  stats = record { num_batches = 1; num_frames = 2; num_bytes = 102 };
  egress = record second_frame { iface = 0x2000 } ∷ [];
}

runs : process seven no_routes batches start ≡ ok finished
unfolding process process_frames process_frame ipv4_hdr_verification ipv4_hdr_checksum
    find_by_netmap
runs = refl

process-Processes_example :
    Processes (dequeued batches) start finished
    × (finished.stats.num_frames % 2 ^ 32
        ≡ (start.stats.num_frames + length (dequeued batches)) % 2 ^ 32)
process-Processes_example = process-Processes seven no_routes batches start finished runs
