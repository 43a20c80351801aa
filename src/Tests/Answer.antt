-- ===== src/Tests/Answer.antt =====
-- A packet for a next hop before and after its reply.
use ariadne.Base.{◌≡◌, refl, arith, true, some, [], ◌∷◌, replicate, bit_or}
use ariadne.Util.{htonl, ntohl, extract_bit}
use ariadne.Interface.{invalid_mac}
use ariadne.Frame.{iface_nomac}
use ariadne.RoutingTable.{Entries}
use ariadne.ArpTable.{NextHop, handle_frame, handle_reply, learn, find_registered, set_mac}
use ariadne.AddressMap.{find}
use ariadne.Manager.Transmit.{TxState, Item, transmit_one, handle_flags, send}
use ariadne.BasicTrie.{Trie, build_trie}
use ariadne.BasicTrie
use ariadne.Checksum.Forward.{forward}
use ariadne.Worker.{process_frame, ok}
use ariadne.Worker.Pipeline.{worker_tables}
use ariadne.System.Answer.{IsReply, next_packet_leaves}
use ariadne.Tests.Data.{eth0, ipv4_header, first_frame, route_via}
use ariadne.Tests.Lookup.{seven}
use ariadne.Tests.Rings.{small_netmap, tx_start, item}
use ariadne.Tests.Exchange.{hop_a, current, hop_reply, hop_registered}
use ariadne.Tests.Forwarding.{transit_packet, packet-IsTransit}

abbrev hop : NextHop
hop = record { mac = invalid_mac; netmap_interface = 0 }

abbrev unanswered : TxState
unanswered = record tx_start { arp_table = current; memory = λ ptr. hop_reply }

-- The reply in buffer 9, as a worker has marked it.
abbrev the_reply : Item
the_reply = item 9 0x2000 5

is_reply : IsReply current the_reply.frame hop_reply hop_a hop
unfolding find
is_reply = record {
  no_host = refl;
  arp = refl;
  reply = (refl, refl);
  registered = hop_registered;
  entry = refl;
  some_port = λ e. omega arith;
  some_mac = refl;
}

answered : (s : TxState) × (transmit_one small_netmap 1 unanswered the_reply ≡ some s)
unfolding transmit_one handle_flags handle_frame handle_reply learn find_registered set_mac send
answered = (_, refl)

-- A default route by that next hop.
abbrev default_route : Entries
default_route = (route_via 0 0 0x0a0000fe 0 0 ∷ []) ∷ replicate 32 []

trie : (u : Trie) × (build_trie seven default_route ≡ some u)
unfolding build_trie extract_bit
trie = (_, refl)

routed : BasicTrie.route seven trie.0 (ntohl (htonl 0xc0a80107)) ≡ 0
unfolding BasicTrie.route trie build_trie extract_bit
routed = refl

next_packet_leaves_example :
    (process_frame seven (worker_tables trie.0 current) first_frame transit_packet
      ≡ ok (record {
        frame = record first_frame { iface = bit_or 0 iface_nomac };
        packet = record transit_packet { ipv4 = forward ipv4_header };
        enqueued = true;
      }))
    × (process_frame seven (worker_tables trie.0 answered.0.arp_table) first_frame transit_packet
        ≡ ok (record {
          frame = record first_frame { iface = 0 };
          packet = record transit_packet {
            ether = record (transit_packet.ether) {
              d_mac = hop_reply.arp.s_hw_addr;
              s_mac = eth0.mac;
            };
            ipv4 = forward ipv4_header;
          };
          enqueued = true;
        }))
next_packet_leaves_example =
    next_packet_leaves small_netmap 1 seven trie.0 unanswered answered.0 the_reply hop_a hop
      first_frame transit_packet eth0 is_reply answered.1 packet-IsTransit routed (omega arith) refl
