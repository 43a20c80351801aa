-- ===== src/Tests/Exchange.antt =====
-- ARP frames at the router with two ports, and the ARP table for its next hops.
use ariadne.Base.{
  ℕ, ◌≡◌, ◌⊎◌, refl, arith, true, false, some, none, List, [], ◌∷◌, length, get_elem?,
}
use ariadne.Util.{htons, htonl, ntohl}
use ariadne.Interface.{Interface, find_by_netmap, has_ip}
use ariadne.AddressMap.{find}
use ariadne.Frame.{Packet, iface_discard}
use ariadne.RoutingTable.{NhAbstract}
use ariadne.ArpTable.{
  ArpTable, NextHop, create_current_table, find_registered, handle_frame, prepare_request, reply_to,
  hop_entry,
}
use ariadne.ArpTable.Current.{IsPlaced, Entered, create_current_table-Entered}
use ariadne.ArpTable.Learn.{
  sender, add_connected, add_hop, HeardConnected, HeardHop, handle_reply_branches,
  handle_request_branches,
}
use ariadne.ArpTable.Exchange.{exchange, asked}
use ariadne.Tests.Data.{eth0, eth1, two_ports, arp_table, ipv4_packet, ipv4_header, first_frame}

abbrev pub hop_a : NhAbstract
hop_a = record { nh_ip = 0x0a0000fe; interface = some 0; index = 0 }

abbrev hop_b : NhAbstract
hop_b = record { nh_ip = 0x0a010002; interface = some 1; index = 1 }

placed : IsPlaced two_ports 0 (hop_a ∷ hop_b ∷ [])
placed = (refl, (eth0, refl, (λ e. omega arith)), (refl, (eth1, refl, (λ e. omega arith)), tt))

create_current_table-Entered_example :
    (hops : List NextHop) × (create_current_table (hop_a ∷ hop_b ∷ []) arp_table
      ≡ some (record arp_table { next_hop_mapping = hop_a ∷ hop_b ∷ []; next_hops = hops }))
    × (length hops ≡ 2)
    × Entered arp_table 0 (hop_a ∷ hop_b ∷ []) hops
create_current_table-Entered_example =
    create_current_table-Entered (hop_a ∷ hop_b ∷ []) arp_table placed

-- The table after that.
abbrev pub current : ArpTable
current = record arp_table {
  next_hop_mapping = hop_a ∷ hop_b ∷ [];
  next_hops = hop_entry arp_table hop_a eth0 ∷ hop_entry arp_table hop_b eth1 ∷ [];
}

creates : create_current_table (hop_a ∷ hop_b ∷ []) arp_table ≡ some current
unfolding create_current_table find
creates = refl

-- An ARP packet from `ip` with the last byte `b` in its MAC address, for the address `to`.
abbrev pub arp_from : ℕ → ℕ → ℕ → ℕ → Packet
arp_from op ip b to = record (ipv4_packet ipv4_header) {
  ether = record (ipv4_packet ipv4_header).ether { ethertype = htons 0x0806 };
  arp = record {
    hw_type = htons 1;
    proto_type = htons 0x0800;
    hw_len = 6;
    proto_len = 4;
    op = htons op;
    s_hw_addr = 2 ∷ 0 ∷ 0 ∷ 0 ∷ 0 ∷ b ∷ [];
    s_proto_addr = htonl ip;
    t_hw_addr = eth0.mac;
    t_proto_addr = htonl to;
  };
}

-- A reply from the host 10.0.0.9, and one from the next hop 10.0.0.254.
abbrev pub host_reply : Packet
host_reply = arp_from 2 0x0a000009 9 0x0a000001

abbrev pub hop_reply : Packet
hop_reply = arp_from 2 0x0a0000fe 254 0x0a000001

host_unregistered : find_registered two_ports current.next_hop_mapping 0x0a000009 0 ≡ some none
unfolding find_registered
host_unregistered = refl

pub hop_registered :
    find_registered two_ports current.next_hop_mapping 0x0a0000fe 0 ≡ some (some hop_a)
unfolding find_registered
hop_registered = refl

handle_reply_branches_example :
    ((find_registered two_ports current.next_hop_mapping (sender hop_reply) 0 ≡ some none)
      × HeardConnected current first_frame hop_reply)
    ⊎ ((r : NhAbstract) × (h : NextHop) × (find_registered two_ports current.next_hop_mapping
            (sender hop_reply)
            0
          ≡ some (some r))
        × (get_elem? current.next_hops r.index ≡ some h)
        × HeardHop current first_frame hop_reply r h)
    ⊎ ((find_registered two_ports current.next_hop_mapping (sender hop_reply) 0 ≡ none)
        × (handle_frame current (first_frame, hop_reply) ≡ none))
    ⊎ ((r : NhAbstract) × (find_registered two_ports current.next_hop_mapping (sender hop_reply) 0
          ≡ some (some r))
        × (get_elem? current.next_hops r.index ≡ none)
        × (handle_frame current (first_frame, hop_reply) ≡ none))
handle_reply_branches_example = handle_reply_branches current first_frame hop_reply (refl, refl)

-- A request by that host for 10.0.0.1.
abbrev request : Packet
request = arp_from 1 0x0a000009 9 0x0a000001

at_eth0 : find_by_netmap two_ports 0 ≡ some eth0
unfolding find_by_netmap
at_eth0 = refl

handle_request_branches_example :
    ((has_ip 0x0a000001 eth0.ips ≡ false)
      × (handle_frame current (first_frame, request)
          ≡ some (current, (record first_frame { iface = iface_discard }, request))))
    ⊎ ((has_ip 0x0a000001 eth0.ips ≡ true)
        × (find_registered two_ports current.next_hop_mapping (sender request) 0 ≡ some none)
        × (handle_frame current (first_frame, request)
            ≡ some (
              add_connected current (first_frame, request),
              (first_frame, reply_to eth0 request),
            )))
    ⊎ ((has_ip 0x0a000001 eth0.ips ≡ true)
        × ((r : NhAbstract) × (h : NextHop) × (find_registered two_ports current.next_hop_mapping
                (sender request)
                0
              ≡ some (some r))
            × (get_elem? current.next_hops r.index ≡ some h)
            × (handle_frame current (first_frame, request)
                ≡ some (add_hop current (first_frame, request) r.index h, (first_frame, request)))))
    ⊎ ((has_ip 0x0a000001 eth0.ips ≡ true)
        × (find_registered two_ports current.next_hop_mapping (sender request) 0 ≡ none)
        × (handle_frame current (first_frame, request) ≡ none))
    ⊎ ((has_ip 0x0a000001 eth0.ips ≡ true)
        × ((r : NhAbstract) × (find_registered two_ports current.next_hop_mapping (sender request) 0
              ≡ some (some r))
            × (get_elem? current.next_hops r.index ≡ none)
            × (handle_frame current (first_frame, request) ≡ none)))
handle_request_branches_example =
    handle_request_branches current first_frame request eth0 (refl, refl) at_eth0

-- That host is a router, too, with one port, and asks for 10.0.0.1.
abbrev eth9 : Interface
eth9 = record {
  mac = 2 ∷ 0 ∷ 0 ∷ 0 ∷ 0 ∷ 9 ∷ [];
  netlink_index = 2;
  netmap_index = 0;
  ips = 0x0a000009 ∷ [];
  name = "eth9";
}

abbrev asker : ArpTable
asker = record {
  next_hop_mapping = [];
  next_hops = [];
  directly_connected = [];
  mapping = [];
  interfaces = eth9 ∷ [];
}

at_eth9 : find_by_netmap asker.interfaces 0 ≡ some eth9
unfolding find_by_netmap
at_eth9 = refl

asks_for_own : has_ip (ntohl (htonl 0x0a000001)) eth0.ips ≡ true
unfolding has_ip
asks_for_own = refl

not_a_hop :
    find_registered asker.interfaces asker.next_hop_mapping (ntohl (htonl 0x0a000001)) 0 ≡ some none
unfolding find_registered
not_a_hop = refl

unheard : (ip : ℕ) → find {A = NextHop} [] ip ≡ none
unfolding find
unheard ip = refl

abbrev question : Packet
question = asked eth9 0x0a000009 (htonl 0x0a000001) (ipv4_packet ipv4_header)

abbrev answer : Packet
answer = reply_to eth0 question

exchange_example :
    (prepare_request asker (htonl 0x0a000001) 0 (first_frame, ipv4_packet ipv4_header)
      ≡ some (record first_frame { len = 42 }, question))
    × (handle_frame current (first_frame, question)
        ≡ some (add_connected current (first_frame, question), (first_frame, answer)))
    × (find (add_connected current (first_frame, question)).directly_connected 0x0a000009
        ≡ some (record { mac = eth9.mac; netmap_interface = 0 }))
    × (handle_frame asker (first_frame, answer)
        ≡ some (add_connected asker (first_frame, answer), (first_frame, answer)))
    × (find (add_connected asker (first_frame, answer)).directly_connected 0x0a000001
        ≡ some (record { mac = eth0.mac; netmap_interface = 0 }))
exchange_example =
    exchange asker current (htonl 0x0a000001) 0 first_frame first_frame first_frame
      (ipv4_packet ipv4_header) eth9 eth0 0x0a000009 [] (omega arith) at_eth9 refl at_eth0
      asks_for_own host_unregistered not_a_hop (unheard 0x0a000009)
      (unheard (ntohl (htonl 0x0a000001)))
