-- ===== src/ArpTable.antt =====
-- include/arpTable.hpp and src/arpTable.cpp: the mapping from IPv4 addresses to MAC addresses.
-- `none` stands for a call of `abort` or `fatal`, for a read through a null pointer and for an
-- access beyond the end of a vector.
pub mod Current
pub mod Learn
pub mod Exchange
use ariadne.Base.{
  ℕ, zero, suc, ◌==◌, ◌&&◌, if◌then◌else◌, bit_and, not, List, [], ◌∷◌, Option, some, none,
  get_elem?, set, length, replicate, ltb, ◌>>=◌, Bool, true, false, ◌+◌,
}
use ariadne.Util.{u16, htons, ntohs, htonl, ntohl, uint16_t_max}
use ariadne.Interface.{Heap, Interface, Mac, mac_eq, invalid_mac, deref, find_by_netmap, has_ip}
use ariadne.RoutingTable.{NhAbstract}
use ariadne.Headers.{Ether, Arp, op_request, op_reply, size_of_ether, size_of_arp}
use ariadne.Frame.{Frame, Packet, port, iface_discard}
use ariadne.AddressMap.{AddressMap, find, insert}

pub record NextHop : Type 0 where
  pub mac : Mac
  pub netmap_interface : ℕ

-- The member initialisers.
abbrev pub new_next_hop : NextHop
new_next_hop = record { mac = invalid_mac; netmap_interface = uint16_t_max }

-- `operator bool`.
unfoldable pub is_valid_next_hop : NextHop → Bool
is_valid_next_hop nh =
    if mac_eq nh.mac invalid_mac
    then false
    else (if nh.netmap_interface == uint16_t_max then false else true)

-- The private members. `next_hops` is the vector of `currentTable`, whose member
-- `directlyConnected` is a reference to the map here; `next_hop_mapping` is the vector of the
-- current routing table; `interfaces` also is what the pointers of the next hops point into.
pub record ArpTable : Type 0 where
  pub next_hop_mapping : List NhAbstract
  pub next_hops : List NextHop
  pub directly_connected : AddressMap NextHop
  pub mapping : AddressMap NextHop
  pub interfaces : Heap

-- `newTable->nextHops[nh.index]` with the interface, and the MAC address if it is known.
abbrev pub hop_entry : ArpTable → NhAbstract → Interface → NextHop
hop_entry t nh i = record {
  mac = elim (find t.mapping nh.nh_ip) [ none ↦ invalid_mac | some known ↦ known.mac ];
  netmap_interface = u16 i.netmap_index;
}

-- The loop of `createCurrentTable`.
unfoldable pub fill_table : ArpTable → List NhAbstract → List NextHop → Option (List NextHop)
fill_table t [] hops = some hops
fill_table t (nh ∷ rest) hops = elim (deref t.interfaces nh.interface) [
  | none ↦ none
  | some i ↦
      let next = fill_table t rest (set hops nh.index (hop_entry t nh i)) in
      if i.netmap_index == uint16_t_max
      then none
      else (if ltb nh.index (length hops) then next else none)
]

-- `createCurrentTable`, given the next hop mapping of the routing table.
unfoldable pub create_current_table : List NhAbstract → ArpTable → Option ArpTable
unfolding fill_table
create_current_table m t = elim (fill_table t m (replicate (length m) new_next_hop)) [
  | none ↦ none
  | some hops ↦ some (record t { next_hop_mapping = m; next_hops = hops })
]

abbrev pub broadcast : Mac
broadcast = 0xff ∷ 0xff ∷ 0xff ∷ 0xff ∷ 0xff ∷ 0xff ∷ []

-- `prepareRequest`: `ip` is in network order.
unfoldable pub prepare_request : ArpTable → ℕ → ℕ → Frame × Packet → Option (Frame × Packet)
prepare_request t ip iface (f, p) = elim (find_by_netmap t.interfaces iface) [
  | none ↦ none
  | some i ↦ elim i.ips [
    | [] ↦ none
    | own ∷ _ ↦ some (
      record f { len = size_of_ether + size_of_arp },
      record p {
        ether = record { d_mac = broadcast; s_mac = i.mac; ethertype = htons 0x0806 };
        arp = record {
          hw_type = htons 1;
          proto_type = htons 0x0800;
          hw_len = 6;
          proto_len = 4;
          op = htons op_request;
          s_hw_addr = i.mac;
          s_proto_addr = htonl own;
          t_hw_addr = invalid_mac;
          t_proto_addr = ip;
        };
      },
    )
  ]
]

-- `for(auto& nh : *next_hop_addresses) if(nh.nh_ip == ip && nh.interface->netmapIndex == …)`;
-- the outer `none` is a null interface.
unfoldable pub find_registered : Heap → List NhAbstract → ℕ → ℕ → Option (Option NhAbstract)
find_registered heap [] ip iface = some none
find_registered heap (nh ∷ rest) ip iface =
    let later = find_registered heap rest ip iface in
    if nh.nh_ip == ip
    then (elim (deref heap nh.interface) [
      | none ↦ none
      | some i ↦ if i.netmap_index == iface then some (some nh) else later
    ])
    else later

-- `currentTable->nextHops[index].mac = mac`.
unfoldable pub set_mac : List NextHop → ℕ → Mac → Option (List NextHop)
set_mac hops index mac = elim (get_elem? hops index) [
  | none ↦ none
  | some nh ↦ some (set hops index (record nh { mac = mac }))
]

-- What `handleReply` and `handleRequest` do with the sender of a frame; the flag tells whether
-- it is a registered next hop.
unfoldable pub learn : ArpTable → ℕ → Mac → ℕ → Option (ArpTable × Bool)
unfolding find_registered set_mac
learn t ip mac iface =
    let nh : NextHop = record { mac = mac; netmap_interface = iface } in
    elim (find_registered t.interfaces t.next_hop_mapping ip iface) [
      | none ↦ none
      | some none ↦
          some (record t { directly_connected = insert ip nh t.directly_connected }, false)
      | some (some r) ↦ elim (set_mac t.next_hops r.index mac) [
        | none ↦ none
        | some hops ↦ some (record t { mapping = insert ip nh t.mapping; next_hops = hops }, true)
      ]
    ]

unfoldable pub handle_reply : ArpTable → Frame × Packet → Option (ArpTable × (Frame × Packet))
unfolding learn
handle_reply t (f, p) =
    if p.ether.ethertype == htons 0x0806
    then (if ntohs p.arp.op == op_reply
        then (do
          (t', registered) ← learn t (ntohl p.arp.s_proto_addr) p.arp.s_hw_addr (port f)
          some (t', (f, p)))
        else some (t, (f, p)))
    else some (t, (f, p))

-- The request turned into a reply, at the end of `handleRequest`.
abbrev pub reply_to : Interface → Packet → Packet
reply_to i p = record p {
  ether = record { d_mac = broadcast; s_mac = i.mac; ethertype = p.ether.ethertype };
  arp = record (p.arp) {
    op = htons op_reply;
    t_hw_addr = p.arp.s_hw_addr;
    t_proto_addr = p.arp.s_proto_addr;
    s_hw_addr = i.mac;
    s_proto_addr = p.arp.t_proto_addr;
  };
}

unfoldable pub handle_request : ArpTable → Frame × Packet → Option (ArpTable × (Frame × Packet))
unfolding learn
handle_request t (f, p) =
    if p.ether.ethertype == htons 0x0806
    then (if ntohs p.arp.op == op_request
        then (elim (find_by_netmap t.interfaces (port f)) [
          | none ↦ none
          | some i ↦
              if has_ip (ntohl p.arp.t_proto_addr) i.ips
              then (do
                (t', registered) ← learn t (ntohl p.arp.s_proto_addr) p.arp.s_hw_addr (port f)
                some (t', (f, if registered then p else reply_to i p)))
              else some (t, (record f { iface = iface_discard }, p))
        ])
        else some (t, (f, p)))
    else some (t, (f, p))

unfoldable pub handle_frame : ArpTable → Frame × Packet → Option (ArpTable × (Frame × Packet))
unfolding handle_request handle_reply
handle_frame t (f, p) =
    if p.ether.ethertype == htons 0x0806
    then (if ntohs p.arp.op == op_request
        then handle_request t (f, p)
        else (if ntohs p.arp.op == op_reply then handle_reply t (f, p) else some (t, (f, p))))
    else some (t, (f, p))
