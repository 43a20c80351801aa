-- ===== src/ArpTable/Exchange.antt =====
-- A whole ARP exchange between two routers of src/arpTable.cpp: the request that one prepares,
-- the reply that the other makes of it, and what the first learns.
use ariadne.Base.{ℕ, ◌≡◌, refl, arith, List, ◌∷◌, some, none, true, ◌^◌, ◌<◌}
use ariadne.Util.{htons, htonl, ntohl, swap_twice}
use ariadne.ArpTable.Learn.{
  sender, heard, add_connected, handle_reply_connected, handle_request_answered,
}
use ariadne.Interface.{invalid_mac, Interface, find_by_netmap, has_ip}
use ariadne.Headers.{op_request}
use ariadne.AddressMap.{find, find-insert}
use ariadne.Frame.{Frame, Packet, port}
use ariadne.ArpTable.{ArpTable, find_registered, prepare_request, handle_frame, reply_to, broadcast}

-- The packet that `prepareRequest` writes, for an interface with `own` as its first address.
abbrev pub asked : Interface → ℕ → ℕ → Packet → Packet
asked i own ip p = record p {
  ether = record { d_mac = broadcast; s_mac = i.mac; ethertype = htons 0x0806 };
  arp = record {
    hw_type = htons 1;
    proto_type = htons 0x0800;
    hw_len = 6;
    proto_len = 4;
    op = htons op_request;
    s_hw_addr = i.mac;
    s_proto_addr = htonl own;
    t_hw_addr = invalid_mac;
    t_proto_addr = ip;
  };
}

-- `asker` asks for `ip` (in network order) out of interface `out`, with that interface's first
-- address; `owner` has `ip` on the interface where the frame `g` comes in; the reply comes back as
-- the frame `back`. Neither side has the other's address among its directly connected hosts, nor as a
-- next hop registered on the port where the frame comes in. Then the request is prepared and
-- answered, the owner enters the asker's MAC address and the asker that of the owner's interface,
-- each with the port where the frame came in.
pub exchange :
    (asker owner : ArpTable) (ip out : ℕ) (f g back : Frame) (p : Packet) (mine theirs : Interface)
    (own : ℕ) (more : List ℕ)
    → own < 2 ^ 32
    → find_by_netmap asker.interfaces out ≡ some mine
    → mine.ips ≡ own ∷ more
    → find_by_netmap owner.interfaces (port g) ≡ some theirs
    → has_ip (ntohl ip) theirs.ips ≡ true
    → find_registered owner.interfaces owner.next_hop_mapping own (port g) ≡ some none
    → find_registered asker.interfaces asker.next_hop_mapping (ntohl ip) (port back) ≡ some none
    → find owner.directly_connected own ≡ none
    → find asker.directly_connected (ntohl ip) ≡ none
    → let q = asked mine own ip p in
      let r = reply_to theirs q in
      let owner' = add_connected owner (g, q) in
      let asker' = add_connected asker (back, r) in
      (prepare_request asker ip out (f, p) ≡ some (record f { len = 42 }, q))
      × (handle_frame owner (g, q) ≡ some (owner', (g, r)))
      × (find owner'.directly_connected own
          ≡ some (record { mac = mine.mac; netmap_interface = port g }))
      × (handle_frame asker (back, r) ≡ some (asker', (back, r)))
      × (find asker'.directly_connected (ntohl ip)
          ≡ some (record { mac = theirs.mac; netmap_interface = port back }))
unfolding prepare_request
exchange asker owner ip out f g back p mine theirs own more small a b c d e h i j =
    let q = asked mine own ip p in
    let r = reply_to theirs q in
    let from : sender q ≡ own = swap_twice own small in
    let reg : find_registered owner.interfaces owner.next_hop_mapping (sender q) (port g)
        ≡ some none =
      rw from e in
    let (answer, learnt) = handle_reply_connected asker back r (refl, refl) h in
    (
      ground (arith, a, b),
      handle_request_answered owner g q theirs (refl, refl) c d reg,
      ground (arith, from, i, find-insert (sender q) own (heard (g, q)) owner.directly_connected),
      answer,
      ground (arith, learnt (ntohl ip), j),
    )
