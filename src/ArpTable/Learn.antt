-- ===== src/ArpTable/Learn.antt =====
-- `handleReply` and `handleRequest` of src/arpTable.cpp: what is learnt from a frame, and what is
-- answered.
use ariadne.Base.{
  ℕ, ◌≡◌, ◌≢◌, arith, ◌==◌, if◌then◌else◌, some, none, true, false, get_elem?, set,
  get_elem?-set_self, get_elem?-set_ne, get_elem?-lt, ◌⊎◌, inl, inr, Bool-cases, Option-cases,
}
use ariadne.Util.{htons, ntohs, ntohl}
use ariadne.Interface.{Interface, find_by_netmap, has_ip}
use ariadne.RoutingTable.{NhAbstract}
use ariadne.Headers.{op_request, op_reply}
use ariadne.AddressMap.{find, insert, kept, find-insert}
use ariadne.Frame.{Frame, Packet, port, iface_discard}
use ariadne.ArpTable.{
  ArpTable, NextHop, find_registered, set_mac, learn, handle_reply, handle_request, handle_frame,
  reply_to,
}

abbrev pub IsArp : Packet → ℕ → Type 0
IsArp p op = (p.ether.ethertype ≡ htons 0x0806) × (ntohs p.arp.op ≡ op)

abbrev pub sender : Packet → ℕ
sender p = ntohl p.arp.s_proto_addr

abbrev pub heard : Frame × Packet → NextHop
heard (f, p) = record { mac = p.arp.s_hw_addr; netmap_interface = port f }

-- The table after an unregistered sender was heard.
abbrev pub add_connected : ArpTable → Frame × Packet → ArpTable
add_connected t (f, p) = record t {
  directly_connected = insert (sender p) (heard (f, p)) t.directly_connected;
}

-- The table after the next hop with index `k` and entry `h` was heard.
abbrev pub add_hop : ArpTable → Frame × Packet → ℕ → NextHop → ArpTable
add_hop t (f, p) k h = record t {
  mapping = insert (sender p) (heard (f, p)) t.mapping;
  next_hops = set t.next_hops k (record h { mac = p.arp.s_hw_addr });
}

module _ (t : ArpTable) (f : Frame) (p : Packet) where
  -- The reply's addresses are entered among the directly connected hosts, unless the address is
  -- known, and no other entry, no next hop and no bit of the frame changes.
  abbrev pub HeardConnected : Type 0
  HeardConnected =
      (handle_frame t (f, p) ≡ some (add_connected t (f, p), (f, p)))
      × ((ip : ℕ)
          → find (add_connected t (f, p)).directly_connected ip ≡ (
              if ip == sender p
              then some (kept (find t.directly_connected (sender p)) (heard (f, p)))
              else find t.directly_connected ip))

  -- The reply sets the MAC address of the next hop's entry in the current table, and of no other
  -- entry; the mapping behind it takes the address unless it has one.
  abbrev pub HeardHop : NhAbstract → NextHop → Type 0
  HeardHop r h =
      (handle_frame t (f, p) ≡ some (add_hop t (f, p) r.index h, (f, p)))
      × (get_elem? (add_hop t (f, p) r.index h).next_hops r.index
          ≡ some (record h { mac = p.arp.s_hw_addr }))
      × ((j : ℕ)
          → r.index ≢ j
          → get_elem? (add_hop t (f, p) r.index h).next_hops j ≡ get_elem? t.next_hops j)
      × (find (add_hop t (f, p) r.index h).mapping (sender p)
          ≡ some (kept (find t.mapping (sender p)) (heard (f, p))))

  pub handle_reply_connected :
      IsArp p op_reply
      → find_registered t.interfaces t.next_hop_mapping (sender p) (port f) ≡ some none
      → HeardConnected
  unfolding handle_frame handle_reply learn
  handle_reply_connected (e, o) r =
      (ground (arith, e, o, r), λ ip. find-insert (sender p) ip (heard (f, p)) t.directly_connected)

  pub handle_reply_registered :
      (r : NhAbstract) (h : NextHop)
      → IsArp p op_reply
      → find_registered t.interfaces t.next_hop_mapping (sender p) (port f) ≡ some (some r)
      → get_elem? t.next_hops r.index ≡ some h
      → HeardHop r h
  unfolding handle_frame handle_reply learn set_mac
  handle_reply_registered r h (e, o) reg at_index = (
    ground (arith, e, o, reg, at_index),
    get_elem?-set_self t.next_hops r.index _ (get_elem?-lt t.next_hops r.index h at_index),
    (λ j n. get_elem?-set_ne t.next_hops r.index j _ n),
    ground (arith, find-insert (sender p) (sender p) (heard (f, p)) t.mapping),
  )

  -- What can become of an ARP reply: from a host that is no next hop on this port, its addresses are
  -- entered among the directly connected hosts, unless the address is known, and no other entry
  -- changes; from a registered next hop with an entry in the current table, the MAC address of that
  -- entry is set and that of no other, and the mapping takes the address unless it has one; else the
  -- search follows a null pointer, or the next hop's index is beyond the current table, and only then
  -- the code faults.
  pub handle_reply_branches :
      IsArp p op_reply
      → ((find_registered t.interfaces t.next_hop_mapping (sender p) (port f) ≡ some none)
          × HeardConnected)
        ⊎ ((r : NhAbstract) × (h : NextHop) × (find_registered t.interfaces t.next_hop_mapping
                (sender p)
                (port f)
              ≡ some (some r))
            × (get_elem? t.next_hops r.index ≡ some h)
            × HeardHop r h)
        ⊎ ((find_registered t.interfaces t.next_hop_mapping (sender p) (port f) ≡ none)
            × (handle_frame t (f, p) ≡ none))
        ⊎ ((r : NhAbstract) × (find_registered t.interfaces t.next_hop_mapping (sender p) (port f)
              ≡ some (some r))
            × (get_elem? t.next_hops r.index ≡ none)
            × (handle_frame t (f, p) ≡ none))
  unfolding handle_frame handle_reply learn set_mac
  handle_reply_branches (e, o) =
      elim (Option-cases (find_registered t.interfaces t.next_hop_mapping (sender p) (port f))) [
        | inl fault ↦ inr (inr (inl (fault, ground (arith, e, o, fault))))
        | inr (none, reg) ↦ inl (reg, handle_reply_connected (e, o) reg)
        | inr (some r, reg) ↦ elim (Option-cases (get_elem? t.next_hops r.index)) [
          | inl beyond ↦ inr (inr (inr (r, reg, beyond, ground (arith, e, o, reg, beyond))))
          | inr (h, at_index) ↦
              inr (inl (r, h, reg, at_index, handle_reply_registered r h (e, o) reg at_index))
        ]
      ]

  -- A request for an address of the interface that it came in on, by a host that is no next hop,
  -- is answered in its own buffer, and its sender is learnt.
  pub handle_request_answered :
      (i : Interface)
      → IsArp p op_request
      → find_by_netmap t.interfaces (port f) ≡ some i
      → has_ip (ntohl p.arp.t_proto_addr) i.ips ≡ true
      → find_registered t.interfaces t.next_hop_mapping (sender p) (port f) ≡ some none
      → handle_frame t (f, p) ≡ some (add_connected t (f, p), (f, reply_to i p))
  unfolding handle_frame handle_request learn
  handle_request_answered i (e, o) at_port own reg = ground (arith, e, o, at_port, own, reg)

  -- The same request by a registered next hop is not answered: it is learnt from, and the frame
  -- leaves the function as the request that it was.
  pub handle_request_unanswered :
      (i : Interface) (r : NhAbstract) (h : NextHop)
      → IsArp p op_request
      → find_by_netmap t.interfaces (port f) ≡ some i
      → has_ip (ntohl p.arp.t_proto_addr) i.ips ≡ true
      → find_registered t.interfaces t.next_hop_mapping (sender p) (port f) ≡ some (some r)
      → get_elem? t.next_hops r.index ≡ some h
      → handle_frame t (f, p) ≡ some (add_hop t (f, p) r.index h, (f, p))
  unfolding handle_frame handle_request learn set_mac
  handle_request_unanswered i r h (e, o) at_port own reg at_index =
      ground (arith, e, o, at_port, own, reg, at_index)

  -- A request for any other address changes nothing but the frame's interface: it is discarded.
  pub handle_request_foreign :
      (i : Interface)
      → IsArp p op_request
      → find_by_netmap t.interfaces (port f) ≡ some i
      → has_ip (ntohl p.arp.t_proto_addr) i.ips ≡ false
      → handle_frame t (f, p) ≡ some (t, (record f { iface = iface_discard }, p))
  unfolding handle_frame handle_request
  handle_request_foreign i (e, o) at_port own = ground (arith, e, o, at_port, own)

  -- What can become of a request that came in on the port of interface `i`: for an address that
  -- is not the interface's, the frame is discarded and nothing is learnt; from a host that is no
  -- next hop, it is answered in its own buffer, and the sender is entered; from a next hop with an
  -- entry in the current table, that entry is set, but the frame stays the request that it was; else
  -- the search for the sender follows a null pointer, or the next hop's index is beyond the current
  -- table, and only then the code faults.
  pub handle_request_branches :
      (i : Interface)
      → IsArp p op_request
      → find_by_netmap t.interfaces (port f) ≡ some i
      → ((has_ip (ntohl p.arp.t_proto_addr) i.ips ≡ false)
          × (handle_frame t (f, p) ≡ some (t, (record f { iface = iface_discard }, p))))
        ⊎ ((has_ip (ntohl p.arp.t_proto_addr) i.ips ≡ true)
            × (find_registered t.interfaces t.next_hop_mapping (sender p) (port f) ≡ some none)
            × (handle_frame t (f, p) ≡ some (add_connected t (f, p), (f, reply_to i p))))
        ⊎ ((has_ip (ntohl p.arp.t_proto_addr) i.ips ≡ true)
            × ((r : NhAbstract) × (h : NextHop) × (find_registered t.interfaces t.next_hop_mapping
                    (sender p)
                    (port f)
                  ≡ some (some r))
                × (get_elem? t.next_hops r.index ≡ some h)
                × (handle_frame t (f, p) ≡ some (add_hop t (f, p) r.index h, (f, p)))))
        ⊎ ((has_ip (ntohl p.arp.t_proto_addr) i.ips ≡ true)
            × (find_registered t.interfaces t.next_hop_mapping (sender p) (port f) ≡ none)
            × (handle_frame t (f, p) ≡ none))
        ⊎ ((has_ip (ntohl p.arp.t_proto_addr) i.ips ≡ true)
            × ((r : NhAbstract) × (find_registered t.interfaces t.next_hop_mapping
                    (sender p)
                    (port f)
                  ≡ some (some r))
                × (get_elem? t.next_hops r.index ≡ none)
                × (handle_frame t (f, p) ≡ none)))
  unfolding handle_frame handle_request learn set_mac
  handle_request_branches i (e, o) at_port =
      elim (Bool-cases (has_ip (ntohl p.arp.t_proto_addr) i.ips)) [
        | inr foreign ↦ inl (foreign, handle_request_foreign i (e, o) at_port foreign)
        | inl own ↦
            elim (Option-cases
              (find_registered t.interfaces t.next_hop_mapping (sender p) (port f))) [
                | inl fault ↦
                    inr (inr (inr (inl (own, fault, ground (arith, e, o, at_port, own, fault)))))
                | inr (none, reg) ↦
                    inr (inl (own, reg, handle_request_answered i (e, o) at_port own reg))
                | inr (some r, reg) ↦ elim (Option-cases (get_elem? t.next_hops r.index)) [
                  | inl beyond ↦ inr (
                      inr (
                        inr (
                          inr (
                            own,
                            (r, reg, beyond, ground (arith, e, o, at_port, own, reg, beyond)),
                          ))))
                  | inr (h, at_index) ↦ inr (
                      inr (
                        inl (
                          own,
                          (
                            r,
                            h,
                            reg,
                            at_index,
                            handle_request_unanswered i r h (e, o) at_port own reg at_index,
                          ),
                        )))
                ]
              ]
      ]
