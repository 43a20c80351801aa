-- ===== src/Worker/Route.antt =====
-- The forwarding decision of src/worker.cpp, `Worker::process`, over the trie that
-- src/basicTrie.cpp builds from a routable table.
use ariadne.Base.{
  ℕ, ◌^◌, ◌≤◌, ◌<◌, ◌≡◌, ◌≢◌, ◌⊎◌, inl, inr, sym, ◌∙◌, subst, arith, ◌==◌, bit_or, Bool-cases, some,
  true, false, eq→==,
}
use ariadne.Util.{htons, ntohl, uint16_t_max}
use ariadne.Interface.{Heap, Interface, find_by_netmap, has_ip}
use ariadne.RoutingTable.{Entries, nh_invalid}
use ariadne.Frame.{Frame, Packet, port, iface_nomac}
use ariadne.Checksum.Forward.{forward}
use ariadne.ArpTable.{NextHop, is_valid_next_hop}
use ariadne.BasicTrie
use ariadne.BasicTrie.{Trie, build_trie}
use ariadne.Lpm.Longest.{IsLongest, IsLongest-unrouted, IsRoutable, NoMatch, level}
use ariadne.Lpm.Routing.{trie-IsLongest}
use ariadne.Worker.{
  Outcome-cases, Tables, Processed, ok, stop, no_route, process_frame, route_packet, next_hop,
  send_to, ipv4_hdr_verification,
}

-- The frame holds an IPv4 packet with a valid header, came in on interface `i`, and its
-- destination address, as loaded, is none of the interface's.
pub record IsTransit (interfaces : Heap) (f : Frame) (p : Packet) (i : Interface) : Type 0 where
  pub at_port : find_by_netmap interfaces (port f) ≡ some i
  pub is_ipv4 : p.ether.ethertype ≡ htons 0x0800
  pub verified : ipv4_hdr_verification p.ipv4 f.len ≡ true
  pub foreign : has_ip p.ipv4.d_ip i.ips ≡ false

-- How a frame leaves for the next hop `nh`: to its MAC address, or, if that is unknown, marked
-- for an ARP request on its interface.
abbrev pub Leaves : Interface → NextHop → Frame → Packet → Processed → Type 0
Leaves i nh f p r =
    ((is_valid_next_hop nh ≡ true)
      × (r.frame ≡ record f { iface = nh.netmap_interface })
      × (r.packet ≡ record p {
        ether = record (p.ether) { d_mac = nh.mac; s_mac = i.mac };
        ipv4 = forward p.ipv4;
      }))
    ⊎ ((is_valid_next_hop nh ≡ false)
        × (nh.netmap_interface ≢ uint16_t_max)
        × (r.frame ≡ record f { iface = bit_or nh.netmap_interface iface_nomac })
        × (r.packet ≡ record p { ipv4 = forward p.ipv4 }))

pub transit_step :
    (shifted_out : ℕ → ℕ) (t : Tables) (f : Frame) (p : Packet) (i : Interface)
    → IsTransit t.interfaces f p i
    → process_frame shifted_out t f p ≡ route_packet shifted_out t i f p
unfolding process_frame
transit_step shifted_out t f p i v = ground (arith, v.at_port, v.is_ipv4, v.verified, v.foreign)

pub send_to-Leaves :
    (i : Interface) (nh : NextHop) (f : Frame) (p : Packet) (r : Processed)
    → send_to i nh f (record p { ipv4 = forward p.ipv4 }) ≡ ok r
    → (r.enqueued ≡ true) × Leaves i nh f p r
unfolding send_to
send_to-Leaves i nh f p r h = elim (Bool-cases (is_valid_next_hop nh)) [
  | inl e ↦ (ground arith, inl (e, ground arith, ground arith))
  | inr e ↦ elim (Bool-cases (nh.netmap_interface == uint16_t_max)) [
    | inl m ↦ absurd (ground arith)
    | inr m ↦ (ground arith, inr (e, (λ z. ground arith), ground arith, ground arith))
  ]
]

ntohl_lt : (n : ℕ) → ntohl n < 2 ^ 32
ntohl_lt n = omega arith

module _ (shifted_out : ℕ → ℕ) (tbl : Entries) (routable : IsRoutable tbl) (t : Tables)
    (built : build_trie shifted_out tbl ≡ some t.lpm) (f : Frame) (p : Packet) (i : Interface)
    (transit : IsTransit t.interfaces f p i) where
  abbrev d_ip : ℕ
  d_ip = ntohl p.ipv4.d_ip

  pub index-IsLongest : IsLongest tbl d_ip 32 (BasicTrie.route shifted_out t.lpm d_ip)
  index-IsLongest =
      let (u, e, l) = trie-IsLongest tbl routable d_ip (ntohl_lt p.ipv4.d_ip) shifted_out in
      let same : u ≡ t.lpm = ground (arith, e, built) in
      subst (λ x. IsLongest tbl d_ip 32 (BasicTrie.route shifted_out x d_ip)) same l

  -- A transit packet that is processed goes to the egress queue with its header forwarded, and
  -- leaves for the next hop that the longest matching prefix names.
  pub process_frame_routed :
      (r : Processed)
      → process_frame shifted_out t f p ≡ ok r
      → (index : ℕ) × (nh : NextHop) × IsLongest tbl d_ip 32 index
        × (index ≢ nh_invalid)
        × (next_hop t index d_ip ≡ ok nh)
        × (r.enqueued ≡ true)
        × Leaves i nh f p r
  unfolding route_packet
  process_frame_routed r h =
      let index = BasicTrie.route shifted_out t.lpm d_ip in
      let h' = sym (transit_step shifted_out t f p i transit) ∙ h in
      elim (Bool-cases (index == nh_invalid)) [
        | inl e ↦ absurd (ground arith)
        | inr n ↦ elim (Outcome-cases (next_hop t index d_ip)) [
          | inr (why, e) ↦ absurd (ground arith)
          | inl (nh, e) ↦
              let sent = send_to-Leaves i nh f p r (ground arith) in
              (index, nh, index-IsLongest, (λ z. ground arith), e, sent.0, sent.1)
        ]
      ]

  -- A transit packet whose destination no route matches ends the program.
  pub process_frame_unrouted :
      ((k : ℕ) → k ≤ 32 → NoMatch k d_ip (level tbl k))
      → process_frame shifted_out t f p ≡ stop no_route
  unfolding route_packet
  process_frame_unrouted none_at =
      let none_found = IsLongest-unrouted tbl d_ip 32 _ none_at index-IsLongest in
      transit_step shifted_out t f p i transit ∙ rw (eq→== _ _ none_found)
