-- ===== src/Worker/Pipeline.antt =====
-- From the routing table to the wire: src/routingTable.cpp numbers the next hops, src/arpTable.cpp
-- fills the current table, src/basicTrie.cpp builds the trie, as src/manager.cpp has them do in
-- `initNetmap` and `startWorkerThreads`, and src/worker.cpp forwards a packet with all of them.
use ariadne.Base.{
  ℕ, ◌≤◌, ◌<◌, ◌≡◌, ◌≢◌, inl, inr, refl, sym, ◌∙◌, arith, ne→==, List, [], ◌∷◌, some,
  get_elem?-eq-get_or, All, All-get, true,
}
use ariadne.Util.{ntohl, uint16_t_max}
use ariadne.Interface.{Interface}
use ariadne.AddressMap.{find}
use ariadne.Frame.{Frame, Packet}
use ariadne.RoutingTable.{Route, NhAbstract, RoutingTable, Entries, nh_invalid}
use ariadne.RoutingTable.NextHops.{build_next_hop_list}
use ariadne.RoutingTable.Gateways.{HasGateways, build_next_hop_list-HasGateways}
use ariadne.RoutingTable.Indices.{Resolved}
use ariadne.RoutingTable.Runs.{HasPort, HasIndex, num_routes}
use ariadne.RoutingTable.Total.{build_next_hop_list_total}
use ariadne.ArpTable.{ArpTable, NextHop, create_current_table}
use ariadne.ArpTable.Current.{create_current_table-Entered}
use ariadne.BasicTrie.{Trie, build_trie}
use ariadne.BasicTrie
use ariadne.Lpm.Longest.{
  IsRoutable, Matches, In, here, there, NoMatch, level, IsLongest, routed, unrouted,
}
use ariadne.Lpm.Indexed.{IsTable, indexed-IsRoutable}
use ariadne.Lpm.Routing.{trie-IsLongest}
use ariadne.Worker.{
  Tables, Outcome-cases, Processed, Outcome, ok, stop, no_route, process_frame, route_packet,
  next_hop, send_to,
}
use ariadne.Worker.Route.{IsTransit, Leaves, transit_step, send_to-Leaves, process_frame_unrouted}
use ariadne.Worker.Hops.{Meant, IsCurrent, next_hop-Meant, numbered-IsPlaced}
use ariadne.Checksum.Forward.{forward}

-- What becomes of a packet for `d_ip`: without a matching route the program ends; else the packet
-- is forwarded to the next hop that a longest matching route means.
pub data Verdict (tbl : Entries) (arp : ArpTable) (d_ip : ℕ) (i : Interface) (f : Frame)
    (p : Packet) (o : Outcome Processed) : Type 0 where
  ends :
      ((k : ℕ) → k ≤ 32 → NoMatch k d_ip (level tbl k))
      → o ≡ stop no_route
      → Verdict tbl arp d_ip i f p o
  forwards :
      (len : ℕ) (r : Route) (nh : NextHop) (out : Processed)
      → len ≤ 32
      → In r (level tbl len)
      → Matches len d_ip r
      → ((k : ℕ) → len < k → k ≤ 32 → NoMatch k d_ip (level tbl k))
      → Meant tbl arp d_ip r nh
      → o ≡ ok out
      → out.enqueued ≡ true
      → Leaves i nh f p out
      → Verdict tbl arp d_ip i f p o

All-In : (P : Route → Type 0) (rs : List Route) (r : Route) → All P rs → In r rs → P r
All-In P [] r h i = elim i [ ]
All-In P (q ∷ rs) r h here = h.0
All-In P (q ∷ rs) r h (there i) = All-In P rs r h.1 i

-- A next hop with an interface number is sent to.
send_to_runs :
    (i : Interface) (nh : NextHop) (f : Frame) (q : Packet)
    → nh.netmap_interface ≢ uint16_t_max
    → (out : Processed) × (send_to i nh f q ≡ ok out)
unfolding send_to
send_to_runs i nh f q n = elim (Outcome-cases (send_to i nh f q)) [
  | inl (out, e) ↦ (out, e)
  | inr (why, e) ↦ absurd (ground arith)
]

pub route_packet_runs :
    (shifted_out : ℕ → ℕ) (t : Tables) (i : Interface) (f : Frame) (p : Packet) (nh : NextHop)
    (index : ℕ)
    → BasicTrie.route shifted_out t.lpm (ntohl p.ipv4.d_ip) ≡ index
    → index ≢ nh_invalid
    → next_hop t index (ntohl p.ipv4.d_ip) ≡ ok nh
    → route_packet shifted_out t i f p ≡ send_to i nh f (record p { ipv4 = forward p.ipv4 })
unfolding route_packet
route_packet_runs shifted_out t i f p nh index e n hop =
    rw (e, route_packet) (rw (ne→== index nh_invalid n, hop) refl)

module _ (shifted_out : ℕ → ℕ) (arp : ArpTable) (entries : Entries) (m : List NhAbstract)
    (t : Tables) (built : build_trie shifted_out entries ≡ some t.lpm)
    (routable : IsRoutable entries) (current : IsCurrent arp m t)
    (ports : All (All (HasIndex arp.interfaces)) entries) (gates : HasGateways entries m)
    (resolved : All (All (Resolved arp.interfaces m)) entries) (f : Frame) (p : Packet)
    (i : Interface) (transit : IsTransit t.interfaces f p i) where
  abbrev destination : ℕ
  destination = ntohl p.ipv4.d_ip

  decided :
      (v : ℕ)
      → BasicTrie.route shifted_out t.lpm destination ≡ v
      → IsLongest entries destination 32 v
      → Verdict entries arp destination i f p (process_frame shifted_out t f p)
  decided v e (unrouted z none_at) =
      ends none_at
        (process_frame_unrouted shifted_out entries routable t built f p i transit none_at)
  decided v e (routed len r small at_len m' index n longer) =
      let rs = level entries len in
      let at_level = get_elem?-eq-get_or entries len [] (omega (arith, routable.levels)) in
      let (has_port, _) =
        All-In (HasIndex arp.interfaces) rs r
          (All-get (All (HasIndex arp.interfaces)) entries len rs ports at_level) at_len in
      let res =
        All-In (Resolved arp.interfaces m) rs r
          (All-get (All (Resolved arp.interfaces m)) entries len rs resolved at_level) at_len in
      let (nh, hop, meant, some_port) =
        next_hop-Meant entries arp m t r destination current gates has_port res in
      let (out, sent) = send_to_runs i nh f (record p { ipv4 = forward p.ipv4 }) some_port in
      let (queued, leaves) = send_to-Leaves i nh f p out sent in
      let run =
        transit_step shifted_out t f p i transit
        ∙ route_packet_runs shifted_out t i f p nh r.index (e ∙ sym index) (λ q. n (sym index ∙ q))
            hop
        ∙ sent in
      forwards len r nh out small at_len m' longer meant run queued leaves

-- The manager's tables for the workers.
abbrev pub worker_tables : Trie → ArpTable → Tables
worker_tables u arp = record {
  lpm = u;
  next_hops = arp.next_hops;
  directly_connected = arp.directly_connected;
  interfaces = arp.interfaces;
}

-- Let a fresh routing table have its 33 levels of prefixes, at most 0x8000 routes, and for each
-- route an interface that netmap has numbered below 0x7fff, and let no directly connected host be
-- entered with the interface number 0xffff. Then the next hops are numbered, the current ARP
-- table is filled and the trie is built, and a worker that has these tables hands every transit
-- packet that some route matches to the egress queue, for the next hop that a longest matching route
-- means: with the MAC address that ARP knows for the route's next hop or, for a connected route, for
-- the destination, or else with a mark for an ARP request; through the interface of the first route
-- in the table with that next hop, or, for a connected route, through the port that ARP knows or the
-- route's own interface. A packet that no route matches ends the program.
pub pipeline :
    (shifted_out : ℕ → ℕ) (rt : RoutingTable) (arp : ArpTable) (f : Frame) (p : Packet)
    (i : Interface)
    → rt.next_hop_mapping ≡ []
    → IsTable rt.entries
    → All (All (HasPort arp.interfaces)) rt.entries
    → num_routes rt.entries ≤ 0x8000
    → ((ip : ℕ) (nh : NextHop)
        → find arp.directly_connected ip ≡ some nh
        → nh.netmap_interface ≢ uint16_t_max)
    → IsTransit arp.interfaces f p i
    → (rt' : RoutingTable) × (arp' : ArpTable) × (u : Trie) × (build_next_hop_list arp.interfaces rt
        ≡ some rt')
      × (create_current_table rt'.next_hop_mapping arp ≡ some arp')
      × (build_trie shifted_out rt'.entries ≡ some u)
      × Verdict rt'.entries arp
          (ntohl p.ipv4.d_ip)
          i
          f
          p
          (process_frame shifted_out (worker_tables u arp') f p)
pipeline shifted_out rt arp f p i fresh table ports few hosts transit =
    let heap = arp.interfaces in
    let (rt', run, indexed, sets, hop_ports, fewer, size) =
      build_next_hop_list_total heap rt fresh table.levels ports (omega (arith, few)) in
    let m = rt'.next_hop_mapping in
    let placed =
      numbered-IsPlaced heap m 0 (λ j nh e. omega (arith, indexed.positions j nh e)) hop_ports in
    let (hops, filled, _, entered) = create_current_table-Entered m arp placed in
    let routable = indexed-IsRoutable heap rt rt' table indexed sets size in
    let d_ip = ntohl p.ipv4.d_ip in
    let (u, built, longest) = trie-IsLongest rt'.entries routable d_ip (omega arith) shifted_out in
    let arp' = record arp { next_hop_mapping = m; next_hops = hops } in
    let current : IsCurrent arp m (worker_tables u arp') = record {
      entered = entered;
      live = refl;
      few = omega (arith, fewer, few);
      ports = hop_ports;
      hosts = hosts;
    } in
    (
      rt',
      arp',
      u,
      run,
      filled,
      built,
      decided shifted_out arp rt'.entries m (worker_tables u arp') built routable current sets
          (build_next_hop_list-HasGateways heap rt rt' fresh run) indexed.resolved f p i transit
          (BasicTrie.route shifted_out u d_ip) refl longest,
    )
