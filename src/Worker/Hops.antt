-- ===== src/Worker/Hops.antt =====
-- From a route's index, which src/routingTable.cpp sets, through the current table that
-- src/arpTable.cpp fills, to the next hop that src/worker.cpp, `Worker::process`, sends to.
use ariadne.Base.{
  ℕ, zero, suc, ◌+◌, ◌*◌, ◌/◌, ◌^◌, ◌≤◌, ◌<◌, ◌≡◌, ◌≢◌, ◌⊎◌, inl, inr, refl, sym, ap, ◌∙◌, arith,
  bit_and, bit_xor, bit_and_high, bit_xor_fields, Option-cases, subst, List, [], ◌∷◌, some, none,
  get_elem?, get_elem?-lt, length, All, All-get,
}
use ariadne.Util.{uint16_t_max}
use ariadne.Interface.{Heap, Interface, InterfacePtr, invalid_mac, deref}
use ariadne.AddressMap.{AddressMap, find}
use ariadne.RoutingTable.{Route, NhAbstract, Entries}
use ariadne.RoutingTable.Gateways.{gateway, HasGateways}
use ariadne.RoutingTable.Indices.{Resolved}
use ariadne.RoutingTable.Runs.{HopHasPort, HasPort, connected_index-valid}
use ariadne.ArpTable.{ArpTable, NextHop}
use ariadne.ArpTable.Current.{IsPlaced, Entered, IsEntry, IsKnownMac}
use ariadne.Worker.{Tables, ok, next_hop}

-- A directly connected host: what ARP has learnt of it, or its interface alone.
abbrev pub direct : AddressMap NextHop → ℕ → ℕ → NextHop
direct connected d_ip port = elim (find connected d_ip) [
  | some nh ↦ nh
  | none ↦ record { mac = invalid_mac; netmap_interface = port }
]

-- The interface that a route leads out of: that of the first route through the same next hop address
-- or, for a connected route, its own.
abbrev pub LeadsTo : Entries → Heap → Route → Interface → Type 0
LeadsTo tbl heap r i =
    (p : InterfacePtr) × (deref heap p ≡ some i)
    × (((r.next_hop ≢ 0) × (gateway tbl r.next_hop ≡ some p))
        ⊎ ((r.next_hop ≡ 0) × (p ≡ r.interface)))

-- The next hop that a route means, for the destination `d_ip`: the port of the route's interface with
-- the MAC address that ARP knows for the route's next hop; or, for a connected route, what ARP knows
-- of the destination itself, or the interface alone.
abbrev pub Meant : Entries → ArpTable → ℕ → Route → NextHop → Type 0
Meant tbl arp d_ip r nh =
    (i : Interface) × LeadsTo tbl arp.interfaces r i
    × (((r.next_hop ≢ 0)
          × (nh.netmap_interface ≡ i.netmap_index)
          × IsKnownMac arp.mapping r.next_hop nh.mac)
        ⊎ ((r.next_hop ≡ 0) × (nh ≡ direct arp.directly_connected d_ip i.netmap_index)))

Entered-get :
    (t : ArpTable) (k : ℕ) (m : List NhAbstract) (hops : List NextHop) (i j : ℕ) (hop : NhAbstract)
    → j ≡ k + i
    → Entered t k m hops
    → get_elem? m i ≡ some hop
    → (x : Interface) × (entry : NextHop) × (deref t.interfaces hop.interface ≡ some x)
      × (get_elem? hops j ≡ some entry)
      × IsEntry t hop.nh_ip x entry
Entered-get t k [] hops i j hop q h e = cc
Entered-get t k (nh ∷ m) hops zero j hop q ((x, entry, d, at_k, is), h) e =
    let same : nh ≡ hop = ground arith in
    let here : j ≡ k = omega arith in
    (
      x,
      entry,
      ap (λ y. deref t.interfaces y.interface) (sym same) ∙ d,
      ap (get_elem? hops) here ∙ at_k,
      subst (λ y. IsEntry t y.nh_ip x entry) same is,
    )
Entered-get t k (nh ∷ m) hops (suc i) j hop q (_, h) e =
    Entered-get t (suc k) m hops i j hop (omega arith) h e

-- What the numbering leaves is what the current table needs.
pub numbered-IsPlaced :
    (heap : Heap) (m : List NhAbstract) (k : ℕ)
    → ((i : ℕ) (nh : NhAbstract) → get_elem? m i ≡ some nh → nh.index ≡ k + i)
    → All (HopHasPort heap) m
    → IsPlaced heap k m
numbered-IsPlaced heap [] k pos h = tt
numbered-IsPlaced heap (nh ∷ m) k pos ((i, d, small), h) = (
  omega (arith, pos 0 nh refl),
  (i, d, (λ e. omega arith)),
  numbered-IsPlaced heap m (suc k) (λ j x e. omega (arith, pos (suc j) x e)) h,
)

pub low_index : (k : ℕ) → k < 0x8000 → bit_and k (1 * 2 ^ 15) ≡ 0
low_index k h = let z : k / 2 ^ 15 ≡ 0 = omega arith in bit_and_high 15 k 1 ∙ rw z refl

high_index : (k : ℕ) → k < 0x8000 → bit_and (0x8000 + k) (1 * 2 ^ 15) ≡ 0x8000
high_index k h =
    let one : (0x8000 + k) / 2 ^ 15 ≡ 1 = omega arith in
    bit_and_high 15 (0x8000 + k) 1 ∙ rw one refl

without_flag : (k : ℕ) → k < 0x8000 → bit_xor (0x8000 + k) (1 * 2 ^ 15) ≡ k
without_flag k h = let e = bit_xor_fields 15 1 1 k h in omega (arith, e)

-- The tables that the manager hands to a worker.
pub record IsCurrent (arp : ArpTable) (m : List NhAbstract) (t : Tables) : Type 0 where
  pub entered : Entered arp 0 m t.next_hops
  pub live : t.directly_connected ≡ arp.directly_connected
  pub few : length m ≤ 0x8000
  pub ports : All (HopHasPort arp.interfaces) m
  pub hosts :
      (ip : ℕ) (nh : NextHop)
      → find arp.directly_connected ip ≡ some nh
      → nh.netmap_interface ≢ uint16_t_max

direct-port :
    (connected : AddressMap NextHop) (d_ip k : ℕ)
    → ((ip : ℕ) (nh : NextHop) → find connected ip ≡ some nh → nh.netmap_interface ≢ uint16_t_max)
    → k < 0x7fff
    → (direct connected d_ip k).netmap_interface ≢ uint16_t_max
direct-port connected d_ip k hosts small = elim (Option-cases (find connected d_ip)) [
  | inl e ↦ rw (e, direct) (λ q. omega arith)
  | inr (nh, e) ↦ rw (e, direct) (hosts d_ip nh e)
]

connected_hop :
    (arp : ArpTable) (t : Tables) (index d_ip k : ℕ)
    → t.directly_connected ≡ arp.directly_connected
    → bit_and index (1 * 2 ^ 15) ≡ 0x8000
    → bit_xor index (1 * 2 ^ 15) ≡ k
    → next_hop t index d_ip ≡ ok (direct arp.directly_connected d_ip k)
unfolding next_hop
connected_hop arp t index d_ip k live high id =
    elim (Option-cases (find arp.directly_connected d_ip)) [
      | inl e ↦
          rw (high, live)
            (rw (e, direct) (ap (λ x. ok (record { mac = invalid_mac; netmap_interface = x })) id))
      | inr (nh, e) ↦ rw (high, live) (rw (e, direct) refl)
    ]

pub next_hop-Meant :
    (tbl : Entries) (arp : ArpTable) (m : List NhAbstract) (t : Tables) (r : Route) (d_ip : ℕ)
    → IsCurrent arp m t
    → HasGateways tbl m
    → HasPort arp.interfaces r
    → Resolved arp.interfaces m r
    → (nh : NextHop) × (next_hop t r.index d_ip ≡ ok nh)
      × Meant tbl arp d_ip r nh
      × (nh.netmap_interface ≢ uint16_t_max)
unfolding next_hop
next_hop-Meant tbl arp m t r d_ip c gates (j, at_j, small) (inl (z, (i, at_i, index))) =
    let port : i.netmap_index < 0x7fff = ground (arith, at_i, at_j) in
    let flag : r.index ≡ 0x8000 + i.netmap_index = index ∙ connected_index-valid i port in
    let k = i.netmap_index in
    let high : bit_and r.index (1 * 2 ^ 15) ≡ 0x8000 = rw flag (high_index k (omega arith)) in
    let id : bit_xor r.index (1 * 2 ^ 15) ≡ k = rw flag (without_flag k (omega arith)) in
    let run : next_hop t r.index d_ip ≡ ok (direct arp.directly_connected d_ip k) =
      connected_hop arp t r.index d_ip k c.live high id in
    (
      direct arp.directly_connected d_ip k,
      run,
      (i, (r.interface, at_i, inr (z, refl)), inr (z, refl)),
      direct-port arp.directly_connected d_ip k c.hosts (omega arith),
    )
next_hop-Meant tbl arp m t r d_ip c gates p (inr (n, (hop, at_index, ip, _))) =
    let (x, nh, d, entry, (port, mac)) =
      Entered-get arp 0 m t.next_hops r.index r.index hop (omega arith) c.entered at_index in
    let (y, d', small) = All-get (HopHasPort arp.interfaces) m r.index hop c.ports at_index in
    let low = low_index r.index (omega (arith, c.few, get_elem?-lt m r.index hop at_index)) in
    let few : x.netmap_index < 0x7fff = ground (arith, d, d') in
    let first : gateway tbl r.next_hop ≡ some hop.interface =
      ap (gateway tbl) (sym ip) ∙ gates r.index hop at_index (λ z. n (sym ip ∙ z)) in
    (
      nh,
      rw (low, entry) refl,
      (
        x,
        (hop.interface, d, inl (n, first)),
        inl (n, omega (arith, port, few), subst (λ z. IsKnownMac arp.mapping z nh.mac) ip mac),
      ),
      (λ e. omega (arith, port, few, e)),
    )
