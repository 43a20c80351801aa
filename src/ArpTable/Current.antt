-- ===== src/ArpTable/Current.antt =====
-- `ARPTable::createCurrentTable` of src/arpTable.cpp on the mapping that `buildNextHopList` of
-- src/routingTable.cpp numbers.
use ariadne.Base.{
  ℕ, suc, ◌+◌, ◌≤◌, ◌<◌, ◌≡◌, ◌≢◌, ◌%◌, ◌^◌, ◌⊎◌, inl, inr, Option-cases, none, refl, sym, ap, ◌∙◌,
  arith, List, [], ◌∷◌, some, get_elem?, set, length, replicate, length-set, length-replicate,
  get_elem?-set_self, get_elem?-set_ne,
}
use ariadne.Util.{uint16_t_max}
use ariadne.Interface.{Heap, Interface, Mac, invalid_mac, deref}
use ariadne.AddressMap.{AddressMap, find}
use ariadne.RoutingTable.{NhAbstract}
use ariadne.ArpTable.{ArpTable, NextHop, new_next_hop, hop_entry, fill_table, create_current_table}

-- Each next hop of `m` has its position, counted from `k`, for its index, and an interface that
-- exists and whose netmap index is not 0xffff.
abbrev pub IsPlaced : Heap → ℕ → List NhAbstract → Type 0
IsPlaced heap k [] = Unit
IsPlaced heap k (nh ∷ m) =
    (nh.index ≡ k)
    × ((i : Interface) × (deref heap nh.interface ≡ some i) × (i.netmap_index ≢ uint16_t_max))
    × IsPlaced heap (suc k) m

-- The MAC address that the map knows for an address, or the invalid one.
abbrev pub IsKnownMac : AddressMap NextHop → ℕ → Mac → Type 0
IsKnownMac mapping ip mac =
    ((find mapping ip ≡ none) × (mac ≡ invalid_mac))
    ⊎ ((known : NextHop) × (find mapping ip ≡ some known) × (mac ≡ known.mac))

-- What the entry of a next hop with the address `ip` and the interface `i` is to be.
abbrev pub IsEntry : ArpTable → ℕ → Interface → NextHop → Type 0
IsEntry t ip i entry =
    (entry.netmap_interface ≡ i.netmap_index % 2 ^ 16) × IsKnownMac t.mapping ip entry.mac

-- The entries of `hops` from position `k` on are those of `m`.
abbrev pub Entered : ArpTable → ℕ → List NhAbstract → List NextHop → Type 0
Entered t k [] hops = Unit
Entered t k (nh ∷ m) hops =
    ((i : Interface) × (entry : NextHop) × (deref t.interfaces nh.interface ≡ some i)
      × (get_elem? hops k ≡ some entry)
      × IsEntry t nh.nh_ip i entry)
    × Entered t (suc k) m hops

hop_entry-IsEntry :
    (t : ArpTable) (nh : NhAbstract) (i : Interface) → IsEntry t nh.nh_ip i (hop_entry t nh i)
hop_entry-IsEntry t nh i = (
  refl,
  elim (Option-cases (find t.mapping nh.nh_ip)) [
    | inl e ↦ inl (e, rw (e, hop_entry) refl)
    | inr (known, e) ↦ inr (known, e, rw (e, hop_entry) refl)
  ],
)

fill_table-Entered :
    (t : ArpTable) (m : List NhAbstract) (k : ℕ) (hops : List NextHop)
    → IsPlaced t.interfaces k m
    → k + length m ≤ length hops
    → (out : List NextHop) × (fill_table t m hops ≡ some out)
      × (length out ≡ length hops)
      × ((j : ℕ) → j < k → get_elem? out j ≡ get_elem? hops j)
      × Entered t k m out
unfolding fill_table
fill_table-Entered t [] k hops p fits = (hops, refl, refl, (λ j h. refl), tt)
fill_table-Entered t (nh ∷ m) k hops (e, (i, d, n), p) fits =
    let hops' = set hops nh.index (hop_entry t nh i) in
    let same = length-set hops nh.index (hop_entry t nh i) in
    let (out, run, len, low, rest) = fill_table-Entered t m (suc k) hops' p (omega (arith, same)) in
    (
      out,
      ground (arith, d, run),
      omega (arith, len, same),
      (λ j h.
          low j (omega arith)
          ∙ get_elem?-set_ne hops nh.index j (hop_entry t nh i) (λ q. omega arith)),
      (
        (
          i,
          hop_entry t nh i,
          d,
          low k (omega arith)
              ∙ ap (get_elem? hops') (sym e)
              ∙ get_elem?-set_self hops nh.index (hop_entry t nh i) (omega arith),
          hop_entry-IsEntry t nh i,
        ),
        rest,
      ),
    )

-- On a mapping whose next hops are numbered by position, with interfaces that exist and have a
-- netmap index other than 0xffff, the table has one entry for each next hop, at its position: the
-- netmap index of its interface, in 16 bits, and the MAC address that the mapping knows for its
-- address, or the invalid one if it knows none. The rest stays.
pub create_current_table-Entered :
    (m : List NhAbstract) (t : ArpTable)
    → IsPlaced t.interfaces 0 m
    → (hops : List NextHop) × (create_current_table m t
        ≡ some (record t { next_hop_mapping = m; next_hops = hops }))
      × (length hops ≡ length m)
      × Entered t 0 m hops
unfolding create_current_table
create_current_table-Entered m t p =
    let size = length-replicate (length m) new_next_hop in
    let (out, run, len, _, entered) =
      fill_table-Entered t m 0 (replicate (length m) new_next_hop) p (omega (arith, size)) in
    (out, ground (arith, run), len ∙ size, entered)
