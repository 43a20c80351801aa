-- ===== src/RoutingTable/Runs.antt =====
-- `buildNextHopList` of src/routingTable.cpp returns, on a table whose routes have interfaces.

use ariadne.Base.{
  ℕ, suc, ◌+◌, ◌≤◌, ◌<◌, ◌≡◌, ◌≢◌, inl, inr, refl, ap, arith, ◌==◌, bit_and_low, bit_or_fields,
  Bool-cases, List, [], ◌∷◌, ◌++◌, some, get_elem?-lt, Option-cases, length, length-append, All,
  All-append,
}
use ariadne.Util.{u16}
use ariadne.Interface.{Heap, InterfacePtr, Interface, deref}
use ariadne.RoutingTable.{Route, NhAbstract, Entries, nh_invalid}
use ariadne.RoutingTable.NextHops.{
  Numbering, index_route, index_level, index_levels, find_next_hop, connected_index,
}
use ariadne.RoutingTable.Indices.{find_next_hop_lem, IsNumbered, index_route-Indexes}

-- The pointer leads to an interface that netmap has numbered.
abbrev pub IsBound : Heap → InterfacePtr → Type 0
IsBound heap p = (i : Interface) × (deref heap p ≡ some i) × (i.netmap_index < 0x7fff)

abbrev pub HasPort : Heap → Route → Type 0
HasPort heap r = IsBound heap r.interface

abbrev pub HopHasPort : Heap → NhAbstract → Type 0
HopHasPort heap nh = IsBound heap nh.interface

abbrev pub num_routes : Entries → ℕ
num_routes [] = 0
num_routes (rs ∷ es) = length rs + num_routes es

-- A route's index after the numbering is a valid one.
abbrev pub HasIndex : Heap → Route → Type 0
HasIndex heap r = HasPort heap r × (r.index ≢ nh_invalid)

pub connected_index-valid :
    (i : Interface) → i.netmap_index < 0x7fff → connected_index i ≡ 0x8000 + i.netmap_index
connected_index-valid i h =
    ground (arith, bit_and_low 15 i.netmap_index, bit_or_fields 15 1 i.netmap_index)

-- One route: the numbering goes on, with at most one more next hop.
pub record Runs (heap : Heap) (s : Numbering) (n : ℕ) (s' : Numbering) : Type 0 where
  pub numbered : IsNumbered s'
  pub few : length s'.mapping ≤ length s.mapping + n
  pub ports : All (HopHasPort heap) s'.mapping

find_next_hop-index :
    (s : Numbering) (ip : ℕ) (nh : NhAbstract)
    → IsNumbered s
    → find_next_hop s.mapping ip ≡ some nh
    → nh.index < length s.mapping
find_next_hop-index s ip nh v h =
    let (e, (k, at_k)) = find_next_hop_lem s.mapping ip nh h in
    rw (v.numbered k nh at_k) (get_elem?-lt s.mapping k nh at_k)

index_route-Runs :
    (heap : Heap) (r : Route) (s : Numbering)
    → IsNumbered s
    → All (HopHasPort heap) s.mapping
    → HasPort heap r
    → length s.mapping < 0xffff
    → (r' : Route) × (s' : Numbering) × (index_route heap r s ≡ some (r', s'))
      × HasIndex heap r'
      × Runs heap s 1 s'
unfolding index_route
index_route-Runs heap r s v ports (i, at_i, small) few = elim (Bool-cases (r.next_hop == 0)) [
  | inl t ↦
      let run : index_route heap r s ≡ some (record r { index = connected_index i }, s) =
        ground (arith, t, at_i) in
      (
        record r { index = connected_index i },
        s,
        run,
        ((i, at_i, small), (λ e. let x = connected_index-valid i small in omega arith)),
        record { numbered = v; few = omega arith; ports = ports },
      )
  | inr f ↦ elim (Option-cases (find_next_hop s.mapping r.next_hop)) [
    | inr (nh, e) ↦
        let low = find_next_hop-index s r.next_hop nh v e in
        let run : index_route heap r s ≡ some (record r { index = nh.index }, s) =
          ground (arith, f, e, low, v.small) in
        (
          record r { index = nh.index },
          s,
          run,
          ((i, at_i, small), (λ z. omega (arith, low, v.small))),
          record { numbered = v; few = omega arith; ports = ports },
        )
    | inl e ↦
        let nh : NhAbstract = record {
          nh_ip = r.next_hop;
          interface = r.interface;
          index = s.next_index;
        } in
        let s' : Numbering = record {
          mapping = s.mapping ++ nh ∷ [];
          next_index = u16 (s.next_index + 1);
        } in
        let run : index_route heap r s ≡ some (record r { index = s.next_index }, s') =
          ground (arith, f, e, few, v.free) in
        (
          record r { index = s.next_index },
          s',
          run,
          ((i, at_i, small), (λ z. omega (arith, few, v.free))),
          record {
            numbered = (index_route-Indexes heap r s v run).numbered;
            few = omega (arith, length-append s.mapping (nh ∷ []));
            ports = All-append (HopHasPort heap) s.mapping (nh ∷ []) ports ((i, at_i, small), tt);
          },
        )
  ]
]

index_level-Runs :
    (heap : Heap) (rs : List Route) (s : Numbering)
    → IsNumbered s
    → All (HopHasPort heap) s.mapping
    → All (HasPort heap) rs
    → length s.mapping + length rs ≤ 0xffff
    → (rs' : List Route) × (s' : Numbering) × (index_level heap rs s ≡ some (rs', s'))
      × All (HasIndex heap) rs'
      × Runs heap s (length rs) s'
unfolding index_level
index_level-Runs heap [] s v ports h few =
    ([], s, refl, tt, record { numbered = v; few = omega arith; ports = ports })
index_level-Runs heap (r ∷ rs) s v ports h few =
    let (r', s1, e, x, p) = index_route-Runs heap r s v ports h.0 (omega arith) in
    let (rs', s', e', xs, q) =
      index_level-Runs heap rs s1 p.numbered p.ports h.1 (omega (arith, p.few)) in
    (
      r' ∷ rs',
      s',
      ground (arith, e, e'),
      (x, xs),
      record { numbered = q.numbered; few = omega (arith, p.few, q.few); ports = q.ports },
    )

pub index_levels-Runs :
    (heap : Heap) (es : Entries) (s : Numbering)
    → IsNumbered s
    → All (HopHasPort heap) s.mapping
    → All (All (HasPort heap)) es
    → length s.mapping + num_routes es ≤ 0xffff
    → (es' : Entries) × (s' : Numbering) × (index_levels heap es s ≡ some (es', s'))
      × All (All (HasIndex heap)) es'
      × (length es' ≡ length es)
      × Runs heap s (num_routes es) s'
unfolding index_levels
index_levels-Runs heap [] s v ports h few =
    ([], s, refl, tt, refl, record { numbered = v; few = omega arith; ports = ports })
index_levels-Runs heap (rs ∷ es) s v ports h few =
    let (rs', s1, e, x, p) = index_level-Runs heap rs s v ports h.0 (omega arith) in
    let (es', s', e', xs, len, q) =
      index_levels-Runs heap es s1 p.numbered p.ports h.1 (omega (arith, p.few)) in
    (
      rs' ∷ es',
      s',
      ground (arith, e, e'),
      (x, xs),
      ap suc len,
      record { numbered = q.numbered; few = omega (arith, p.few, q.few); ports = q.ports },
    )
