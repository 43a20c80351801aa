-- ===== src/RoutingTable/Indices.antt =====
-- What `buildNextHopList` of src/routingTable.cpp leaves in the routes and in the mapping.
use mathlib.Core.Path.{subst₂}
use mathlib.Core.List.{append-nil, append_assoc}
use ariadne.Base.{
  ℕ, suc, ◌+◌, ◌≤◌, ◌<◌, ◌≡◌, ◌≢◌, ◌⊎◌, inl, inr, refl, sym, ap, ◌∙◌, subst, arith, ◌==◌,
  Bool-cases, ==_iff, List, [], ◌∷◌, ◌++◌, Option, some, get_elem?, get_elem?-append_left,
  get_elem?-append_last, get_elem?-append_cases, Option-cases, get_elem?-lt, length, length-append,
}
use ariadne.Util.{u16}
use ariadne.Interface.{Heap, Interface, deref}
use ariadne.RoutingTable.{Route, NhAbstract, nh_invalid}
use ariadne.RoutingTable.NextHops.{Numbering, index_route, find_next_hop, connected_index}

-- Next hop `i` of the mapping has index `i`, and `next_index` is the next free one.
pub record IsNumbered (s : Numbering) : Type 0 where
  pub numbered : (i : ℕ) (nh : NhAbstract) → get_elem? s.mapping i ≡ some nh → nh.index ≡ i
  pub free : s.next_index ≡ length s.mapping
  pub small : length s.mapping ≤ 0xffff

-- The route's index leads to its next hop: through the mapping, or as the flag and the number of
-- the interface where the route has no next hop.
abbrev pub Resolved : Heap → List NhAbstract → Route → Type 0
Resolved heap mapping r =
    ((r.next_hop ≡ 0)
      × ((i : Interface) × (deref heap r.interface ≡ some i) × (r.index ≡ connected_index i)))
    ⊎ ((r.next_hop ≢ 0)
        × ((nh : NhAbstract) × (get_elem? mapping r.index ≡ some nh)
            × (nh.nh_ip ≡ r.next_hop)
            × (nh.index ≡ r.index)))

pub find_next_hop_lem :
    (m : List NhAbstract) (ip : ℕ) (nh : NhAbstract)
    → find_next_hop m ip ≡ some nh
    → (nh.nh_ip ≡ ip) × ((i : ℕ) × (get_elem? m i ≡ some nh))
unfolding find_next_hop
find_next_hop_lem [] ip nh h = cc
find_next_hop_lem (x ∷ m) ip nh h = elim (Bool-cases (x.nh_ip == ip)) [
  | inl t ↦ (ground arith, (0, ground arith))
  | inr f ↦ let (e, (i, at_i)) = find_next_hop_lem m ip nh (ground arith) in (e, (suc i, at_i))
]

abbrev pub Extends : List NhAbstract → List NhAbstract → Type 0
Extends m m' = (more : List NhAbstract) × (m' ≡ m ++ more)

pub Extends-refl : (m : List NhAbstract) → Extends m m
Extends-refl m = ([], sym (append-nil m))

pub Extends-trans : (a b c : List NhAbstract) → Extends a b → Extends b c → Extends a c
Extends-trans a b c (x, e) (y, f) = (x ++ y, f ∙ ap (λ t. t ++ y) e ∙ append_assoc a x y)

pub Resolved-Extends :
    (heap : Heap) (m m' : List NhAbstract) (r : Route)
    → Extends m m'
    → Resolved heap m r
    → Resolved heap m' r
Resolved-Extends heap m m' r (x, e) (inl c) = inl c
Resolved-Extends heap m m' r (x, e) (inr (n, (nh, at_i, ip, index))) =
    inr (n, (nh, rw e (get_elem?-append_left m x r.index nh at_i), ip, index))

-- What one step of the numbering gives, at a route or at a list of routes.
pub record Indexes (heap : Heap) (r : Route) (s : Numbering) (r' : Route) (s' : Numbering)
    : Type 0 where
  pub numbered : IsNumbered s'
  pub grown : Extends s.mapping s'.mapping
  pub resolved : Resolved heap s'.mapping r'
  pub same : r' ≡ record r { index = r'.index }

IsNumbered-append :
    (s : Numbering) (nh : NhAbstract)
    → IsNumbered s
    → s.next_index ≢ nh_invalid
    → nh.index ≡ s.next_index
    → IsNumbered (record { mapping = s.mapping ++ nh ∷ []; next_index = u16 (s.next_index + 1) })
IsNumbered-append s nh v ne e = record {
  numbered = λ i x h. last i x h (get_elem?-lt (s.mapping ++ nh ∷ []) i x h);
  free = omega (arith, length-append s.mapping (nh ∷ []), v.free, v.small);
  small = omega (arith, length-append s.mapping (nh ∷ []), v.free, v.small);
}
  where
    last :
        (i : ℕ) (x : NhAbstract)
        → get_elem? (s.mapping ++ nh ∷ []) i ≡ some x
        → i < length (s.mapping ++ nh ∷ [])
        → x.index ≡ i
    last i x h b = elim (get_elem?-append_cases s.mapping nh i x h) [
      | inl o ↦ v.numbered i x o
      | inr (at_end, eq) ↦ ground (arith, v.free)
    ]

same_step :
    (heap : Heap) (r : Route) (s : Numbering) {a r' : Route} {b s' : Numbering}
    → ◌≡◌ {A = Option (Route × Numbering)} (some (a, b)) (some (r', s'))
    → Indexes heap r s a b
    → Indexes heap r s r' s'
same_step heap r s {a} {r'} {b} {s'} e x =
    let ea : a ≡ r' = ground arith in
    let eb : b ≡ s' = ground arith in subst₂ (Indexes heap r s) ea eb x

pub index_route-Indexes :
    (heap : Heap) (r : Route) (s : Numbering) {r' : Route} {s' : Numbering}
    → IsNumbered s
    → index_route heap r s ≡ some (r', s')
    → Indexes heap r s r' s'
unfolding index_route
index_route-Indexes heap r s {r'} {s'} v h = elim (Bool-cases (r.next_hop == 0)) [
  | inl t ↦ elim (Option-cases (deref heap r.interface)) [
    | inl e ↦ absurd (ground arith)
    | inr (i, e) ↦
        same_step heap r s {a = record r { index = connected_index i }} {b = s} (ground arith)
          (record {
            numbered = v;
            grown = Extends-refl s.mapping;
            resolved = inl ((==_iff _ _).0 t, (i, e, refl));
            same = refl;
          })
  ]
  | inr f ↦ elim (Option-cases (find_next_hop s.mapping r.next_hop)) [
    | inr (nh, e) ↦
        let (ip, (k, at_k)) = find_next_hop_lem s.mapping r.next_hop nh e in
        let pos : nh.index ≡ k = v.numbered k nh at_k in
        same_step heap r s {a = record r { index = nh.index }} {b = s} (ground arith) (record {
          numbered = v;
          grown = Extends-refl s.mapping;
          resolved = inr (
            (λ z. ground arith),
            (nh, subst (λ j. get_elem? s.mapping j ≡ some nh) (sym pos) at_k, ip, refl),
          );
          same = refl;
        })
    | inl e ↦
        let nh : NhAbstract = record {
          nh_ip = r.next_hop;
          interface = r.interface;
          index = s.next_index;
        } in
        let ne : s.next_index ≢ nh_invalid = (λ z. ground arith) in
        same_step heap r s {a = record r { index = s.next_index }}
          {b = record { mapping = s.mapping ++ nh ∷ []; next_index = u16 (s.next_index + 1) }}
          (ground arith)
          (record {
            numbered = IsNumbered-append s nh v ne refl;
            grown = (nh ∷ [], refl);
            resolved = inr (
              (λ z. ground arith),
              (
                nh,
                subst (λ k. get_elem? (s.mapping ++ nh ∷ []) k ≡ some nh) (sym v.free)
                    (get_elem?-append_last s.mapping nh),
                refl,
                refl,
              ),
            );
            same = refl;
          })
  ]
]
