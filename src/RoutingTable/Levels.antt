-- ===== src/RoutingTable/Levels.antt =====
-- The loops of `buildNextHopList` of src/routingTable.cpp over the levels, and the table that they leave.
use mathlib.Core.Path.{subst₂}
use ariadne.Base.{
  ℕ, ◌≡◌, inl, inr, refl, ap, ap₂, arith, List, [], ◌∷◌, map, some, get_elem?, Option-cases, All,
}
use ariadne.Interface.{Heap}
use ariadne.RoutingTable.{Route, NhAbstract, Entries, RoutingTable, nh_invalid}
use ariadne.RoutingTable.NextHops.{
  Numbering, index_route, index_level, index_levels, finish, build_next_hop_list,
}
use ariadne.RoutingTable.Indices.{
  IsNumbered, Resolved, Extends, Extends-refl, Extends-trans, Resolved-Extends, index_route-Indexes,
}

-- A route without its index.
abbrev pub strip : Route → Route
strip r = record r { index = nh_invalid }

All-Extends :
    (heap : Heap) (m m' : List NhAbstract) (rs : List Route)
    → Extends m m'
    → All (Resolved heap m) rs
    → All (Resolved heap m') rs
All-Extends heap m m' [] x h = tt
All-Extends heap m m' (r ∷ rs) x h =
    (Resolved-Extends heap m m' r x h.0, All-Extends heap m m' rs x h.1)

record LevelIndexes (heap : Heap) (rs : List Route) (s : Numbering) (rs' : List Route)
    (s' : Numbering) : Type 0 where
  numbered : IsNumbered s'
  grown : Extends s.mapping s'.mapping
  resolved : All (Resolved heap s'.mapping) rs'
  same : map strip rs' ≡ map strip rs

index_level-Indexes :
    (heap : Heap) (rs : List Route) (s : Numbering) {rs' : List Route} {s' : Numbering}
    → IsNumbered s
    → index_level heap rs s ≡ some (rs', s')
    → LevelIndexes heap rs s rs' s'
unfolding index_level
index_level-Indexes heap [] s {rs'} {s'} v h =
    let ea : [] ≡ rs' = ground arith in
    let eb : s ≡ s' = ground arith in
    subst₂ (LevelIndexes heap [] s) ea eb
      (record { numbered = v; grown = Extends-refl s.mapping; resolved = tt; same = refl })
index_level-Indexes heap (r ∷ rs) s {rs'} {s'} v h = elim (Option-cases (index_route heap r s)) [
  | inl e ↦ absurd (ground arith)
  | inr ((r1, s1), e1) ↦ elim (Option-cases (index_level heap rs s1)) [
    | inl e ↦ absurd (ground arith)
    | inr ((rs2, s2), e2) ↦
        let one = index_route-Indexes heap r s v e1 in
        let rest = index_level-Indexes heap rs s1 one.numbered e2 in
        let ea : r1 ∷ rs2 ≡ rs' = ground arith in
        let eb : s2 ≡ s' = ground arith in
        subst₂ (LevelIndexes heap (r ∷ rs) s) ea eb (record {
          numbered = rest.numbered;
          grown = Extends-trans s.mapping s1.mapping s2.mapping one.grown rest.grown;
          resolved = (
            Resolved-Extends heap s1.mapping s2.mapping r1 rest.grown one.resolved,
            rest.resolved,
          );
          same = ap₂ ◌∷◌ (ap strip one.same) rest.same;
        })
  ]
]

pub record TableIndexes (heap : Heap) (es : Entries) (s : Numbering) (es' : Entries)
    (s' : Numbering) : Type 0 where
  pub numbered : IsNumbered s'
  pub grown : Extends s.mapping s'.mapping
  pub resolved : All (All (Resolved heap s'.mapping)) es'
  pub same : map (map strip) es' ≡ map (map strip) es

index_levels-Indexes :
    (heap : Heap) (es : Entries) (s : Numbering) {es' : Entries} {s' : Numbering}
    → IsNumbered s
    → index_levels heap es s ≡ some (es', s')
    → TableIndexes heap es s es' s'
unfolding index_levels
index_levels-Indexes heap [] s {es'} {s'} v h =
    let ea : [] ≡ es' = ground arith in
    let eb : s ≡ s' = ground arith in
    subst₂ (TableIndexes heap [] s) ea eb
      (record { numbered = v; grown = Extends-refl s.mapping; resolved = tt; same = refl })
index_levels-Indexes heap (rs ∷ es) s {es'} {s'} v h = elim (Option-cases (index_level heap rs s)) [
  | inl e ↦ absurd (ground arith)
  | inr ((rs1, s1), e1) ↦ elim (Option-cases (index_levels heap es s1)) [
    | inl e ↦ absurd (ground arith)
    | inr ((es2, s2), e2) ↦
        let one = index_level-Indexes heap rs s v e1 in
        let rest = index_levels-Indexes heap es s1 one.numbered e2 in
        let ea : rs1 ∷ es2 ≡ es' = ground arith in
        let eb : s2 ≡ s' = ground arith in
        subst₂ (TableIndexes heap (rs ∷ es) s) ea eb (record {
          numbered = rest.numbered;
          grown = Extends-trans s.mapping s1.mapping s2.mapping one.grown rest.grown;
          resolved =
              (All-Extends heap s1.mapping s2.mapping rs1 rest.grown one.resolved, rest.resolved);
          same = ap₂ ◌∷◌ one.same rest.same;
        })
  ]
]

-- What the built table promises its readers: next hop `i` of the mapping has index `i`, every
-- route's index leads to its next hop or interface, and the routes are otherwise the old ones.
pub record IsIndexed (heap : Heap) (t t' : RoutingTable) : Type 0 where
  pub positions :
      (i : ℕ) (nh : NhAbstract) → get_elem? t'.next_hop_mapping i ≡ some nh → nh.index ≡ i
  pub resolved : All (All (Resolved heap t'.next_hop_mapping)) t'.entries
  pub same : map (map strip) t'.entries ≡ map (map strip) t.entries

pub fresh_IsNumbered :
    (m : List NhAbstract) → m ≡ [] → IsNumbered (record { mapping = m; next_index = 0 })
fresh_IsNumbered m e =
    rw e (record { numbered = λ i nh h. absurd (ground arith); free = refl; small = omega arith })

pub printed :
    (heap : Heap) (es : Entries) (s : Numbering) (t' : RoutingTable)
    → finish heap es s ≡ some t'
    → t' ≡ record { entries = es; next_hop_mapping = s.mapping }
unfolding finish
printed heap es s t' h = ground arith

-- If the first `buildNextHopList` of a table returns, the table is indexed.
pub build_next_hop_list-IsIndexed :
    (heap : Heap) (t t' : RoutingTable)
    → t.next_hop_mapping ≡ []
    → build_next_hop_list heap t ≡ some t'
    → IsIndexed heap t t'
unfolding build_next_hop_list
build_next_hop_list-IsIndexed heap t t' fresh h =
    let s : Numbering = record { mapping = t.next_hop_mapping; next_index = 0 } in
    let start : IsNumbered s = fresh_IsNumbered t.next_hop_mapping fresh in
    elim (Option-cases (index_levels heap t.entries s)) [
      | inl e ↦ absurd (ground arith)
      | inr ((es, s'), e) ↦
          let x = index_levels-Indexes heap t.entries s start e in
          let ee : t' ≡ record { entries = es; next_hop_mapping = s'.mapping } =
            printed heap es s' t' (ground arith) in
          rw ee (record { positions = x.numbered.numbered; resolved = x.resolved; same = x.same })
    ]
