-- ===== src/RoutingTable/Rebuild.antt =====
-- A second `buildNextHopList` of src/routingTable.cpp on the same table: the mapping is kept, but
-- the numbering starts again at 0.

use ariadne.Base.{
  ◌≡◌, ◌≢◌, inl, inr, ap, ◌∙◌, subst, arith, ◌==◌, Bool-cases, ==_iff, List, [], ◌∷◌, ◌++◌, some,
  none, get_elem?, All, Option-cases,
}
use ariadne.Interface.{Heap, deref}
use ariadne.RoutingTable.{Route, NhAbstract, Entries, RoutingTable}
use ariadne.RoutingTable.NextHops.{
  Numbering, index_route, index_level, index_levels, find_next_hop, build_next_hop_list,
}
use ariadne.RoutingTable.Indices.{Extends, Extends-refl, Extends-trans, Resolved}
use ariadne.RoutingTable.Levels.{printed}

-- The mapping is only appended to.
pub index_route-Extends :
    (heap : Heap) (r : Route) (s : Numbering) {r' : Route} {s' : Numbering}
    → index_route heap r s ≡ some (r', s')
    → Extends s.mapping s'.mapping
unfolding index_route
index_route-Extends heap r s {r'} {s'} h = elim (Bool-cases (r.next_hop == 0)) [
  | inl t ↦ elim (Option-cases (deref heap r.interface)) [
    | inl e ↦ absurd (ground arith)
    | inr (i, e) ↦ let k : s' ≡ s = ground arith in rw k (Extends-refl s.mapping)
  ]
  | inr f ↦ elim (Option-cases (find_next_hop s.mapping r.next_hop)) [
    | inr (nh, e) ↦ let k : s' ≡ s = ground arith in rw k (Extends-refl s.mapping)
    | inl e ↦ (
      record { nh_ip = r.next_hop; interface = r.interface; index = s.next_index } ∷ [],
      ground arith,
    )
  ]
]

pub index_level-Extends :
    (heap : Heap) (rs : List Route) (s : Numbering) {rs' : List Route} {s' : Numbering}
    → index_level heap rs s ≡ some (rs', s')
    → Extends s.mapping s'.mapping
unfolding index_level
index_level-Extends heap [] s {rs'} {s'} h =
    let k : s' ≡ s = ground arith in rw k (Extends-refl s.mapping)
index_level-Extends heap (r ∷ rs) s {rs'} {s'} h = elim (Option-cases (index_route heap r s)) [
  | inl e ↦ absurd (ground arith)
  | inr ((r1, s1), e1) ↦ elim (Option-cases (index_level heap rs s1)) [
    | inl e ↦ absurd (ground arith)
    | inr ((rs2, s2), e2) ↦
        let k : s' ≡ s2 = ground arith in
        rw k (
          Extends-trans s.mapping s1.mapping s2.mapping (index_route-Extends heap r s e1)
            (index_level-Extends heap rs s1 e2))
  ]
]

pub index_levels-Extends :
    (heap : Heap) (es : Entries) (s : Numbering) {es' : Entries} {s' : Numbering}
    → index_levels heap es s ≡ some (es', s')
    → Extends s.mapping s'.mapping
unfolding index_levels
index_levels-Extends heap [] s {es'} {s'} h =
    let k : s' ≡ s = ground arith in rw k (Extends-refl s.mapping)
index_levels-Extends heap (rs ∷ es) s {es'} {s'} h = elim (Option-cases (index_level heap rs s)) [
  | inl e ↦ absurd (ground arith)
  | inr ((rs1, s1), e1) ↦ elim (Option-cases (index_levels heap es s1)) [
    | inl e ↦ absurd (ground arith)
    | inr ((es2, s2), e2) ↦
        let k : s' ≡ s2 = ground arith in
        rw k (
          Extends-trans s.mapping s1.mapping s2.mapping (index_level-Extends heap rs s e1)
            (index_levels-Extends heap es s1 e2))
  ]
]

not-Resolved :
    (heap : Heap) (m : List NhAbstract) (r : Route) (nh : NhAbstract)
    → r.next_hop ≢ 0
    → get_elem? m 0 ≡ some nh
    → nh.nh_ip ≢ r.next_hop
    → ¬ Resolved heap m (record r { index = 0 })
not-Resolved heap m r nh n first other (inl (z, _)) = absurd (n z)
not-Resolved heap m r nh n first other (inr (_, (x, at_0, ip, _))) =
    other (ground (arith, first, at_0))

module _ (heap : Heap) (r : Route) (nh : NhAbstract) (m : List NhAbstract) (n : r.next_hop ≢ 0)
    (f : find_next_hop (nh ∷ m) r.next_hop ≡ none) where
  abbrev start : Numbering
  start = record { mapping = nh ∷ m; next_index = 0 }

  abbrev after_head : Numbering
  after_head = record {
    mapping = nh ∷ m ++ record { nh_ip = r.next_hop; interface = r.interface; index = 0 } ∷ [];
    next_index = 1;
  }

  head_step : index_route heap r start ≡ some (record r { index = 0 }, after_head)
  unfolding index_route
  head_step = elim (Bool-cases (r.next_hop == 0)) [
    | inl t ↦ absurd (n ((==_iff _ _).0 t))
    | inr t ↦ rw (t, f)
  ]

  other_hop : nh.nh_ip ≢ r.next_hop
  unfolding find_next_hop
  other_hop e = ground arith

  -- The first route of the table gets index 0, where the mapping has the older next hop.
  head_at_zero :
      (rs : List Route) (es es' : Entries) (s' : Numbering)
      → index_levels heap ((r ∷ rs) ∷ es) start ≡ some (es', s')
      → ((rs' : List Route) × (rest : Entries) × (es' ≡ (record r { index = 0 } ∷ rs') ∷ rest))
        × (get_elem? s'.mapping 0 ≡ some nh)
  unfolding index_levels index_level
  head_at_zero rs es es' s' h = elim (Option-cases (index_level heap rs after_head)) [
    | inl e ↦ absurd (ground (arith, head_step))
    | inr ((rs2, s2), e2) ↦ elim (Option-cases (index_levels heap es s2)) [
      | inl e ↦ absurd (ground (arith, head_step))
      | inr ((es3, s3), e3) ↦
          let k : s' ≡ s3 = ground (arith, head_step) in
          let (more, x) =
            Extends-trans after_head.mapping s2.mapping s3.mapping
              (index_level-Extends heap rs after_head e2) (index_levels-Extends heap es s2 e3) in
          (
            (rs2, es3, ground (arith, head_step)),
            ap (λ z. get_elem? z.mapping 0) k ∙ ap (λ z. get_elem? z 0) x,
          )
    ]
  ]

-- Let the first route of the table, such as the default route, have a next hop that the kept mapping
-- lacks, and let the mapping begin with `nh`. If the rebuild returns, the first route has the index
-- 0, at which the mapping still has `nh`, whose address is not that of the route's next hop; so that
-- not all routes are resolved.
pub rebuild_unresolved :
    (heap : Heap) (t t' : RoutingTable) (r : Route) (rs : List Route) (es : Entries)
    (nh : NhAbstract) (m : List NhAbstract)
    → t.entries ≡ (r ∷ rs) ∷ es
    → t.next_hop_mapping ≡ nh ∷ m
    → r.next_hop ≢ 0
    → find_next_hop t.next_hop_mapping r.next_hop ≡ none
    → build_next_hop_list heap t ≡ some t'
    → ((rs' : List Route) × (rest : Entries) × (t'.entries ≡ (record r { index = 0 } ∷ rs') ∷ rest))
      × (get_elem? t'.next_hop_mapping 0 ≡ some nh)
      × (nh.nh_ip ≢ r.next_hop)
      × ¬ All (All (Resolved heap t'.next_hop_mapping)) t'.entries
unfolding build_next_hop_list
rebuild_unresolved heap t t' r rs es nh m te tm n f h =
    let f' : find_next_hop (nh ∷ m) r.next_hop ≡ none = rw tm at f in
    let other = other_hop heap r nh m n f' in
    elim (Option-cases
      (index_levels heap t.entries (record { mapping = t.next_hop_mapping; next_index = 0 }))) [
        | inl e ↦ absurd (ground arith)
        | inr ((es', s'), e) ↦
            let ee : t' ≡ record { entries = es'; next_hop_mapping = s'.mapping } =
              printed heap es' s' t' (ground arith) in
            let ((rs', rest, head), at_0) =
              head_at_zero heap r nh m n f' rs es es' s' (rw (te, tm) at e) in
            let at_0' : get_elem? t'.next_hop_mapping 0 ≡ some nh =
              ap (λ z. get_elem? z.next_hop_mapping 0) ee ∙ at_0 in
            let head' = ap (λ (z : RoutingTable). z.entries) ee ∙ head in
            (
              (rs', rest, head'),
              at_0',
              other,
              (λ all.
                  not-Resolved heap t'.next_hop_mapping r nh n at_0' other
                    (subst (All (All (Resolved heap t'.next_hop_mapping))) head' all).0.0),
            )
      ]
