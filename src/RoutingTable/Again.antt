-- ===== src/RoutingTable/Again.antt =====
-- `buildNextHopList` of src/routingTable.cpp a second time on a table that it has numbered: once in
-- the constructor of the table, and again when netmap has numbered the interfaces.
use ariadne.Base.{
  ℕ, suc, ◌+◌, ◌≡◌, inl, inr, refl, sym, ap, ◌∙◌, subst, arith, ◌==◌, Bool-cases, true, false, List,
  [], ◌∷◌, ◌++◌, Option, some, none, length, All, Option-cases, eq→==,
}
use ariadne.Util.{u16}
use ariadne.Interface.{Heap, Interface, InterfacePtr, deref}
use ariadne.RoutingTable.{Route, NhAbstract, Entries, RoutingTable, nh_invalid}
use ariadne.RoutingTable.NextHops.{
  Numbering, index_route, index_level, index_levels, find_next_hop, assert_index, connected_index,
  build_next_hop_list, finish,
}
use ariadne.RoutingTable.Indices.{Extends, Extends-refl, Extends-trans}
use ariadne.RoutingTable.Rebuild.{index_level-Extends, index_levels-Extends}
use ariadne.RoutingTable.Levels.{printed}
use ariadne.RoutingTable.Runs.{HasPort, HopHasPort}
use ariadne.RoutingTable.Total.{Points, print_from_runs, print_next_hops_runs, built_by}

find_next_hop-append :
    (xs ys : List NhAbstract) (ip : ℕ) (nh : NhAbstract)
    → find_next_hop xs ip ≡ some nh
    → find_next_hop (xs ++ ys) ip ≡ some nh
unfolding find_next_hop
find_next_hop-append [] ys ip nh h = cc
find_next_hop-append (x ∷ xs) ys ip nh h = elim (Bool-cases (x.nh_ip == ip)) [
  | inl e ↦ ground (arith, e)
  | inr e ↦ rw (e, find_next_hop) (find_next_hop-append xs ys ip nh (ground (arith, e)))
]

find_next_hop-last :
    (xs ys : List NhAbstract) (nh : NhAbstract)
    → find_next_hop xs nh.nh_ip ≡ none
    → find_next_hop ((xs ++ nh ∷ []) ++ ys) nh.nh_ip ≡ some nh
unfolding find_next_hop
find_next_hop-last [] ys nh h = rw (eq→== nh.nh_ip nh.nh_ip refl, find_next_hop) refl
find_next_hop-last (x ∷ xs) ys nh h = elim (Bool-cases (x.nh_ip == nh.nh_ip)) [
  | inl e ↦ absurd (ground (arith, e))
  | inr e ↦ rw (e, find_next_hop) (find_next_hop-last xs ys nh (ground (arith, e)))
]

-- `bound` is the heap when netmap has numbered the interfaces, `unbound` before.
module _ (heap : Heap) (r : Route) (s : Numbering) where
  connected :
      (i : Interface)
      → (r.next_hop == 0) ≡ true
      → deref heap r.interface ≡ some i
      → index_route heap r s ≡ some (record r { index = connected_index i }, s)
  unfolding index_route
  connected i t e = rw (t, index_route) (rw (e, index_route) refl)

  known :
      (nh : NhAbstract)
      → (r.next_hop == 0) ≡ false
      → find_next_hop s.mapping r.next_hop ≡ some nh
      → index_route heap r s ≡ assert_index nh.index (record r { index = nh.index }, s)
  unfolding index_route
  known nh t e = rw (t, index_route) (rw (e, index_route) refl)

  abbrev added : NhAbstract
  added = record { nh_ip = r.next_hop; interface = r.interface; index = s.next_index }

  abbrev grown : Numbering
  grown = record { mapping = s.mapping ++ added ∷ []; next_index = u16 (s.next_index + 1) }

  unknown :
      (r.next_hop == 0) ≡ false
      → find_next_hop s.mapping r.next_hop ≡ none
      → index_route heap r s ≡ assert_index s.next_index (record r { index = s.next_index }, grown)
  unfolding index_route
  unknown t e = rw (t, index_route) (rw (e, index_route) refl)

level_cons :
    (heap : Heap) (r : Route) (rs : List Route) (s s1 s2 : Numbering) (r' : Route)
    (rs' : List Route)
    → index_route heap r s ≡ some (r', s1)
    → index_level heap rs s1 ≡ some (rs', s2)
    → index_level heap (r ∷ rs) s ≡ some (r' ∷ rs', s2)
unfolding index_level
level_cons heap r rs s s1 s2 r' rs' e e' = rw (e, index_level) (rw (e', index_level) refl)

levels_cons :
    (heap : Heap) (rs : List Route) (es : Entries) (s s1 s2 : Numbering) (rs' : List Route)
    (es' : Entries)
    → index_level heap rs s ≡ some (rs', s1)
    → index_levels heap es s1 ≡ some (es', s2)
    → index_levels heap (rs ∷ es) s ≡ some (rs' ∷ es', s2)
unfolding index_levels
levels_cons heap rs es s s1 s2 rs' es' e e' = rw (e, index_levels) (rw (e', index_levels) refl)

some-injective :
    (x y : Route × Numbering) → ◌≡◌ {A = Option (Route × Numbering)} (some x) (some y) → x ≡ y
some-injective x y h = cc

-- An assertion that has passed passes again, whatever comes with it.
asserted :
    (index : ℕ) (x y : Route × Numbering) (z : Route × Numbering)
    → assert_index index x ≡ some y
    → (x ≡ y) × (assert_index index z ≡ some z)
asserted index x y z h = elim (Bool-cases (index == nh_invalid)) [
  | inl e ↦ absurd (ground (arith, e))
  | inr e ↦ (ground (arith, e), rw e refl)
]

module _ (unbound bound : Heap)
    (points : (p : InterfacePtr) (i : Interface) → deref bound p ≡ some i → Points unbound p)
    (m : List NhAbstract) (k : ℕ) where
  -- The numbering at the second time: the mapping has every next hop, and stays.
  abbrev full : Numbering
  full = record { mapping = m; next_index = k }

  -- From `s` to `s'` the route `r` is numbered on `unbound`, and the result again on `bound`, where
  -- it becomes what one numbering on `bound` makes of `r`.
  record Twice (r : Route) (s : Numbering) (r2 : Route) (s' : Numbering) : Type 0 where
    once : Route
    first : index_route unbound r s ≡ some (once, s')
    second : index_route bound once full ≡ some (r2, full)
    pointer : Points unbound once.interface

  index_route-Twice :
      (r r2 : Route) (s s' : Numbering)
      → HasPort bound r
      → index_route bound r s ≡ some (r2, s')
      → Extends s'.mapping m
      → Twice r s r2 s'
  index_route-Twice r r2 s s' (i, at_i, small) h (more, x) = elim (Bool-cases (r.next_hop == 0)) [
    | inl t ↦
        let (j, at_j) = points r.interface i at_i in
        let q =
          some-injective (record r { index = connected_index i }, s) (r2, s')
            (sym (connected bound r s i t at_i) ∙ h) in
        let e2 : record r { index = connected_index i } ≡ r2 = ap (λ z. z.0) q in
        let e3 : s ≡ s' = ap (λ z. z.1) q in
        let once : Route = record r { index = connected_index j } in
        record {
          once = once;
          first = connected unbound r s j t at_j ∙ ap (λ z. some (once, z)) e3;
          second = connected bound once full i t at_i ∙ ap (λ z. some (z, full)) e2;
          pointer = (j, at_j);
        }
    | inr t ↦ elim (Option-cases (find_next_hop s.mapping r.next_hop)) [
      | inr (nh, e) ↦
          let run = sym (known bound r s nh t e) ∙ h in
          let (q, again) =
            asserted nh.index (record r { index = nh.index }, s) (r2, s')
              (record r { index = nh.index }, full) run in
          let same : record r { index = nh.index } ≡ r2 = ap (λ z. z.0) q in
          let kept : s ≡ s' = ap (λ z. z.1) q in
          let found : find_next_hop m r.next_hop ≡ some nh =
            subst (λ l. find_next_hop l r.next_hop ≡ some nh)
              (sym (x ∙ ap (λ (z : Numbering). z.mapping ++ more) (sym kept)))
              (find_next_hop-append s.mapping more r.next_hop nh e) in
          record {
            once = r2;
            first = known unbound r s nh t e ∙ run;
            second =
                subst (λ z. index_route bound z full ≡ some (z, full)) same
                  (known bound (record r { index = nh.index }) full nh t found ∙ again);
            pointer = subst (λ z. Points unbound z.interface) same (points r.interface i at_i);
          }
      | inl e ↦
          let run = sym (unknown bound r s t e) ∙ h in
          let hop = added bound r s in
          let (q, again) =
            asserted s.next_index (record r { index = s.next_index }, grown bound r s) (r2, s')
              (record r { index = s.next_index }, full) run in
          let same : record r { index = s.next_index } ≡ r2 = ap (λ z. z.0) q in
          let kept : grown bound r s ≡ s' = ap (λ z. z.1) q in
          let found : find_next_hop m r.next_hop ≡ some hop =
            subst (λ l. find_next_hop l r.next_hop ≡ some hop)
              (sym (x ∙ ap (λ (z : Numbering). z.mapping ++ more) (sym kept)))
              (find_next_hop-last s.mapping more hop e) in
          record {
            once = r2;
            first = unknown unbound r s t e ∙ run;
            second =
                subst (λ z. index_route bound z full ≡ some (z, full)) same
                  (known bound (record r { index = s.next_index }) full hop t found ∙ again);
            pointer = subst (λ z. Points unbound z.interface) same (points r.interface i at_i);
          }
    ]
  ]

  index_level-Twice :
      (rs rs2 : List Route) (s s' : Numbering)
      → All (HasPort bound) rs
      → index_level bound rs s ≡ some (rs2, s')
      → Extends s'.mapping m
      → (rs1 : List Route) × (index_level unbound rs s ≡ some (rs1, s'))
        × (index_level bound rs1 full ≡ some (rs2, full))
        × All (λ r. Points unbound r.interface) rs1
  unfolding index_level
  index_level-Twice [] rs2 s s' ports h x =
      let e : [] ≡ rs2 = ground arith in
      let e' : s ≡ s' = ground arith in
      ([], ap (λ z. some ([], z)) e', ap (λ z. some (z, full)) e, tt)
  index_level-Twice (r ∷ rs) rs2 s s' ports h x = elim (Option-cases (index_route bound r s)) [
    | inl e ↦ absurd (ground (arith, e))
    | inr ((r2, s1), e) ↦ elim (Option-cases (index_level bound rs s1)) [
      | inl e' ↦ absurd (ground (arith, e, e'))
      | inr ((rest2, s2), e') ↦
          let q : r2 ∷ rest2 ≡ rs2 = ground (arith, e, e') in
          let q' : s2 ≡ s' = ground (arith, e, e') in
          let x2 = subst (λ (z : Numbering). Extends z.mapping m) (sym q') x in
          let x1 = Extends-trans s1.mapping s2.mapping m (index_level-Extends bound rs s1 e') x2 in
          let t = index_route-Twice r r2 s s1 ports.0 e x1 in
          let (rest1, run1, run2, pointers) = index_level-Twice rs rest2 s1 s2 ports.1 e' x2 in
          (
            t.once ∷ rest1,
            level_cons unbound r rs s s1 s2 t.once rest1 t.first run1
                ∙ ap (λ z. some (t.once ∷ rest1, z)) q',
            level_cons bound t.once rest1 full full full r2 rest2 t.second run2
                ∙ ap (λ z. some (z, full)) q,
            (t.pointer, pointers),
          )
    ]
  ]

  index_levels-Twice :
      (es es2 : Entries) (s s' : Numbering)
      → All (All (HasPort bound)) es
      → index_levels bound es s ≡ some (es2, s')
      → Extends s'.mapping m
      → (es1 : Entries) × (index_levels unbound es s ≡ some (es1, s'))
        × (index_levels bound es1 full ≡ some (es2, full))
        × All (All (λ r. Points unbound r.interface)) es1
        × (length es1 ≡ length es)
  unfolding index_levels
  index_levels-Twice [] es2 s s' ports h x =
      let e : [] ≡ es2 = ground arith in
      let e' : s ≡ s' = ground arith in
      ([], ap (λ z. some ([], z)) e', ap (λ z. some (z, full)) e, tt, refl)
  index_levels-Twice (rs ∷ es) es2 s s' ports h x = elim (Option-cases (index_level bound rs s)) [
    | inl e ↦ absurd (ground (arith, e))
    | inr ((rs2, s1), e) ↦ elim (Option-cases (index_levels bound es s1)) [
      | inl e' ↦ absurd (ground (arith, e, e'))
      | inr ((rest2, s2), e') ↦
          let q : rs2 ∷ rest2 ≡ es2 = ground (arith, e, e') in
          let q' : s2 ≡ s' = ground (arith, e, e') in
          let x2 = subst (λ (z : Numbering). Extends z.mapping m) (sym q') x in
          let x1 = Extends-trans s1.mapping s2.mapping m (index_levels-Extends bound es s1 e') x2 in
          let (rs1, first, second, pointer) = index_level-Twice rs rs2 s s1 ports.0 e x1 in
          let (rest1, run1, run2, pointers, size) =
            index_levels-Twice es rest2 s1 s2 ports.1 e' x2 in
          (
            rs1 ∷ rest1,
            levels_cons unbound rs es s s1 s2 rs1 rest1 first run1
                ∙ ap (λ z. some (rs1 ∷ rest1, z)) q',
            levels_cons bound rs1 rest1 full full full rs2 rest2 second run2
                ∙ ap (λ z. some (z, full)) q,
            (pointer, pointers),
            ap suc size,
          )
    ]
  ]

-- A table that is numbered on `bound` can be numbered on `unbound` first, if the pointers that lead
-- somewhere on `bound` do so on `unbound`: the second numbering gives the same table.
module _ (unbound bound : Heap)
    (points : (p : InterfacePtr) (i : Interface) → deref bound p ≡ some i → Points unbound p) where
  hops_Points :
      (m : List NhAbstract) → All (HopHasPort bound) m → All (λ nh. Points unbound nh.interface) m
  hops_Points [] h = tt
  hops_Points (nh ∷ m) ((i, at_i, small), h) = (points nh.interface i at_i, hops_Points m h)

  built_from :
      (t t1 : RoutingTable) (es : Entries) (s : Numbering)
      → index_levels bound t.entries (record { mapping = t.next_hop_mapping; next_index = 0 })
        ≡ some (es, s)
      → build_next_hop_list bound t ≡ some t1
      → finish bound es s ≡ some t1
  unfolding build_next_hop_list
  built_from t t1 es s e h = ground (arith, e)

  built_again :
      (t1 t2 : RoutingTable) (es2 : Entries) (m : List NhAbstract) (k : ℕ)
      → t1.next_hop_mapping ≡ m
      → index_levels bound t1.entries (record { mapping = m; next_index = 0 })
        ≡ some (es2, record { mapping = m; next_index = 0 })
      → finish bound es2 (record { mapping = m; next_index = k }) ≡ some t2
      → build_next_hop_list bound t1 ≡ some t2
  unfolding build_next_hop_list finish
  built_again t1 t2 es2 m k em e h = rw (em, build_next_hop_list) (rw (e, build_next_hop_list) h)

  pub build_twice :
      (t t2 : RoutingTable)
      → length t.entries ≡ 33
      → All (All (HasPort bound)) t.entries
      → All (HopHasPort bound) t2.next_hop_mapping
      → build_next_hop_list bound t ≡ some t2
      → (t1 : RoutingTable) × (build_next_hop_list unbound t ≡ some t1)
        × (build_next_hop_list bound t1 ≡ some t2)
  unfolding build_next_hop_list
  build_twice t t2 size ports hops h =
      let s : Numbering = record { mapping = t.next_hop_mapping; next_index = 0 } in
      elim (Option-cases (index_levels bound t.entries s)) [
        | inl e ↦ absurd (ground (arith, e))
        | inr ((es2, s2), e) ↦
            let fin = built_from t t2 es2 s2 e h in
            let table : t2 ≡ record { entries = es2; next_hop_mapping = s2.mapping } =
              printed bound es2 s2 t2 fin in
            let (es1, first, second, pointers, size1) =
              index_levels-Twice unbound bound points s2.mapping 0 t.entries es2 s s2 ports e
                (Extends-refl s2.mapping) in
            let (lines, e1) =
              print_from_runs unbound es1 33 (omega (arith, size, size1)) pointers in
            let (shown, e2) = print_next_hops_runs unbound s2.mapping (
              hops_Points s2.mapping (
                subst (λ (z : RoutingTable). All (HopHasPort bound) z.next_hop_mapping) table
                  hops)) in
            let t1 : RoutingTable = record { entries = es1; next_hop_mapping = s2.mapping } in
            (
              t1,
              built_by unbound t es1 s2 lines shown first e1 e2,
              built_again t1 t2 es2 s2.mapping s2.next_index refl second fin,
            )
      ]
