-- ===== src/RoutingTable/Gateways.antt =====
-- Which interface `buildNextHopList` of src/routingTable.cpp gives to a next hop address: that of the
-- first route through it, in the order of the table.
use ariadne.Base.{
  ℕ, ◌+◌, true, ◌≡◌, ◌≢◌, inl, inr, refl, sym, ap, ◌∙◌, arith, ◌==◌, if◌then◌else◌, Bool-cases,
  ==_iff, List, [], ◌∷◌, ◌++◌, Option, some, none, get_elem?, get_elem?-append_cases, Option-cases,
  subst,
}
use ariadne.Util.{u16}
use ariadne.Interface.{Heap, InterfacePtr, deref}
use ariadne.RoutingTable.{Route, NhAbstract, Entries, RoutingTable}
use ariadne.RoutingTable.NextHops.{
  Numbering, index_route, index_level, index_levels, find_next_hop, build_next_hop_list,
}
use ariadne.RoutingTable.Levels.{printed}

abbrev pub or_else {ℓ} : {A : Type ℓ} → Option A → Option A → Option A
or_else none y = y
or_else (some x) y = some x

or_else_assoc {ℓ} :
    {A : Type ℓ} (x y z : Option A) → or_else (or_else x y) z ≡ or_else x (or_else y z)
or_else_assoc none y z = refl
or_else_assoc (some x) y z = refl

or_else-none {ℓ} : {A : Type ℓ} (x : Option A) → or_else x none ≡ x
or_else-none none = refl
or_else-none (some x) = refl

-- The interface of a route, if the route goes through the address.
abbrev through : Route → ℕ → Option InterfacePtr
through r ip = if r.next_hop == ip then some r.interface else none

abbrev first_of_level : List Route → ℕ → Option InterfacePtr
first_of_level [] ip = none
first_of_level (r ∷ rs) ip = or_else (through r ip) (first_of_level rs ip)

-- The interface of the first route through the address.
abbrev pub gateway : Entries → ℕ → Option InterfacePtr
gateway [] ip = none
gateway (rs ∷ es) ip = or_else (first_of_level rs ip) (gateway es ip)

abbrev via : Option NhAbstract → Option InterfacePtr
via none = none
via (some nh) = some nh.interface

-- No next hop of the mapping stands behind another one with its address.
abbrev IsFirst : List NhAbstract → Type 0
IsFirst m =
    (j : ℕ) (hop : NhAbstract) → get_elem? m j ≡ some hop → find_next_hop m hop.nh_ip ≡ some hop

-- What the numbering adds to the mapping, for routes whose first interfaces are `first`.
record Opens (s s' : Numbering) (first : ℕ → Option InterfacePtr) : Type 0 where
  keeps : IsFirst s.mapping → IsFirst s'.mapping
  opens :
      (ip : ℕ)
      → ip ≢ 0
      → via (find_next_hop s'.mapping ip) ≡ or_else (via (find_next_hop s.mapping ip)) (first ip)

Opens-nothing : (s : Numbering) → Opens s s (λ ip. none)
Opens-nothing s = record {
  keeps = λ h. h;
  opens = λ ip n. sym (or_else-none (via (find_next_hop s.mapping ip)));
}

Opens-trans :
    (s s1 s2 : Numbering) (f g : ℕ → Option InterfacePtr)
    → Opens s s1 f
    → Opens s1 s2 g
    → Opens s s2 (λ ip. or_else (f ip) (g ip))
Opens-trans s s1 s2 f g x y = record {
  keeps = λ h. y.keeps (x.keeps h);
  opens = λ ip n.
      y.opens ip n
      ∙ ap (λ z. or_else z (g ip)) (x.opens ip n)
      ∙ or_else_assoc (via (find_next_hop s.mapping ip)) (f ip) (g ip);
}

-- A next hop at the end of the mapping.
find_next_hop-append_last :
    (m : List NhAbstract) (nh : NhAbstract) (ip : ℕ)
    → find_next_hop (m ++ nh ∷ []) ip
      ≡ or_else (find_next_hop m ip) (if nh.nh_ip == ip then some nh else none)
unfolding find_next_hop
find_next_hop-append_last [] nh ip = refl
find_next_hop-append_last (x ∷ m) nh ip =
    let later = find_next_hop-append_last m nh ip in
    elim (Bool-cases (x.nh_ip == ip)) [ inl e ↦ rw e refl | inr e ↦ rw e later ]

via-or_else :
    (x : Option NhAbstract) (nh : NhAbstract) (ip : ℕ)
    → via (or_else x (if nh.nh_ip == ip then some nh else none))
      ≡ or_else (via x) (if nh.nh_ip == ip then some nh.interface else none)
via-or_else (some x) nh ip = refl
via-or_else none nh ip = elim (Bool-cases (nh.nh_ip == ip)) [
  | inl e ↦ rw e refl
  | inr e ↦ rw e refl
]

IsFirst-append :
    (m : List NhAbstract) (nh : NhAbstract)
    → find_next_hop m nh.nh_ip ≡ none
    → IsFirst m
    → IsFirst (m ++ nh ∷ [])
IsFirst-append m nh new h j hop e = elim (get_elem?-append_cases m nh j hop e) [
  | inl old ↦ rw (find_next_hop-append_last m nh hop.nh_ip) (rw (h j hop old) refl)
  | inr (_, same) ↦
      let own : (nh.nh_ip == nh.nh_ip) ≡ true = (==_iff nh.nh_ip nh.nh_ip).1 refl in
      let found : find_next_hop (m ++ nh ∷ []) nh.nh_ip ≡ some nh =
        rw (find_next_hop-append_last m nh nh.nh_ip) (rw (new, own) refl) in
      subst (λ z. find_next_hop (m ++ nh ∷ []) z.nh_ip ≡ some z) (sym same) found
]

-- A route that adds nothing to the mapping: it is connected, or its next hop is there.
Opens-known :
    (s : Numbering) (r : Route)
    → ((ip : ℕ)
        → ip ≢ 0
        → (r.next_hop == ip) ≡ true
        → (nh : NhAbstract) × (find_next_hop s.mapping ip ≡ some nh))
    → Opens s s (through r)
Opens-known s r h = record {
  keeps = λ x. x;
  opens = λ ip n. elim (Bool-cases (r.next_hop == ip)) [
    | inr e ↦ rw e (sym (or_else-none (via (find_next_hop s.mapping ip))))
    | inl e ↦ let (nh, found) = h ip n e in rw found refl
  ];
}

Opens-new :
    (s : Numbering) (r : Route) (k : ℕ)
    → find_next_hop s.mapping r.next_hop ≡ none
    → Opens s
        (record {
          mapping =
              s.mapping
              ++ record { nh_ip = r.next_hop; interface = r.interface; index = s.next_index } ∷ [];
          next_index = k;
        })
        (through r)
Opens-new s r k new =
    let nh : NhAbstract = record {
      nh_ip = r.next_hop;
      interface = r.interface;
      index = s.next_index;
    } in
    record {
      keeps = IsFirst-append s.mapping nh new;
      opens = λ ip n.
          ap via (find_next_hop-append_last s.mapping nh ip)
          ∙ via-or_else (find_next_hop s.mapping ip) nh ip;
    }

index_route-Opens :
    (heap : Heap) (r r' : Route) (s s' : Numbering)
    → index_route heap r s ≡ some (r', s')
    → Opens s s' (through r')
unfolding index_route
index_route-Opens heap r r' s s' h = elim (Bool-cases (r.next_hop == 0)) [
  | inl t ↦ elim (Option-cases (deref heap r.interface)) [
    | inl e ↦ absurd (ground arith)
    | inr (i, e) ↦
        let q : s' ≡ s = ground (arith, t, e) in
        let z : r'.next_hop ≡ 0 = ground (arith, t, e) in
        rw q (Opens-known s r' (λ ip n same. absurd (n (sym ((==_iff _ _).0 same) ∙ z))))
  ]
  | inr t ↦ elim (Option-cases (find_next_hop s.mapping r.next_hop)) [
    | inr (nh, e) ↦
        let q : s' ≡ s = ground (arith, t, e) in
        let z : r.next_hop ≡ r'.next_hop = ground (arith, t, e) in
        rw q (
          Opens-known s r'
            (λ ip n same. (nh, ap (find_next_hop s.mapping) (sym (z ∙ (==_iff _ _).0 same)) ∙ e)))
    | inl e ↦
        let q : s' ≡ record {
          mapping =
              s.mapping
              ++ record { nh_ip = r.next_hop; interface = r.interface; index = s.next_index } ∷ [];
          next_index = u16 (s.next_index + 1);
        } =
          ground (arith, t, e) in
        let z : r' ≡ record r { index = s.next_index } = ground (arith, t, e) in
        rw (q, z) (Opens-new s r (u16 (s.next_index + 1)) e)
  ]
]

index_level-Opens :
    (heap : Heap) (rs rs' : List Route) (s s' : Numbering)
    → index_level heap rs s ≡ some (rs', s')
    → Opens s s' (first_of_level rs')
unfolding index_level
index_level-Opens heap [] rs' s s' h =
    let q : s' ≡ s = ground arith in let z : rs' ≡ [] = ground arith in rw (q, z) (Opens-nothing s)
index_level-Opens heap (r ∷ rs) rs' s s' h = elim (Option-cases (index_route heap r s)) [
  | inl e ↦ absurd (ground (arith, e))
  | inr ((r1, s1), e) ↦ elim (Option-cases (index_level heap rs s1)) [
    | inl e' ↦ absurd (ground (arith, e, e'))
    | inr ((rs2, s2), e') ↦
        let q : s' ≡ s2 = ground (arith, e, e') in
        let z : rs' ≡ r1 ∷ rs2 = ground (arith, e, e') in
        rw (q, z)
          (Opens-trans s s1 s2 (through r1) (first_of_level rs2)
            (index_route-Opens heap r r1 s s1 e) (index_level-Opens heap rs rs2 s1 s2 e'))
  ]
]

index_levels-Opens :
    (heap : Heap) (es es' : Entries) (s s' : Numbering)
    → index_levels heap es s ≡ some (es', s')
    → Opens s s' (gateway es')
unfolding index_levels
index_levels-Opens heap [] es' s s' h =
    let q : s' ≡ s = ground arith in let z : es' ≡ [] = ground arith in rw (q, z) (Opens-nothing s)
index_levels-Opens heap (rs ∷ es) es' s s' h = elim (Option-cases (index_level heap rs s)) [
  | inl e ↦ absurd (ground (arith, e))
  | inr ((rs1, s1), e) ↦ elim (Option-cases (index_levels heap es s1)) [
    | inl e' ↦ absurd (ground (arith, e, e'))
    | inr ((es2, s2), e') ↦
        let q : s' ≡ s2 = ground (arith, e, e') in
        let z : es' ≡ rs1 ∷ es2 = ground (arith, e, e') in
        rw (q, z)
          (Opens-trans s s1 s2 (first_of_level rs1) (gateway es2)
            (index_level-Opens heap rs rs1 s s1 e) (index_levels-Opens heap es es2 s1 s2 e'))
  ]
]

-- A next hop of the mapping has the interface of the first route through its address.
abbrev pub HasGateways : Entries → List NhAbstract → Type 0
HasGateways es m =
    (j : ℕ) (hop : NhAbstract)
    → get_elem? m j ≡ some hop
    → hop.nh_ip ≢ 0
    → gateway es hop.nh_ip ≡ some hop.interface

gateways_of :
    (es : Entries) (s s' : Numbering)
    → s.mapping ≡ []
    → Opens s s' (gateway es)
    → HasGateways es s'.mapping
unfolding find_next_hop
gateways_of es s s' fresh x j hop e n =
    let none_yet : IsFirst s.mapping = rw fresh (λ i nh absent. absurd (ground (arith, absent))) in
    let none_known : find_next_hop s.mapping hop.nh_ip ≡ none = rw fresh refl in
    sym (x.opens hop.nh_ip n ∙ rw none_known refl) ∙ ap via (x.keeps none_yet j hop e)

pub build_next_hop_list-HasGateways :
    (heap : Heap) (t t' : RoutingTable)
    → t.next_hop_mapping ≡ []
    → build_next_hop_list heap t ≡ some t'
    → HasGateways t'.entries t'.next_hop_mapping
unfolding build_next_hop_list
build_next_hop_list-HasGateways heap t t' fresh h =
    let s : Numbering = record { mapping = t.next_hop_mapping; next_index = 0 } in
    elim (Option-cases (index_levels heap t.entries s)) [
      | inl e ↦ absurd (ground arith)
      | inr ((es, s'), e) ↦
          let same : t' ≡ record { entries = es; next_hop_mapping = s'.mapping } =
            printed heap es s' t' (ground arith) in
          rw same (gateways_of es s s' fresh (index_levels-Opens heap t.entries es s s' e))
    ]
