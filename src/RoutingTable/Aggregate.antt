-- ===== src/RoutingTable/Aggregate.antt =====
-- src/routingTable.cpp, `aggregate`: sibling prefixes of one next hop become their parent.
pub mod Merging
pub mod Whole
use ariadne.Base.{
  ℕ, zero, suc, ◌+◌, ◌-◌, ◌*◌, ◌%◌, ◌^◌, ◌≤◌, ◌<◌, ◌≡◌, inl, inr, refl, sym, ap, ◌∙◌, arith, ◌==◌,
  ltb, if◌then◌else◌, ◌&&◌, bit_and, bit_xor, Bool, true, false, Bool-cases, List, [], ◌∷◌, ◌++◌,
  length, get_elem?, get_or, get_elem?-eq-get_or, some, none,
}
use ariadne.Util.{u32, not_bits}
use ariadne.Interface.{InterfacePtr}
use ariadne.RoutingTable.{Route, new_route, route_lt}

-- `sort` with `operator<`. `std::sort` leaves open in which order routes with one base come; this
-- insertion reverses them.
unfoldable pub insert_sorted : Route → List Route → List Route
unfolding route_lt
insert_sorted r [] = r ∷ []
insert_sorted r (q ∷ rs) = if route_lt r q then r ∷ q ∷ rs else q ∷ insert_sorted r rs

unfoldable pub sort : List Route → List Route
unfolding insert_sorted
sort [] = []
sort (r ∷ rs) = insert_sorted r (sort rs)

abbrev pub same_pointer : InterfacePtr → InterfacePtr → Bool
same_pointer none none = true
same_pointer none (some q) = false
same_pointer (some p) none = false
same_pointer (some p) (some q) = p == q

-- The condition on `first` and `second`.
unfoldable pub are_siblings : ℕ → Route → Route → Bool
are_siblings len a b =
    (bit_xor a.base b.base == 1 * 2 ^ (32 - len))
    && ((a.next_hop == b.next_hop) && same_pointer a.interface b.interface)

-- `newRoute`.
abbrev pub parent : ℕ → Route → Route
parent len a = record {
  base = bit_and a.base (not_bits 32 (1 * 2 ^ (32 - len)));
  next_hop = a.next_hop;
  prefix_length = len - 1;
  interface = a.interface;
  index = a.index;
}

-- `erase(begin() + i, begin() + i + 2)`.
abbrev pub erase_two : List Route → ℕ → List Route
erase_two [] i = []
erase_two (r ∷ []) zero = []
erase_two (r ∷ q ∷ rs) zero = rs
erase_two (r ∷ rs) (suc i) = r ∷ erase_two rs i

-- The two levels after the loop, or a read beyond the end of the vector. Running out of fuel is
-- an outcome of its own.
pub data Merged : Type 0 where
  merged : (level above : List Route) → Merged
  beyond_end : Merged
  out_of_fuel : Merged

-- `size() - 1`, on 64 bits.
abbrev pub last_index : List Route → ℕ
last_index rs = (length rs + 2 ^ 64 - 1) % 2 ^ 64

-- The inner loop of one level, from position `i` on.
unfoldable pub merge_level : ℕ → ℕ → ℕ → List Route → List Route → Merged
unfolding are_siblings
merge_level zero len i rs above = out_of_fuel
merge_level (suc fuel) len i rs above = elim (ltb i (last_index rs)) [
  | false ↦ merged rs above
  | true ↦ elim (get_elem? rs i) [
    | none ↦ beyond_end
    | some first ↦ elim (get_elem? rs (i + 1)) [
      | none ↦ beyond_end
      | some second ↦ elim (are_siblings len first second) [
        | true ↦
            merge_level fuel len (u32 (i + 1)) (erase_two rs i) (above ++ parent len first ∷ [])
        | false ↦ merge_level fuel len (u32 (i + 1)) rs above
      ]
    ]
  ]
]

-- One round of the outer loop: the level is sorted; with fewer than two routes nothing is merged.
unfoldable pub aggregate_level : ℕ → ℕ → List Route → List Route → Merged
unfolding sort merge_level
aggregate_level fuel len rs above =
    if ltb (length (sort rs)) 2
    then merged (sort rs) above
    else merge_level fuel len 0 (sort rs) above

-- No neighbours are siblings.
abbrev pub Apart : ℕ → List Route → Type 0
Apart len [] = Unit
Apart len (r ∷ []) = Unit
Apart len (r ∷ q ∷ rs) = (are_siblings len r q ≡ false) × Apart len (q ∷ rs)

neighbours :
    (len : ℕ) (rs : List Route) (i : ℕ) (a b : Route)
    → Apart len rs
    → get_elem? rs i ≡ some a
    → get_elem? rs (suc i) ≡ some b
    → are_siblings len a b ≡ false
neighbours len [] i a b h e f = cc
neighbours len (r ∷ []) i a b h e f = cc
neighbours len (r ∷ q ∷ rs) zero a b h e f =
    let ea : r ≡ a = ground arith in
    let eb : q ≡ b = ground arith in
    ap (λ x. are_siblings len x b) (sym ea) ∙ ap (are_siblings len r) (sym eb) ∙ h.0
neighbours len (r ∷ q ∷ rs) (suc i) a b h e f = neighbours len (q ∷ rs) i a b h.1 e f

merge_step :
    (fuel len i : ℕ) (rs above : List Route) (a b : Route)
    → ltb i (last_index rs) ≡ true
    → get_elem? rs i ≡ some a
    → get_elem? rs (i + 1) ≡ some b
    → are_siblings len a b ≡ false
    → merge_level (suc fuel) len i rs above ≡ merge_level fuel len (u32 (i + 1)) rs above
unfolding merge_level
merge_step fuel len i rs above a b t e f n =
    rw (t, merge_level) (rw (e, merge_level) (rw (f, merge_level) (rw (n, merge_level) refl)))

merge_stop :
    (fuel len i : ℕ) (rs above : List Route)
    → ltb i (last_index rs) ≡ false
    → merge_level (suc fuel) len i rs above ≡ merged rs above
unfolding merge_level
merge_stop fuel len i rs above t = rw (t, merge_level) refl

merge_nothing :
    (fuel len i : ℕ) (rs above : List Route)
    → Apart len rs
    → 0 < length rs
    → length rs < 2 ^ 32
    → i < length rs
    → length rs ≤ fuel + i
    → merge_level fuel len i rs above ≡ merged rs above
merge_nothing zero len i rs above h pos small at_i enough = absurd (omega arith)
merge_nothing (suc fuel) len i rs above h pos small at_i enough =
    elim (Bool-cases (ltb i (last_index rs))) [
      | inr f ↦ merge_stop fuel len i rs above f
      | inl t ↦
          let below : i + 1 < length rs = ground arith in
          let a = get_or rs i new_route in
          let b = get_or rs (i + 1) new_route in
          let e = get_elem?-eq-get_or rs i new_route at_i in
          let e' = get_elem?-eq-get_or rs (i + 1) new_route below in
          let next : suc i ≡ i + 1 = omega arith in
          let n = neighbours len rs i a b h e (ap (get_elem? rs) next ∙ e') in
          let low : u32 (i + 1) ≡ i + 1 = omega arith in
          merge_step fuel len i rs above a b t e e' n
          ∙ ap (λ (k : ℕ). merge_level fuel len k rs above) low
          ∙ merge_nothing fuel len (i + 1) rs above h pos small below (omega arith)
    ]

-- On a level without sibling neighbours, in the order that the sort gives, the loop ends, on as
-- much fuel as there are routes, without a read beyond the end, and merges nothing.
pub aggregate_level-Apart :
    (fuel len : ℕ) (rs above : List Route)
    → Apart len (sort rs)
    → length (sort rs) < 2 ^ 32
    → length (sort rs) ≤ fuel
    → aggregate_level fuel len rs above ≡ merged (sort rs) above
unfolding aggregate_level
aggregate_level-Apart fuel len rs above h small enough =
    elim (Bool-cases (ltb (length (sort rs)) 2)) [
      | inl t ↦ rw (t) refl
      | inr f ↦ rw (f) (
          merge_nothing fuel len 0 (sort rs) above h (ground arith) small (ground arith)
            (omega (arith, enough)))
    ]

-- Two siblings alone at their level: they are merged, the level is empty, and `size() - 1` wraps
-- around, so that the next round of the loop reads beyond the end.
pub lone_siblings_fault :
    (fuel len : ℕ) (a b : Route) (above : List Route)
    → route_lt a b ≡ true
    → are_siblings len a b ≡ true
    → aggregate_level (suc (suc fuel)) len (a ∷ b ∷ []) above ≡ beyond_end
unfolding aggregate_level sort insert_sorted merge_level
lone_siblings_fault fuel len a b above lt sib =
    let order : sort (a ∷ b ∷ []) ≡ a ∷ b ∷ [] = rw (lt) refl in
    ap
      (λ rs.
        if ltb (length rs) 2 then merged rs above else merge_level (suc (suc fuel)) len 0 rs above)
      order
    ∙ rw (sib, merge_level) refl
