-- ===== src/RoutingTable/Aggregate/Merging.antt =====
-- How the loop over one level ends in `aggregate` of src/routingTable.cpp.
use ariadne.Base.{
  ℕ, zero, suc, ◌+◌, ◌^◌, ◌≤◌, ◌<◌, ◌≡◌, inl, inr, refl, ap, ◌∙◌, arith, ltb, true, Bool-cases,
  List, [], ◌∷◌, ◌++◌, length, length-append, get_or, get_elem?-eq-get_or, ◌⊎◌,
}
use ariadne.Util.{u32}
use ariadne.RoutingTable.{Route, new_route}
use ariadne.RoutingTable.Aggregate.{
  insert_sorted, sort, are_siblings, parent, erase_two, Merged, merged, beyond_end, last_index,
  merge_level,
}

length-insert_sorted : (r : Route) (rs : List Route) → length (insert_sorted r rs) ≡ suc (length rs)
unfolding insert_sorted
length-insert_sorted r [] = refl
length-insert_sorted r (q ∷ rs) = ground (arith, length-insert_sorted r rs)

pub length-sort : (rs : List Route) → length (sort rs) ≡ length rs
unfolding sort
length-sort [] = refl
length-sort (r ∷ rs) = length-insert_sorted r (sort rs) ∙ ap suc (length-sort rs)

length-erase_two :
    (rs : List Route) (i : ℕ) → i + 1 < length rs → length (erase_two rs i) + 2 ≡ length rs
length-erase_two [] i h = absurd (omega arith)
length-erase_two (r ∷ []) i h = absurd (omega arith)
length-erase_two (r ∷ q ∷ rs) zero h = omega arith
length-erase_two (r ∷ q ∷ rs) (suc i) h = omega (arith, length-erase_two (q ∷ rs) i (omega arith))

-- The loop of a level came to its test, with at most `n` routes on the two levels.
abbrev pub MergedTo : ℕ → Merged → Type 0
MergedTo n m =
    (rs : List Route) × (above : List Route) × (m ≡ merged rs above)
    × (length rs + length above ≤ n)

-- The level has two routes, and they are siblings.
abbrev pub LoneSiblings : ℕ → List Route → Type 0
LoneSiblings len rs =
    (a : Route) × (b : Route) × (sort rs ≡ a ∷ b ∷ []) × (are_siblings len a b ≡ true)

-- Behind the first position a route stays, so that `size() - 1` does not wrap around.
merge_rest :
    (fuel len i n : ℕ) (rs above : List Route)
    → 0 < fuel
    → 1 ≤ i
    → 1 ≤ length rs
    → length rs < 2 ^ 32
    → length rs ≤ fuel + i
    → length rs + length above ≤ n
    → MergedTo n (merge_level fuel len i rs above)
unfolding merge_level
merge_rest zero len i n rs above some_fuel behind left small enough few = absurd (omega arith)
merge_rest (suc fuel) len i n rs above some_fuel behind left small enough few =
    elim (Bool-cases (ltb i (last_index rs))) [
      | inr f ↦ rw (f, merge_level) (rs, above, refl, few)
      | inl t ↦
          let below : i + 1 < length rs = ground arith in
          let a = get_or rs i new_route in
          let b = get_or rs (i + 1) new_route in
          let e = get_elem?-eq-get_or rs i new_route (omega (arith, below)) in
          let e' = get_elem?-eq-get_or rs (i + 1) new_route below in
          let low : u32 (i + 1) ≡ i + 1 = omega (arith, below) in
          let shorter = length-erase_two rs i below in
          elim (Bool-cases (are_siblings len a b)) [
            | inl s ↦
                let rest =
                  merge_rest fuel len (u32 (i + 1)) n (erase_two rs i) (above ++ parent len a ∷ [])
                    (omega arith) (omega arith) (omega arith) (omega arith) (omega arith)
                    (omega (arith, length-append above (parent len a ∷ []))) in
                rw (t, merge_level)
                  (rw (e, merge_level) (rw (e', merge_level) (rw (s, merge_level) rest)))
            | inr s ↦
                let rest =
                  merge_rest fuel len (u32 (i + 1)) n rs above (omega arith) (omega arith) left
                    small (omega arith) few in
                rw (t, merge_level)
                  (rw (e, merge_level) (rw (e', merge_level) (rw (s, merge_level) rest)))
          ]
    ]

-- From the first position on, only two siblings alone lead beyond the end.
pub merge_start :
    (fuel len n : ℕ) (rs above : List Route)
    → 2 ≤ length rs
    → length rs < 2 ^ 32
    → length rs < fuel
    → length rs + length above ≤ n
    → MergedTo n (merge_level fuel len 0 rs above)
      ⊎ (((a : Route) × (b : Route) × (rs ≡ a ∷ b ∷ []) × (are_siblings len a b ≡ true))
          × (merge_level fuel len 0 rs above ≡ beyond_end))
unfolding merge_level
merge_start fuel len n [] above two small enough few = absurd (omega arith)
merge_start fuel len n (a ∷ []) above two small enough few = absurd (omega arith)
merge_start zero len n (a ∷ b ∷ rs) above two small enough few = absurd (omega arith)
merge_start (suc zero) len n (a ∷ b ∷ rs) above two small enough few = absurd (omega arith)
merge_start (suc (suc fuel)) len n (a ∷ b ∷ []) above two small enough few =
    elim (Bool-cases (are_siblings len a b)) [
      | inl s ↦ inr ((a, b, refl, s), rw (s, merge_level) refl)
      | inr s ↦
          let rest =
            merge_rest (suc fuel) len 1 n (a ∷ b ∷ []) above (omega arith) (omega arith)
              (omega arith) small (omega arith) few in
          inl (rw (s, merge_level) rest)
    ]
merge_start (suc (suc fuel)) len n (a ∷ b ∷ c ∷ rs) above two small enough few =
    let t : ltb 0 (last_index (a ∷ b ∷ c ∷ rs)) ≡ true = ground arith in
    elim (Bool-cases (are_siblings len a b)) [
      | inr s ↦
          let rest =
            merge_rest (suc fuel) len 1 n (a ∷ b ∷ c ∷ rs) above (omega arith) (omega arith)
              (omega arith) small (omega arith) few in
          inl (rw (t, merge_level) (rw (s, merge_level) rest))
      | inl s ↦
          let rest =
            merge_rest (suc fuel) len 1 n (c ∷ rs) (above ++ parent len a ∷ []) (omega arith)
              (omega arith) (omega arith) (omega arith) (omega arith)
              (omega (arith, length-append above (parent len a ∷ []))) in
          inl (rw (t, merge_level) (rw (s, merge_level) rest))
    ]
