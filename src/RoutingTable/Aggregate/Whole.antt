-- ===== src/RoutingTable/Aggregate/Whole.antt =====
-- The whole of `aggregate` in src/routingTable.cpp, over the prefix lengths.
use ariadne.Base.{
  ℕ, zero, suc, ◌+◌, ◌^◌, ◌≤◌, ◌<◌, ◌≡◌, inl, inr, refl, ◌∙◌, arith, ltb, Bool-cases, List, [], ◌∷◌,
  length, get_elem?, get_or, get_elem?-eq-get_or, get_elem?-set_ne, length-set, set, some, none,
  ◌⊎◌,
}
use ariadne.RoutingTable.{Route, Entries}
use ariadne.RoutingTable.Aggregate.Merging.{MergedTo, LoneSiblings, length-sort, merge_start}
use ariadne.RoutingTable.Runs.{num_routes}
use ariadne.RoutingTable.Aggregate.{sort, merged, beyond_end, out_of_fuel, aggregate_level}

-- The table after the loop, or how it does not end.
pub data Aggregated : Type 0 where
  aggregated : Entries → Aggregated
  past_end : Aggregated
  no_fuel : Aggregated

-- A round takes at most one route more than the level has.
abbrev pub level_fuel : List Route → ℕ
level_fuel rs = length rs + 1

-- The outer loop; `len` is the first argument and goes down to 1. The level above is the one of
-- the next shorter length.
unfoldable pub aggregate_from : ℕ → Entries → Aggregated
aggregate_from zero es = aggregated es
aggregate_from (suc shorter) es = elim (get_elem? es (suc shorter)) [
  | none ↦ past_end
  | some rs ↦ elim (get_elem? es shorter) [
    | none ↦ past_end
    | some above ↦ elim (aggregate_level (level_fuel rs) (suc shorter) rs above) [
      | merged rs' above' ↦ aggregate_from shorter (set (set es (suc shorter) rs') shorter above')
      | beyond_end ↦ past_end
      | out_of_fuel ↦ no_fuel
    ]
  ]
]

unfoldable pub aggregate : Entries → Aggregated
unfolding aggregate_from
aggregate es = aggregate_from 30 es

aggregate_level_ends :
    (len : ℕ) (rs above : List Route)
    → length rs < 2 ^ 32
    → MergedTo (length rs + length above) (aggregate_level (level_fuel rs) len rs above)
      ⊎ (LoneSiblings len rs × (aggregate_level (level_fuel rs) len rs above ≡ beyond_end))
unfolding aggregate_level
aggregate_level_ends len rs above small =
    let size = length-sort rs in
    elim (Bool-cases (ltb (length (sort rs)) 2)) [
      | inl t ↦ rw t (inl (sort rs, above, refl, omega (arith, size)))
      | inr t ↦ rw t (
          merge_start (level_fuel rs) len (length rs + length above) (sort rs) above
            (ground (arith, t)) (omega (arith, size)) (omega (arith, size)) (omega (arith, size)))
    ]

num_routes-set :
    (es : Entries) (i : ℕ) (old new : List Route)
    → get_elem? es i ≡ some old
    → num_routes (set es i new) + length old ≡ num_routes es + length new
num_routes-set [] i old new h = cc
num_routes-set (rs ∷ es) zero old new h = ground arith
num_routes-set (rs ∷ es) (suc i) old new h = omega (arith, num_routes-set es i old new h)

num_routes-get :
    (es : Entries) (i : ℕ) (rs : List Route) → get_elem? es i ≡ some rs → length rs ≤ num_routes es
num_routes-get [] i rs h = cc
num_routes-get (q ∷ es) zero rs h = ground arith
num_routes-get (q ∷ es) (suc i) rs h = omega (arith, num_routes-get es i rs h)

-- From `es` the loop over the lengths comes to the length `len` with the table `es'`.
pub data Reaches (es : Entries) : ℕ → Entries → Type 0 where
  start : Reaches es 30 es
  round :
      {shorter : ℕ} {es1 : Entries} {rs above : List Route}
      → Reaches es (suc shorter) es1
      → aggregate_level
          (level_fuel (get_or es1 (suc shorter) []))
          (suc shorter)
          (get_or es1 (suc shorter) [])
          (get_or es1 shorter [])
        ≡ merged rs above
      → Reaches es shorter (set (set es1 (suc shorter) rs) shorter above)

-- The loops have come to their tests, with no more routes than before; or the loop over the lengths
-- comes to a level that has two sibling routes and no other, and reads beyond its end.
pub data Outcome (es : Entries) : Aggregated → Type 0 where
  finishes :
      {es' : Entries}
      → Reaches es 0 es'
      → num_routes es' ≤ num_routes es
      → length es' ≡ length es
      → Outcome es (aggregated es')
  reads_past :
      (shorter : ℕ) (es1 : Entries)
      → Reaches es (suc shorter) es1
      → LoneSiblings (suc shorter) (get_or es1 (suc shorter) [])
      → Outcome es past_end

aggregate_from-Outcome :
    (es0 : Entries) (len : ℕ) (es : Entries)
    → Reaches es0 len es
    → num_routes es ≤ num_routes es0
    → length es ≡ length es0
    → num_routes es0 < 2 ^ 32
    → len < length es
    → Outcome es0 (aggregate_from len es)
unfolding aggregate_from
aggregate_from-Outcome es0 zero es way few size small inside = finishes way few size
aggregate_from-Outcome es0 (suc shorter) es way few size small inside =
    let rs = get_or es (suc shorter) [] in
    let e = get_elem?-eq-get_or es (suc shorter) [] inside in
    let above = get_or es shorter [] in
    let e' = get_elem?-eq-get_or es shorter [] (omega arith) in
    let fits = num_routes-get es (suc shorter) rs e in
    elim (aggregate_level_ends (suc shorter) rs above (omega (arith, fits))) [
      | inl (rs1, above1, r, fewer) ↦
          let es1 = set (set es (suc shorter) rs1) shorter above1 in
          let still : get_elem? (set es (suc shorter) rs1) shorter ≡ some above =
            get_elem?-set_ne es (suc shorter) shorter rs1 (λ z. omega arith) ∙ e' in
          let few1 : num_routes es1 ≤ num_routes es0 = omega (
            arith,
            fewer,
            num_routes-set es (suc shorter) rs rs1 e,
            num_routes-set (set es (suc shorter) rs1) shorter above above1 still,
          ) in
          let size1 : length es1 ≡ length es =
            length-set (set es (suc shorter) rs1) shorter above1
            ∙ length-set es (suc shorter) rs1 in
          rw (e, aggregate_from)
            (rw (e', aggregate_from)
              (rw (r, aggregate_from)
                (aggregate_from-Outcome es0 shorter es1 (round way r) few1 (size1 ∙ size) small
                  (omega (arith, size1)))))
      | inr (alone, r) ↦
          rw (e, aggregate_from)
            (rw (e', aggregate_from) (rw (r, aggregate_from) (reads_past shorter es way alone)))
    ]

-- On a table of 33 levels with fewer than 2 ^ 32 routes `aggregate` ends, the loop of each length
-- after at most one round more than it has routes. Either every loop reaches its test, and the
-- table has 33 levels with in all no more routes than before; or the loop over the lengths comes to a
-- level that has two routes, which are siblings, and reads beyond its end. Nothing else makes it read
-- out of range.
pub aggregate_ends :
    (es : Entries) → length es ≡ 33 → num_routes es < 2 ^ 32 → Outcome es (aggregate es)
unfolding aggregate
aggregate_ends es size small =
    aggregate_from-Outcome es 30 es start (omega arith) refl small (omega (arith, size))
