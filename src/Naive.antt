-- ===== src/Naive.antt =====
-- include/naive.hpp and src/naive.cpp: longest prefix match by a scan of all routes.
-- `none` is an access beyond the end of a vector.
use ariadne.Base.{
  ℕ, zero, suc, ◌*◌, ◌/◌, ◌^◌, bit_and, bit_or, ◌==◌, if◌then◌else◌, List, [], ◌∷◌, Option, some,
  none, get_elem?,
}
use ariadne.RoutingTable.{Route, Entries, nh_invalid}

-- The constructor's loop over `masks`: each round stores the mask, then shifts it and sets the
-- top bit.
unfoldable pub masks_from : ℕ → ℕ → List ℕ
masks_from zero mask = []
masks_from (suc left) mask = mask ∷ masks_from left (bit_or (mask / 2 ^ 1) (1 * 2 ^ 31))

pub record Naive : Type 0 where
  pub entries : Entries
  pub masks : List ℕ

unfoldable pub make_naive : Entries → Naive
unfolding masks_from
make_naive entries = record { entries = entries; masks = masks_from 33 0 }

-- The inner loop, at one prefix length: the first route whose base is the masked address.
unfoldable pub first_match : List Route → ℕ → Option ℕ
first_match [] masked = none
first_match (r ∷ rs) masked = if r.base == masked then some r.index else first_match rs masked

-- The outer loop: `left` rounds are to come, the next one at len = left - 1.
unfoldable pub route_from : Naive → ℕ → ℕ → Option ℕ
route_from n zero addr = some nh_invalid
route_from n (suc len) addr =
    let shorter = route_from n len addr in
    elim (get_elem? n.entries len) [
      | none ↦ none
      | some rs ↦ elim (get_elem? n.masks len) [
        | none ↦ none
        | some mask ↦ elim (first_match rs (bit_and addr mask)) [
          | some index ↦ some index
          | none ↦ shorter
        ]
      ]
    ]

-- `Naive::route`.
unfoldable pub route : Naive → ℕ → Option ℕ
unfolding route_from first_match
route n addr = route_from n 33 addr
