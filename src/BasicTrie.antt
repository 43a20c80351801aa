-- ===== src/BasicTrie.antt =====
-- include/basicTrie.hpp and src/basicTrie.cpp: longest prefix match by a binary trie.
-- A tree of the `Internal` nodes is a value; `null` is the null pointer. The field `parent` is
-- written and never read, so it is left out. `none` is an access beyond the end of a vector.
use ariadne.Base.{
  ℕ, zero, suc, ◌+◌, ◌==◌, if◌then◌else◌, true, false, List, [], ◌∷◌, Option, some, none, get_elem?,
}
use ariadne.Util.{extract_bit}
use ariadne.RoutingTable.{Route, Entries, nh_invalid}

pub data Trie : Type 0 where
  null : Trie
  node : (left right : Trie) (leaf : ℕ) → Trie

-- The constructor of `Internal`, without children.
abbrev pub new_internal : Trie
new_internal = node null null nh_invalid

-- What an undefined shift yields (`extract_bit`) is a parameter of everything below.
module _ (shifted_out : ℕ → ℕ) where
  -- The loop over `level` for one route: `left` levels are to come, `level` were passed; at a
  -- null child a node is made. At the end the leaf is overwritten.
  unfoldable pub insert : ℕ → ℕ → ℕ → ℕ → Trie → Trie
  insert zero level base index null = node null null index
  insert zero level base index (node l r leaf) = node l r index
  insert (suc left) level base index null = elim (extract_bit shifted_out base level == 0) [
    | true ↦ node (insert left (level + 1) base index null) null nh_invalid
    | false ↦ node null (insert left (level + 1) base index null) nh_invalid
  ]
  insert (suc left) level base index (node l r leaf) =
      elim (extract_bit shifted_out base level == 0) [
        | true ↦ node (insert left (level + 1) base index l) r leaf
        | false ↦ node l (insert left (level + 1) base index r) leaf
      ]

  -- The routes of one prefix length, in order.
  unfoldable pub insert_all : ℕ → List Route → Trie → Trie
  insert_all len [] t = t
  insert_all len (r ∷ rs) t = insert_all len rs (insert len 0 r.base r.index t)

  -- The loop over `len`: `left` rounds are to come.
  unfoldable pub build_from : Entries → ℕ → ℕ → Trie → Option Trie
  build_from tbl zero len t = some t
  build_from tbl (suc left) len t = elim (get_elem? tbl len) [
    | none ↦ none
    | some rs ↦ build_from tbl left (len + 1) (insert_all len rs t)
  ]

  -- `buildTrie`.
  unfoldable pub build_trie : Entries → Option Trie
  unfolding insert insert_all build_from
  build_trie tbl = build_from tbl 33 0 new_internal

  -- The loop `while(next)`: `next` stands at depth `pos + 1`, and `last_leaf` is the result so far.
  unfoldable pub walk : Trie → ℕ → ℕ → ℕ → ℕ
  walk null pos addr last_leaf = last_leaf
  walk (node l r leaf) pos addr last_leaf =
      let kept = if leaf == nh_invalid then last_leaf else leaf in
      elim (extract_bit shifted_out addr (pos + 1) == 0) [
        | true ↦ walk l (pos + 1) addr kept
        | false ↦ walk r (pos + 1) addr kept
      ]

  -- `BasicTrie::route`. The root exists in every trie that `build_trie` returns.
  unfoldable pub route : Trie → ℕ → ℕ
  unfolding walk
  route null addr = nh_invalid
  route (node l r leaf) addr =
      if extract_bit shifted_out addr 0 == 0 then walk l 0 addr leaf else walk r 0 addr leaf
