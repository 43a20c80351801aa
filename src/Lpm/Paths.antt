-- ===== src/Lpm/Paths.antt =====
-- What the trie of src/basicTrie.cpp holds on the path of an address: one leaf for each depth.
use ariadne.Base.{
  ℕ, zero, suc, ◌+◌, ◌≤◌, ◌≡◌, refl, max, ◌&&◌, ◌==◌, if◌then◌else◌, arith, true, false, List, [],
  ◌∷◌,
}
use ariadne.Util.{extract_bit}
use ariadne.RoutingTable.{Route, nh_invalid}
use ariadne.BasicTrie.{Trie, null, node, insert, insert_all}
use ariadne.Lpm.Prefix.{same_path}

-- Nodes on the longest way down.
unfoldable pub height : Trie → ℕ
height null = 0
height (node l r leaf) = suc (max (height l) (height r))

module _ (shifted_out : ℕ → ℕ) where
  -- The leaf at depth `d` below a node at depth `pos`, on the way of `addr`.
  unfoldable pub leaf_at : Trie → ℕ → ℕ → ℕ → ℕ
  leaf_at null d pos addr = nh_invalid
  leaf_at (node l r leaf) zero pos addr = leaf
  leaf_at (node l r leaf) (suc d) pos addr = elim (extract_bit shifted_out addr pos == 0) [
    | true ↦ leaf_at l d (pos + 1) addr
    | false ↦ leaf_at r d (pos + 1) addr
  ]

  pub leaf_at_left :
      (l r : Trie) (v d pos addr : ℕ)
      → (extract_bit shifted_out addr pos == 0) ≡ true
      → leaf_at (node l r v) (suc d) pos addr ≡ leaf_at l d (pos + 1) addr
  unfolding leaf_at
  leaf_at_left l r v d pos addr h = ground arith

  pub leaf_at_right :
      (l r : Trie) (v d pos addr : ℕ)
      → (extract_bit shifted_out addr pos == 0) ≡ false
      → leaf_at (node l r v) (suc d) pos addr ≡ leaf_at r d (pos + 1) addr
  unfolding leaf_at
  leaf_at_right l r v d pos addr h = ground arith

  -- An insertion writes one leaf, on the way of the inserted base.
  pub leaf_at-insert :
      (left level base index : ℕ) (t : Trie) (d addr : ℕ)
      → leaf_at (insert shifted_out left level base index t) d level addr ≡ (
          if d == left && same_path shifted_out base addr level left
          then index
          else leaf_at t d level addr)
  unfolding leaf_at insert same_path
  leaf_at-insert zero level base index null zero addr = refl
  leaf_at-insert zero level base index null (suc d) addr = ground arith
  leaf_at-insert zero level base index (node l r v) zero addr = refl
  leaf_at-insert zero level base index (node l r v) (suc d) addr = ground arith
  leaf_at-insert (suc left) level base index null zero addr = ground arith
  leaf_at-insert (suc left) level base index null (suc d) addr =
      ground (arith, leaf_at-insert left (level + 1) base index null d addr)
  leaf_at-insert (suc left) level base index (node l r v) zero addr = ground arith
  leaf_at-insert (suc left) level base index (node l r v) (suc d) addr = ground (
    arith,
    leaf_at-insert left (level + 1) base index l d addr,
    leaf_at-insert left (level + 1) base index r d addr,
  )

  height-insert :
      (left level base index : ℕ) (t : Trie)
      → height (insert shifted_out left level base index t) ≤ max (height t) (suc left)
  unfolding height insert
  height-insert zero level base index null = omega arith
  height-insert zero level base index (node l r v) = omega arith
  height-insert (suc left) level base index null =
      ground (arith, height-insert left (level + 1) base index null)
  height-insert (suc left) level base index (node l r v) = ground (
    arith,
    height-insert left (level + 1) base index l,
    height-insert left (level + 1) base index r,
  )

  -- The last route of a level that leads the way of the address, else `acc`.
  unfoldable pub last_match : List Route → ℕ → ℕ → ℕ → ℕ
  last_match [] addr len acc = acc
  last_match (r ∷ rs) addr len acc =
      last_match rs addr len (if same_path shifted_out r.base addr 0 len then r.index else acc)

  pub leaf_at-insert_all :
      (len : ℕ) (rs : List Route) (t : Trie) (d addr : ℕ)
      → leaf_at (insert_all shifted_out len rs t) d 0 addr
        ≡ (if d == len then last_match rs addr len (leaf_at t d 0 addr) else leaf_at t d 0 addr)
  unfolding insert_all last_match
  leaf_at-insert_all len [] t d addr = ground arith
  leaf_at-insert_all len (r ∷ rs) t d addr = ground (
    arith,
    leaf_at-insert_all len rs (insert shifted_out len 0 r.base r.index t) d addr,
    leaf_at-insert len 0 r.base r.index t d addr,
  )

  pub height-insert_all :
      (len : ℕ) (rs : List Route) (t : Trie)
      → height t ≤ 33
      → len ≤ 32
      → height (insert_all shifted_out len rs t) ≤ 33
  unfolding insert_all
  height-insert_all len [] t h l = h
  height-insert_all len (r ∷ rs) t h l =
      height-insert_all len rs (insert shifted_out len 0 r.base r.index t)
        (omega (arith, height-insert len 0 r.base r.index t)) l
