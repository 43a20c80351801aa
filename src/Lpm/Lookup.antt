-- ===== src/Lpm/Lookup.antt =====
-- `buildTrie` and `route` of src/basicTrie.cpp as a scan over the levels of the table.
use ariadne.Base.{
  ℕ, zero, suc, ◌+◌, ◌≤◌, ◌≡◌, refl, sym, ap, ◌∙◌, ◌&&◌, ◌==◌, if◌then◌else◌, arith, Bool-cases,
  inl, inr, ltb, leb, [], some, get_or, length, get_elem?-eq-get_or,
}
use ariadne.Util.{extract_bit}
use ariadne.RoutingTable.{Entries, nh_invalid}
use ariadne.BasicTrie.{
  Trie, null, node, insert_all, build_from, build_trie, walk, route, new_internal,
}
use ariadne.Lpm.Scan.{scan, pick, scan-suc, scan_ext, scan_none, scan_zero}
use ariadne.Lpm.Paths.{
  height, leaf_at, last_match, leaf_at-insert_all, height-insert_all, leaf_at_left, leaf_at_right,
}

module _ (shifted_out : ℕ → ℕ) where
  -- `u` has grown from `t` by the levels from `len` up to, and without, `end`.
  pub record HasLevels (tbl : Entries) (len end : ℕ) (t u : Trie) : Type 0 where
    pub low : height u ≤ 33
    pub leaves :
        (d addr : ℕ)
        → leaf_at shifted_out u d 0 addr ≡ (
            if leb len d && ltb d end
            then last_match shifted_out (get_or tbl d []) addr d (leaf_at shifted_out t d 0 addr)
            else leaf_at shifted_out t d 0 addr)

  build_from-HasLevels :
      (tbl : Entries) (left len : ℕ) (t : Trie)
      → len + left ≤ length tbl
      → len + left ≤ 33
      → height t ≤ 33
      → (u : Trie) × (build_from shifted_out tbl left len t ≡ some u)
        × HasLevels tbl len (len + left) t u
  unfolding build_from
  build_from-HasLevels tbl zero len t fits small low =
      (t, refl, record { low = low; leaves = λ d addr. ground arith })
  build_from-HasLevels tbl (suc left) len t fits small low =
      let rs = get_or tbl len [] in
      let (u, e, v) =
        build_from-HasLevels tbl left (len + 1) (insert_all shifted_out len rs t) (omega arith)
          (omega arith) (height-insert_all shifted_out len rs t low (omega arith)) in
      (
        u,
        rw (get_elem?-eq-get_or tbl len [] (omega arith), build_from) e,
        record {
          low = v.low;
          leaves = λ d addr.
              ground (arith, v.leaves d addr, leaf_at-insert_all shifted_out len rs t d addr);
        },
      )

  pub build_trie-HasLevels :
      (tbl : Entries)
      → length tbl ≡ 33
      → (u : Trie) × (build_trie shifted_out tbl ≡ some u) × HasLevels tbl 0 33 new_internal u
  unfolding build_trie height
  build_trie-HasLevels tbl n =
      build_from-HasLevels tbl 33 0 new_internal (omega arith) (omega arith) (omega arith)

  walk_low : (t : Trie) (pos addr last : ℕ) → height t ≤ 0 → walk shifted_out t pos addr last ≡ last
  unfolding walk height
  walk_low null pos addr last h = refl
  walk_low (node l r v) pos addr last h = absurd (omega arith)

  -- The loop of `route` is the scan of the leaves below.
  walk-scan :
      (t : Trie) (n pos addr last : ℕ)
      → height t ≤ suc n
      → walk shifted_out t pos addr last ≡ scan (λ d. leaf_at shifted_out t d (pos + 1) addr) n last
  unfolding walk height leaf_at
  walk-scan null n pos addr last low =
      sym (scan_none (λ d. leaf_at shifted_out null d (pos + 1) addr) n last (λ d h. refl))
  walk-scan (node l r v) zero pos addr last low =
      let kept = pick v last in
      ground (
        arith,
        walk_low l (pos + 1) addr kept,
        walk_low r (pos + 1) addr kept,
        scan_zero (λ d. leaf_at shifted_out (node l r v) d (pos + 1) addr) last,
      )
  walk-scan (node l r v) (suc n) pos addr last low =
      let kept = pick v last in
      let f = λ (d : ℕ). leaf_at shifted_out (node l r v) d (pos + 1) addr in
      elim (Bool-cases (extract_bit shifted_out addr (pos + 1) == 0)) [
        | inl e ↦
            rw (e, walk)
              (walk-scan l n (pos + 1) addr kept (omega arith)
                ∙ sym
                    (scan_ext _ _ n kept (λ d _. leaf_at_left shifted_out l r v d (pos + 1) addr e))
                ∙ sym (scan-suc f n last))
        | inr e ↦
            rw (e, walk)
              (walk-scan r n (pos + 1) addr kept (omega arith)
                ∙ sym (
                    scan_ext _ _ n kept (λ d _. leaf_at_right shifted_out l r v d (pos + 1) addr e))
                ∙ sym (scan-suc f n last))
      ]

  root_leaf :
      (l r : Trie) (v addr : ℕ) → v ≡ pick (leaf_at shifted_out (node l r v) 0 0 addr) nh_invalid
  unfolding leaf_at
  root_leaf l r v addr = ground arith

  -- `route` returns the deepest valid leaf on the way of the address.
  pub route-scan :
      (l r : Trie) (v addr : ℕ)
      → height (node l r v) ≤ 33
      → route shifted_out (node l r v) addr
        ≡ scan (λ d. leaf_at shifted_out (node l r v) d 0 addr) 32 nh_invalid
  unfolding route height
  route-scan l r v addr low =
      let f = λ (d : ℕ). leaf_at shifted_out (node l r v) d 0 addr in
      let root : v ≡ pick (f 0) nh_invalid = root_leaf l r v addr in
      elim (Bool-cases (extract_bit shifted_out addr 0 == 0)) [
        | inl e ↦ rw (e) (
            walk-scan l 31 0 addr v (omega arith)
            ∙ sym (scan_ext _ _ 31 v (λ d _. leaf_at_left shifted_out l r v d 0 addr e))
            ∙ ap (scan (λ d. f (suc d)) 31) root
            ∙ sym (scan-suc f 31 nh_invalid))
        | inr e ↦ rw (e) (
            walk-scan r 31 0 addr v (omega arith)
            ∙ sym (scan_ext _ _ 31 v (λ d _. leaf_at_right shifted_out l r v d 0 addr e))
            ∙ ap (scan (λ d. f (suc d)) 31) root
            ∙ sym (scan-suc f 31 nh_invalid))
      ]
