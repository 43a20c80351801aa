-- ===== src/Lpm/Routing.antt =====
-- The lookups of src/naive.cpp and src/basicTrie.cpp as a whole: each succeeds and finds the
-- longest matching prefix; they agree where no level holds a base twice.
use mathlib.Core.Option
use ariadne.Base.{
  ℕ, zero, suc, ◌-◌, ◌≤◌, ◌<◌, ◌^◌, ◌≡◌, ◌≢◌, inl, inr, refl, sym, ap, ◌∙◌, subst, arith, [], ◌∷◌,
  get_or, Option, some, none, get_elem?, get_elem?-eq-get_or,
}
use ariadne.RoutingTable.{Route, Entries, nh_invalid}
use ariadne.Naive
use ariadne.Naive.{first_match, route_from, make_naive, masks_from}
use ariadne.BasicTrie
use ariadne.BasicTrie.{build_trie, Trie, new_internal, null, node}
use ariadne.Lpm.Scan.{scan, scan_ext, scan_none, scan_at, pick, pick_some}
use ariadne.Lpm.Prefix.{bit_and-masks}
use ariadne.Lpm.Paths.{last_match, leaf_at}
use ariadne.Lpm.Lookup.{HasLevels, build_trie-HasLevels, route-scan}
use ariadne.Lpm.Longest.{
  level, AtLevel, Matches, NoMatch, IsLongest, scan-IsLongest, IsRoutable, DistinctBases,
}
use ariadne.Lpm.Equivalence.{
  RoutesAt, masked, first_or, first_match-AtLevel, first_match-valid, last_match-AtLevel,
  last_match-eq-first, first_match_head, first_match_absent, last_match_pair, last_match_absent,
}

abbrev first_at : Entries → ℕ → ℕ → ℕ
first_at tbl addr len = first_or (first_match (level tbl len) (masked len addr)) nh_invalid

-- The matching index of one level, else the result so far.
abbrev or_shorter : Option ℕ → Option ℕ → Option ℕ
or_shorter o shorter = elim o [ none ↦ shorter | some i ↦ some i ]

or_shorter-pick :
    (o : Option ℕ) (last : ℕ)
    → ((i : ℕ) → o ≡ some i → i ≢ nh_invalid)
    → or_shorter o (some last) ≡ some (pick (first_or o nh_invalid) last)
or_shorter-pick none last h = refl
or_shorter-pick (some i) last h = ap some (sym (pick_some i last (h i refl)))

module _ (tbl : Entries) (ok : IsRoutable tbl) (addr : ℕ) (ha : addr < 2 ^ 32) where
  mask_read :
      (len : ℕ) → len ≤ 32 → get_elem? (masks_from 33 0) len ≡ some (get_or (masks_from 33 0) len 0)
  unfolding masks_from
  mask_read len h = get_elem?-eq-get_or (masks_from 33 0) len 0 (omega arith)

  route_from_step :
      (len : ℕ)
      → len ≤ 32
      → route_from (make_naive tbl) (suc len) addr
        ≡ or_shorter
            (first_match (level tbl len) (masked len addr))
            (route_from (make_naive tbl) len addr)
  unfolding route_from make_naive
  route_from_step len h = rw (
    get_elem?-eq-get_or tbl len [] (omega (arith, ok.levels)),
    mask_read len h,
    bit_and-masks addr len (32 - len) (omega arith) ha,
  )

  route_from-scan :
      (n : ℕ)
      → n ≤ 32
      → route_from (make_naive tbl) (suc n) addr ≡ some (scan (first_at tbl addr) n nh_invalid)
  unfolding route_from scan
  route_from-scan zero h =
      route_from_step 0 h
      ∙ or_shorter-pick (first_match (level tbl 0) (masked 0 addr)) nh_invalid
          (λ i. first_match-valid (level tbl 0) 0 _ i (ok.routes 0 h))
  route_from-scan (suc n) h =
      let rs = level tbl (suc n) in
      route_from_step (suc n) h
      ∙ ap (or_shorter (first_match rs (masked (suc n) addr))) (route_from-scan n (omega arith))
      ∙ or_shorter-pick (first_match rs (masked (suc n) addr)) _
          (λ i. first_match-valid rs (suc n) _ i (ok.routes (suc n) h))

  naive_route : Naive.route (make_naive tbl) addr ≡ some (scan (first_at tbl addr) 32 nh_invalid)
  unfolding Naive.route
  naive_route = route_from-scan 32 (omega arith)

  -- On a routable table `Naive::route` reads nothing out of range, and returns the index of a
  -- route with the longest matching prefix, or the invalid index if no route matches.
  pub naive-IsLongest :
      (v : ℕ) × (Naive.route (make_naive tbl) addr ≡ some v) × IsLongest tbl addr 32 v
  naive-IsLongest = (
    scan (first_at tbl addr) 32 nh_invalid,
    naive_route,
    scan-IsLongest tbl addr (first_at tbl addr) 32
        (λ d b. first_match-AtLevel (level tbl d) d addr (ok.routes d b)),
  )

  module _ (shifted_out : ℕ → ℕ) where
    new_leaf : (d : ℕ) → leaf_at shifted_out new_internal d 0 addr ≡ nh_invalid
    unfolding leaf_at
    new_leaf zero = refl
    new_leaf (suc d) = ground arith

    trie_route-scan :
        (u : Trie)
        → HasLevels shifted_out tbl 0 33 new_internal u
        → BasicTrie.route shifted_out u addr
          ≡ scan (λ d. last_match shifted_out (level tbl d) addr d nh_invalid) 32 nh_invalid
    unfolding BasicTrie.route leaf_at
    trie_route-scan null v =
        sym (scan_none _ 32 nh_invalid (λ d b. ground (arith, v.leaves d addr, new_leaf d)))
    trie_route-scan (node l r leaf) v =
        route-scan shifted_out l r leaf addr v.low
        ∙ scan_ext _ _ 32 nh_invalid (λ d b. ground (arith, v.leaves d addr, new_leaf d))

    last_at :
        (d : ℕ)
        → d ≤ 32
        → AtLevel (level tbl d) d addr (last_match shifted_out (level tbl d) addr d nh_invalid)
    last_at d b =
        elim (last_match-AtLevel shifted_out (level tbl d) d addr nh_invalid b ha (ok.routes d b)) [
          | inl m ↦ inl m
          | inr (r, i, m, e, ne) ↦ inr (r, i, m, e, (λ t. ne (e ∙ t)))
        ]

    -- On a routable table `buildTrie` reads nothing out of range, and `BasicTrie::route` returns
    -- the index of a route with the longest matching prefix, or the invalid index if no route
    -- matches; whatever the undefined shift of a lookup at depth 32 yields.
    pub trie-IsLongest :
        (u : Trie) × (build_trie shifted_out tbl ≡ some u)
        × IsLongest tbl addr 32 (BasicTrie.route shifted_out u addr)
    trie-IsLongest =
        let (u, e, v) = build_trie-HasLevels shifted_out tbl ok.levels in
        (
          u,
          e,
          subst (IsLongest tbl addr 32) (sym (trie_route-scan u v))
              (scan-IsLongest tbl addr _ 32 last_at),
        )

    -- Where no level of a routable table holds a base twice, the trie and the scan of all routes
    -- give every address the same next hop index.
    pub trie-eq-naive :
        ((len : ℕ) → len ≤ 32 → DistinctBases (level tbl len))
        → Option.map (λ u. BasicTrie.route shifted_out u addr) (build_trie shifted_out tbl)
          ≡ Naive.route (make_naive tbl) addr
    trie-eq-naive distinct =
        let (u, e, v) = build_trie-HasLevels shifted_out tbl ok.levels in
        ap (Option.map (λ u. BasicTrie.route shifted_out u addr)) e
        ∙ ap some (
            trie_route-scan u v
            ∙ scan_ext _ _ 32 nh_invalid (λ d b.
              last_match-eq-first shifted_out (level tbl d) d addr nh_invalid b ha (ok.routes d b)
                (distinct d b)))
        ∙ sym naive_route

    -- Two routes of a routable table with one base and one prefix length, alone at their level,
    -- split the lookups of an address that no longer prefix matches: the scan of all routes takes
    -- the index of the first, the trie that of the last.
    pub doubled_base :
        (len : ℕ) (a b : Route)
        → len ≤ 32
        → level tbl len ≡ a ∷ b ∷ []
        → Matches len addr a
        → Matches len addr b
        → ((k : ℕ) → len < k → k ≤ 32 → NoMatch k addr (level tbl k))
        → (Naive.route (make_naive tbl) addr ≡ some a.index)
          × (Option.map (λ u. BasicTrie.route shifted_out u addr) (build_trie shifted_out tbl)
              ≡ some b.index)
    doubled_base len a b small e ma mb longer =
        let both : RoutesAt len (a ∷ b ∷ []) = subst (RoutesAt len) e (ok.routes len small) in
        let first : first_at tbl addr len ≡ a.index =
          ap (λ rs. first_or (first_match rs (masked len addr)) nh_invalid) e
          ∙ ap (λ o. first_or o nh_invalid) (first_match_head a (b ∷ []) (masked len addr) ma) in
        let last : last_match shifted_out (level tbl len) addr len nh_invalid ≡ b.index =
          ap (λ rs. last_match shifted_out rs addr len nh_invalid) e
          ∙ last_match_pair shifted_out a b len addr nh_invalid small ha both mb in
        let (u, built, v) = build_trie-HasLevels shifted_out tbl ok.levels in
        (
          naive_route
              ∙ ap some (
                  scan_at (first_at tbl addr) len 32 nh_invalid small
                    (λ t. both.0.2 (sym first ∙ t))
                    (λ k p q.
                      ap (λ o. first_or o nh_invalid)
                        (first_match_absent (level tbl k) (masked k addr) (longer k p q)))
                  ∙ first),
          ap (Option.map (λ u. BasicTrie.route shifted_out u addr)) built
              ∙ ap some (
                  trie_route-scan u v
                  ∙ scan_at _ len 32 nh_invalid small (λ t. both.1.0.2 (sym last ∙ t))
                      (λ k p q.
                        last_match_absent shifted_out (level tbl k) k addr nh_invalid q ha
                          (ok.routes k q) (longer k p q))
                  ∙ last),
        )
