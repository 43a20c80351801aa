-- ===== src/Lpm/Longest.antt =====
-- The definition of the longest matching prefix, for tables as src/routingTable.cpp keeps them:
-- one list of routes for each prefix length.
use ariadne.Base.{
  ℕ, zero, suc, ◌-◌, ◌*◌, ◌/◌, ◌%◌, ◌^◌, ◌≤◌, ◌<◌, ◌≡◌, ◌≢◌, ◌⊎◌, inl, inr, refl, sym, subst, arith,
  List, [], ◌∷◌, All, get_or, length, ◌==◌, Bool-cases,
}
use ariadne.RoutingTable.{Route, Entries, nh_invalid}
use ariadne.Lpm.Scan.{scan, pick_none, pick_some}

-- The address behind the route's prefix length is the route's base.
abbrev pub Matches : ℕ → ℕ → Route → Type 0
Matches len addr r = r.base ≡ addr / 2 ^ (32 - len) * 2 ^ (32 - len)

pub data In (r : Route) : List Route → Type 0 where
  here : {rs : List Route} → In r (r ∷ rs)
  there : {q : Route} {rs : List Route} → In r rs → In r (q ∷ rs)

abbrev pub NoMatch : ℕ → ℕ → List Route → Type 0
NoMatch len addr = All (λ r. ¬ Matches len addr r)

abbrev pub level : Entries → ℕ → List Route
level tbl len = get_or tbl len []

-- One level alone: `v` is the index of one of its routes that match, or invalid if none does.
abbrev pub AtLevel : List Route → ℕ → ℕ → ℕ → Type 0
AtLevel rs len addr v =
    ((v ≡ nh_invalid) × NoMatch len addr rs)
    ⊎ ((r : Route) × In r rs × Matches len addr r × (r.index ≡ v) × (v ≢ nh_invalid))

-- `v` is the index of a matching route of at most `n` bits, and no route of more bits, up to
-- `n`, matches; or `v` is the invalid index, and no route of up to `n` bits matches.
pub data IsLongest (tbl : Entries) (addr n v : ℕ) : Type 0 where
  routed :
      (len : ℕ) (r : Route)
      → len ≤ n
      → In r (level tbl len)
      → Matches len addr r
      → r.index ≡ v
      → v ≢ nh_invalid
      → ((k : ℕ) → len < k → k ≤ n → NoMatch k addr (level tbl k))
      → IsLongest tbl addr n v
  unrouted :
      v ≡ nh_invalid → ((k : ℕ) → k ≤ n → NoMatch k addr (level tbl k)) → IsLongest tbl addr n v

extend_up :
    (tbl : Entries) (addr n v : ℕ)
    → NoMatch (suc n) addr (level tbl (suc n))
    → IsLongest tbl addr n v
    → IsLongest tbl addr (suc n) v
extend_up tbl addr n v miss (routed len r l i m e ne none_longer) =
    routed len r (omega arith) i m e ne λ k a b. elim (Bool-cases (k == suc n)) [
      | inl t ↦ let q : suc n ≡ k = ground arith in subst (λ j. NoMatch j addr (level tbl j)) q miss
      | inr t ↦ none_longer k a (ground arith)
    ]
extend_up tbl addr n v miss (unrouted e none_at) = unrouted e λ k b.
    elim (Bool-cases (k == suc n)) [
      | inl t ↦ let q : suc n ≡ k = ground arith in subst (λ j. NoMatch j addr (level tbl j)) q miss
      | inr t ↦ none_at k (ground arith)
    ]

-- A scan over levels that are each right is right.
pub scan-IsLongest :
    (tbl : Entries) (addr : ℕ) (f : ℕ → ℕ) (n : ℕ)
    → ((d : ℕ) → d ≤ n → AtLevel (level tbl d) d addr (f d))
    → IsLongest tbl addr n (scan f n nh_invalid)
unfolding scan
scan-IsLongest tbl addr f zero h = elim (h 0 (omega arith)) [
  | inl (e, miss) ↦ subst (IsLongest tbl addr 0) (sym (pick_none (f 0) nh_invalid e)) (
      unrouted refl
        λ k b. let z : 0 ≡ k = omega arith in subst (λ j. NoMatch j addr (level tbl j)) z miss)
  | inr (r, i, m, e, ne) ↦
      subst (IsLongest tbl addr 0) (sym (pick_some (f 0) nh_invalid ne))
        (routed 0 r (omega arith) i m e ne λ k a b. absurd (omega arith))
]
scan-IsLongest tbl addr f (suc n) h = elim (h (suc n) (omega arith)) [
  | inl (e, miss) ↦
      subst (IsLongest tbl addr (suc n)) (sym (pick_none (f (suc n)) (scan f n nh_invalid) e))
        (extend_up tbl addr n _ miss (scan-IsLongest tbl addr f n (λ d b. h d (omega arith))))
  | inr (r, i, m, e, ne) ↦
      subst (IsLongest tbl addr (suc n)) (sym (pick_some (f (suc n)) (scan f n nh_invalid) ne))
        (routed (suc n) r (omega arith) i m e ne λ k a b. absurd (omega arith))
]

-- What `update` leaves behind: 33 levels, each route's base within its prefix, and valid indices.
pub record IsRoutable (tbl : Entries) : Type 0 where
  pub levels : length tbl ≡ 33
  pub routes :
      (len : ℕ)
      → len ≤ 32
      → All
          (λ (r : Route).
            (r.base < 2 ^ 32) × (r.base % 2 ^ (32 - len) ≡ 0) × (r.index ≢ nh_invalid))
          (level tbl len)

abbrev pub DistinctBases : List Route → Type 0
DistinctBases [] = Unit
DistinctBases (r ∷ rs) = All (λ (q : Route). q.base ≢ r.base) rs × DistinctBases rs

pub NoMatch-In :
    (len addr : ℕ) (rs : List Route) (r : Route)
    → NoMatch len addr rs
    → In r rs
    → ¬ Matches len addr r
NoMatch-In len addr [] r miss i m = elim i [ ]
NoMatch-In len addr (q ∷ rs) r miss here m = miss.0 m
NoMatch-In len addr (q ∷ rs) r miss (there i) m = NoMatch-In len addr rs r miss.1 i m

-- Where no route matches, only the invalid index is right.
pub IsLongest-unrouted :
    (tbl : Entries) (addr n v : ℕ)
    → ((k : ℕ) → k ≤ n → NoMatch k addr (level tbl k))
    → IsLongest tbl addr n v
    → v ≡ nh_invalid
IsLongest-unrouted tbl addr n v none_at (routed len r l i m e ne _) =
    absurd (NoMatch-In len addr (level tbl len) r (none_at len l) i m)
IsLongest-unrouted tbl addr n v none_at (unrouted e _) = e
