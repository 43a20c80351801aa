-- ===== src/Lpm/Equivalence.antt =====
-- Both lookups find the longest matching prefix, and agree where no level holds a base twice.
use ariadne.Base.{
  ℕ, ◌-◌, ◌*◌, ◌/◌, ◌%◌, ◌^◌, ◌≤◌, ◌<◌, ◌≡◌, ◌≢◌, ◌⊎◌, inl, inr, refl, sym, ap, ◌∙◌, subst, arith,
  List, [], ◌∷◌, All, ne→==, eq→==, ==_iff, ◌==◌, Bool-cases, Option, some, none,
}
use ariadne.RoutingTable.{Route, nh_invalid}
use ariadne.Naive.{first_match}
use ariadne.Lpm.Prefix.{same_path, same_path-eq-masked}
use ariadne.Lpm.Paths.{last_match}
use ariadne.Lpm.Longest.{Matches, In, here, there, NoMatch, AtLevel, DistinctBases}

abbrev pub RoutesAt : ℕ → List Route → Type 0
RoutesAt len =
    All (λ (r : Route). (r.base < 2 ^ 32) × (r.base % 2 ^ (32 - len) ≡ 0) × (r.index ≢ nh_invalid))

abbrev pub masked : ℕ → ℕ → ℕ
masked len addr = addr / 2 ^ (32 - len) * 2 ^ (32 - len)

-- The index of the first match, or invalid.
abbrev pub first_or : Option ℕ → ℕ → ℕ
first_or none acc = acc
first_or (some i) acc = i

pub first_match-AtLevel :
    (rs : List Route) (len addr : ℕ)
    → RoutesAt len rs
    → AtLevel rs len addr (first_or (first_match rs (masked len addr)) nh_invalid)
unfolding first_match
first_match-AtLevel [] len addr h = inl (refl, tt)
first_match-AtLevel (r ∷ rs) len addr h = elim (Bool-cases (r.base == masked len addr)) [
  | inl t ↦ rw t (inr (r, here, (==_iff _ _).0 t, refl, h.0.2))
  | inr f ↦ rw f (elim (first_match-AtLevel rs len addr h.1) [
    | inl (e, miss) ↦ inl (e, (λ m. ground arith, miss))
    | inr (q, i, m, e, ne) ↦ inr (q, there i, m, e, ne)
  ])
]

pub first_match-valid :
    (rs : List Route) (len x : ℕ) (i : ℕ)
    → RoutesAt len rs
    → first_match rs x ≡ some i
    → i ≢ nh_invalid
unfolding first_match
first_match-valid [] len x i h e = cc
first_match-valid (r ∷ rs) len x i h e = ground (arith, h.0.2, first_match-valid rs len x i h.1)

pub first_match_absent :
    (rs : List Route) (x : ℕ) → All (λ (q : Route). q.base ≢ x) rs → first_match rs x ≡ none
unfolding first_match
first_match_absent [] x h = refl
first_match_absent (r ∷ rs) x h = rw (ne→== _ _ h.0) (first_match_absent rs x h.1)

-- The first of the routes whose base is the masked address.
pub first_match_head :
    (a : Route) (rs : List Route) (x : ℕ) → a.base ≡ x → first_match (a ∷ rs) x ≡ some a.index
unfolding first_match
first_match_head a rs x h = rw (eq→== _ _ h)

module _ (shifted_out : ℕ → ℕ) where
  path-eq-masked :
      (r : Route) (len addr : ℕ)
      → len ≤ 32
      → addr < 2 ^ 32
      → (r.base < 2 ^ 32) × (r.base % 2 ^ (32 - len) ≡ 0) × (r.index ≢ nh_invalid)
      → same_path shifted_out r.base addr 0 len ≡ (r.base == masked len addr)
  path-eq-masked r len addr small ha h =
      same_path-eq-masked shifted_out r.base addr len (32 - len) (omega arith) h.0 ha h.1

  pub last_match-AtLevel :
      (rs : List Route) (len addr acc : ℕ)
      → len ≤ 32
      → addr < 2 ^ 32
      → RoutesAt len rs
      → ((last_match shifted_out rs addr len acc ≡ acc) × NoMatch len addr rs)
        ⊎ ((r : Route) × In r rs
            × Matches len addr r
            × (r.index ≡ last_match shifted_out rs addr len acc)
            × (r.index ≢ nh_invalid))
  unfolding last_match
  last_match-AtLevel [] len addr acc small ha h = inl (refl, tt)
  last_match-AtLevel (r ∷ rs) len addr acc small ha h =
      let p = path-eq-masked r len addr small ha h.0 in
      elim (Bool-cases (r.base == masked len addr)) [
        | inl t ↦ rw (p ∙ t) (elim (last_match-AtLevel rs len addr r.index small ha h.1) [
          | inl (e, miss) ↦ inr (r, here, (==_iff _ _).0 t, sym e, h.0.2)
          | inr (q, i, m, e, ne) ↦ inr (q, there i, m, e, ne)
        ])
        | inr f ↦ rw (p ∙ f) (elim (last_match-AtLevel rs len addr acc small ha h.1) [
          | inl (e, miss) ↦ inl (e, (λ m. ground arith, miss))
          | inr (q, i, m, e, ne) ↦ inr (q, there i, m, e, ne)
        ])
      ]

  -- With distinct bases the last match is the first.
  pub last_match-eq-first :
      (rs : List Route) (len addr acc : ℕ)
      → len ≤ 32
      → addr < 2 ^ 32
      → RoutesAt len rs
      → DistinctBases rs
      → last_match shifted_out rs addr len acc ≡ first_or (first_match rs (masked len addr)) acc
  unfolding last_match first_match
  last_match-eq-first [] len addr acc small ha h d = refl
  last_match-eq-first (r ∷ rs) len addr acc small ha h d =
      let p = path-eq-masked r len addr small ha h.0 in
      elim (Bool-cases (r.base == masked len addr)) [
        | inl t ↦
            rw (p ∙ t, t)
              (last_match-eq-first rs len addr r.index small ha h.1 d.1
                ∙ ap (λ o. first_or o r.index)
                    (first_match_absent rs (masked len addr)
                      (subst (λ x. All (λ (q : Route). q.base ≢ x) rs) ((==_iff _ _).0 t) d.0)))
        | inr f ↦ rw (p ∙ f, f) (last_match-eq-first rs len addr acc small ha h.1 d.1)
      ]

  pub last_match_absent :
      (rs : List Route) (len addr acc : ℕ)
      → len ≤ 32
      → addr < 2 ^ 32
      → RoutesAt len rs
      → NoMatch len addr rs
      → last_match shifted_out rs addr len acc ≡ acc
  unfolding last_match
  last_match_absent [] len addr acc small ha h miss = refl
  last_match_absent (r ∷ rs) len addr acc small ha h miss =
      rw (path-eq-masked r len addr small ha h.0 ∙ ne→== _ _ miss.0)
        (last_match_absent rs len addr acc small ha h.1 miss.1)

  pub last_match_pair :
      (a b : Route) (len addr acc : ℕ)
      → len ≤ 32
      → addr < 2 ^ 32
      → RoutesAt len (a ∷ b ∷ [])
      → Matches len addr b
      → last_match shifted_out (a ∷ b ∷ []) addr len acc ≡ b.index
  unfolding last_match
  last_match_pair a b len addr acc small ha h m =
      rw (path-eq-masked b len addr small ha h.1.0 ∙ eq→== _ _ m)
