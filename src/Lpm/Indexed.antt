-- ===== src/Lpm/Indexed.antt =====
-- The table that `buildNextHopList` of src/routingTable.cpp leaves is one that the lookups of
-- src/naive.cpp and src/basicTrie.cpp can route with.
use ariadne.Base.{
  ℕ, zero, suc, ◌-◌, ◌%◌, ◌^◌, ◌≤◌, ◌<◌, ◌≡◌, ◌≢◌, refl, sym, ap, ◌∙◌, subst, arith, List, [], ◌∷◌,
  map, get_elem?-eq-get_or, length, All, All-get,
}
use ariadne.Interface.{Heap}
use ariadne.RoutingTable.{Route, Entries, RoutingTable, nh_invalid}
use ariadne.RoutingTable.Levels.{strip, IsIndexed}
use ariadne.RoutingTable.Runs.{HasIndex}
use ariadne.Lpm.Longest.{level, IsRoutable}

-- A base of at most `len` bits.
abbrev pub IsPrefix : ℕ → Route → Type 0
IsPrefix len r = (r.base < 2 ^ 32) × (r.base % 2 ^ (32 - len) ≡ 0)

-- 33 levels with the routes of their prefix lengths.
pub record IsTable (tbl : Entries) : Type 0 where
  pub levels : length tbl ≡ 33
  pub prefixes : (len : ℕ) → len ≤ 32 → All (IsPrefix len) (level tbl len)

All-strip : (len : ℕ) (rs : List Route) → All (IsPrefix len) rs → All (IsPrefix len) (map strip rs)
All-strip len [] h = tt
All-strip len (r ∷ rs) h = (h.0, All-strip len rs h.1)

All-unstrip :
    (len : ℕ) (rs : List Route) → All (IsPrefix len) (map strip rs) → All (IsPrefix len) rs
All-unstrip len [] h = tt
All-unstrip len (r ∷ rs) h = (h.0, All-unstrip len rs h.1)

strip-level : (es : Entries) (len : ℕ) → map strip (level es len) ≡ level (map (map strip) es) len
strip-level [] len = refl
strip-level (rs ∷ es) zero = refl
strip-level (rs ∷ es) (suc len) = strip-level es len

All-HasIndex :
    (heap : Heap) (len : ℕ) (rs : List Route)
    → All (IsPrefix len) rs
    → All (HasIndex heap) rs
    → All
        (λ (r : Route). (r.base < 2 ^ 32) × (r.base % 2 ^ (32 - len) ≡ 0) × (r.index ≢ nh_invalid))
        rs
All-HasIndex heap len [] h x = tt
All-HasIndex heap len (r ∷ rs) h x = ((h.0.0, h.0.1, x.0.1), All-HasIndex heap len rs h.1 x.1)

pub indexed-IsRoutable :
    (heap : Heap) (t t' : RoutingTable)
    → IsTable t.entries
    → IsIndexed heap t t'
    → All (All (HasIndex heap)) t'.entries
    → length t'.entries ≡ 33
    → IsRoutable t'.entries
indexed-IsRoutable heap t t' ok x sets size = record {
  levels = size;
  routes = λ len h.
      let same : map strip (level t.entries len) ≡ map strip (level t'.entries len) =
        strip-level t.entries len
        ∙ ap (λ es. level es len) (sym x.same)
        ∙ sym (strip-level t'.entries len) in
      let bases = All-unstrip len (level t'.entries len) (
        subst (All (IsPrefix len)) same
          (All-strip len (level t.entries len) (ok.prefixes len h))) in
      let at_len = get_elem?-eq-get_or t'.entries len [] (omega (arith, size)) in
      All-HasIndex heap len (level t'.entries len) bases
        (All-get (All (HasIndex heap)) t'.entries len (level t'.entries len) sets at_len);
}
