-- ===== src/Tests/Sound.antt =====
-- Boolean tests on small routing tables that decide what the theorems ask of a table.
use ariadne.Base.{
  ℕ, zero, suc, ◌-◌, ◌%◌, ◌^◌, ◌≤◌, ◌<◌, ◌≡◌, arith, ◌==◌, ltb, leb, ◌||◌, ◌&&◌, not, Bool, true,
  false, List, [], ◌∷◌, ◌++◌, replicate, length, All, passes_below, passes_below_sound,
}
use ariadne.RoutingTable.{Route, Entries, nh_invalid}
use ariadne.Lpm.Longest.{level, NoMatch, IsRoutable, DistinctBases}
use ariadne.Lpm.Indexed.{IsPrefix, IsTable}

abbrev all_of : (Route → Bool) → List Route → Bool
all_of p [] = true
all_of p (r ∷ rs) = p r && all_of p rs

all_of_sound :
    (P : Route → Type 0) (p : Route → Bool)
    → ((r : Route) → p r ≡ true → P r)
    → (rs : List Route) → all_of p rs ≡ true
    → All P rs
all_of_sound P p h [] e = tt
all_of_sound P p h (r ∷ rs) e = (h r (ground arith), all_of_sound P p h rs (ground arith))

abbrev pub each_level : (ℕ → Route → Bool) → Entries → Bool
each_level p tbl = passes_below 33 (λ len. all_of (p len) (level tbl len))

levels_sound :
    (P : ℕ → Route → Type 0) (p : ℕ → Route → Bool)
    → ((len : ℕ) (r : Route) → p len r ≡ true → P len r)
    → (tbl : Entries) → each_level p tbl ≡ true
    → (len : ℕ) → len ≤ 32
    → All (P len) (level tbl len)
levels_sound P p h tbl e len b =
    all_of_sound (P len) (p len) (h len) (level tbl len)
      (passes_below_sound 33 _ len e (omega arith))

abbrev pub prefix_test : ℕ → Route → Bool
prefix_test len r = ltb r.base (2 ^ 32) && (r.base % 2 ^ (32 - len) == 0)

abbrev pub route_test : ℕ → Route → Bool
route_test len r = prefix_test len r && not (r.index == nh_invalid)

pub IsTable-sound :
    (tbl : Entries) → length tbl ≡ 33 → each_level prefix_test tbl ≡ true → IsTable tbl
IsTable-sound tbl n e = record {
  levels = n;
  prefixes = levels_sound IsPrefix prefix_test (λ len r h. (ground arith, ground arith)) tbl e;
}

pub IsRoutable-sound :
    (tbl : Entries) → length tbl ≡ 33 → each_level route_test tbl ≡ true → IsRoutable tbl
IsRoutable-sound tbl n e = record {
  levels = n;
  routes =
      levels_sound _ route_test (λ len r h. (ground arith, ground arith, (λ q. ground arith))) tbl
        e;
}

-- No level holds two routes.
abbrev short : List Route → Bool
short [] = true
short (r ∷ []) = true
short (r ∷ q ∷ rs) = false

short_sound : (rs : List Route) → short rs ≡ true → DistinctBases rs
short_sound [] e = tt
short_sound (r ∷ []) e = (tt, tt)
short_sound (r ∷ q ∷ rs) e = cc

abbrev pub each_short : Entries → Bool
each_short tbl = passes_below 33 (λ len. short (level tbl len))

pub DistinctBases-sound :
    (tbl : Entries) → each_short tbl ≡ true → (len : ℕ) → len ≤ 32 → DistinctBases (level tbl len)
DistinctBases-sound tbl e len b =
    short_sound (level tbl len) (passes_below_sound 33 _ len e (omega arith))

-- Empty levels hold nothing that could fail.
pub All-skip :
    (P : Route → Type 0) (n : ℕ) (rest : Entries)
    → All (All P) rest
    → All (All P) (replicate n [] ++ rest)
All-skip P zero rest h = h
All-skip P (suc n) rest h = (tt, All-skip P n rest h)

pub All-empty : (P : Route → Type 0) (n : ℕ) → All (All P) (replicate n [])
All-empty P zero = tt
All-empty P (suc n) = (tt, All-empty P n)

abbrev is_empty : List Route → Bool
is_empty [] = true
is_empty (r ∷ rs) = false

is_empty_sound : (len addr : ℕ) (rs : List Route) → is_empty rs ≡ true → NoMatch len addr rs
is_empty_sound len addr [] e = tt
is_empty_sound len addr (r ∷ rs) e = cc

abbrev pub empty_above : ℕ → Entries → Bool
empty_above n tbl = passes_below 33 (λ k. leb k n || is_empty (level tbl k))

pub empty_above_sound :
    (tbl : Entries) (addr n : ℕ)
    → empty_above n tbl ≡ true
    → (k : ℕ) → n < k
    → k ≤ 32
    → NoMatch k addr (level tbl k)
empty_above_sound tbl addr n e k a b =
    let here = passes_below_sound 33 (λ j. leb j n || is_empty (level tbl j)) k e (omega arith) in
    is_empty_sound k addr (level tbl k) (ground arith)
