-- ===== src/Lpm/Scan.antt =====
-- The value that the deepest level gives: what both lookups compute, from either end.
use ariadne.Base.{
  ℕ, zero, suc, ◌≤◌, ◌<◌, ◌≡◌, refl, ap, ◌∙◌, ◌==◌, if◌then◌else◌, arith, Bool-cases, inl, inr, ◌≢◌,
}
use ariadne.RoutingTable.{nh_invalid}

abbrev pub pick : ℕ → ℕ → ℕ
pick v last = if v == nh_invalid then last else v

pub pick_none : (v last : ℕ) → v ≡ nh_invalid → pick v last ≡ last
pick_none v last h = ground arith

pub pick_some : (v last : ℕ) → v ≢ nh_invalid → pick v last ≡ v
pick_some v last h = ground arith

-- The first of `f n`, …, `f 0` that is no invalid index, else `last`.
unfoldable pub scan : (ℕ → ℕ) → ℕ → ℕ → ℕ
scan f zero last = pick (f 0) last
scan f (suc n) last = pick (f (suc n)) (scan f n last)

-- Taken from the shallow end.
pub scan-suc :
    (f : ℕ → ℕ) (n last : ℕ) → scan f (suc n) last ≡ scan (λ d. f (suc d)) n (pick (f 0) last)
unfolding scan
scan-suc f zero last = refl
scan-suc f (suc n) last = ground (arith, scan-suc f n last)

pub scan_ext :
    (f g : ℕ → ℕ) (n last : ℕ) → ((d : ℕ) → d ≤ n → f d ≡ g d) → scan f n last ≡ scan g n last
unfolding scan
scan_ext f g zero last h = ground (arith, h 0 (omega arith))
scan_ext f g (suc n) last h =
    ground (arith, h (suc n) (omega arith), scan_ext f g n last (λ d p. h d (omega arith)))

-- With nothing at any level the scan keeps what it was given.
pub scan_none :
    (f : ℕ → ℕ) (n last : ℕ) → ((d : ℕ) → d ≤ n → f d ≡ nh_invalid) → scan f n last ≡ last
unfolding scan
scan_none f zero last h = ground (arith, h 0 (omega arith))
scan_none f (suc n) last h =
    ground (arith, h (suc n) (omega arith), scan_none f n last (λ d p. h d (omega arith)))

pub scan_zero : (f : ℕ → ℕ) (last : ℕ) → scan f 0 last ≡ pick (f 0) last
unfolding scan
scan_zero f last = refl

pub scan_step : (f : ℕ → ℕ) (n last : ℕ) → scan f (suc n) last ≡ pick (f (suc n)) (scan f n last)
unfolding scan
scan_step f n last = refl

-- The deepest valid level decides.
pub scan_at :
    (f : ℕ → ℕ) (len n last : ℕ)
    → len ≤ n
    → f len ≢ nh_invalid
    → ((k : ℕ) → len < k → k ≤ n → f k ≡ nh_invalid)
    → scan f n last ≡ f len
unfolding scan
scan_at f zero zero last l v h = pick_some (f 0) last v
scan_at f (suc len) zero last l v h = absurd (omega arith)
scan_at f len (suc n) last l v h = elim (Bool-cases (len == suc n)) [
  | inl t ↦ let e : len ≡ suc n = ground arith in ground (arith, e, ap f e)
  | inr t ↦
      pick_none (f (suc n)) _ (h (suc n) (ground arith) (omega arith))
      ∙ scan_at f len n last (ground arith) v (λ k a b. h k a (omega arith))
]
