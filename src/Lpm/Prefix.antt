-- ===== src/Lpm/Prefix.antt =====
-- When a route matches an address: by the bits on the way down the trie (`extractBit`), and by
-- the masked comparison of the scan.
use native.Mathlib.Nat.{mul-div_cancel, div-lt_iff_lt-mul, mod-eq_of_lt, div-add-mod}
use ariadne.Base.{
  ℕ, zero, suc, ◌+◌, ◌-◌, ◌*◌, ◌/◌, ◌%◌, ◌^◌, ◌<◌, ◌≡◌, refl, sym, ◌∙◌, ap, bit_and, Bool, true,
  ◌&&◌, not, ◌==◌, if◌then◌else◌, arith, bit_and_high, bit_and_low, div-half, two_pow_pos,
  passes_below, passes_below_sound, ==_iff, Bool_ext, get_or, ◌↔◌, eq→==,
}
use ariadne.Util.{extract_bit}
use ariadne.Naive.{masks_from}

-- Whether the first `n` bits from position `pos` on lead the same way.
abbrev pub same_bit : Bool → Bool → Bool
same_bit a b = if a then b else not b

div_two_pow_up : (a b n m : ℕ) → a / 2 ^ m ≡ b / 2 ^ m → a / 2 ^ (n + m) ≡ b / 2 ^ (n + m)
div_two_pow_up a b zero m h = ground arith
div_two_pow_up a b (suc n) m h =
    let ih = div_two_pow_up a b n m h in
    let e : suc n + m ≡ suc (n + m) = omega arith in
    rw e (omega (arith, div-half (n + m) a, div-half (n + m) b, ih))

module _ (shifted_out : ℕ → ℕ) where
  unfoldable pub same_path : ℕ → ℕ → ℕ → ℕ → Bool
  same_path base addr pos zero = true
  same_path base addr pos (suc n) =
      same_bit (extract_bit shifted_out base pos == 0) (extract_bit shifted_out addr pos == 0)
      && same_path base addr (pos + 1) n

  pub extract_bit_lem :
      (addr pos k : ℕ) → pos + k ≡ 31 → extract_bit shifted_out addr pos ≡ addr / 2 ^ k % 2
  unfolding extract_bit
  extract_bit_lem addr pos k e =
      let k' : 31 - pos ≡ k = omega arith in
      let low : bit_and (addr / 2 ^ k) 1 ≡ addr / 2 ^ k % 2 = bit_and_low 1 (addr / 2 ^ k) in
      rw (k') (
        ground
          (arith, bit_and_high k addr 1, low, mul-div_cancel (addr / 2 ^ k % 2) (two_pow_pos k)))

  same_path_iff :
      (a b pos n m : ℕ)
      → pos + n + m ≡ 32
      → a / 2 ^ (n + m) ≡ b / 2 ^ (n + m)
      → (same_path a b pos n ≡ true) ↔ (a / 2 ^ m ≡ b / 2 ^ m)
  unfolding same_path
  same_path_iff a b pos zero m e h =
      let z : 0 + m ≡ m = omega arith in ((λ _. rw z at h), (λ _. refl))
  same_path_iff a b pos (suc n) m e h =
      let s : suc n + m ≡ suc (n + m) = omega arith in
      let h' : a / 2 ^ suc (n + m) ≡ b / 2 ^ suc (n + m) = rw s at h in
      ground (
        arith,
        extract_bit_lem a pos (n + m) (omega arith),
        extract_bit_lem b pos (n + m) (omega arith),
        div-half (n + m) a,
        div-half (n + m) b,
        h',
        div_two_pow_up a b n m,
        same_path_iff a b (pos + 1) n m (omega arith),
      )

  -- A base without bits behind the prefix leads the way that the masked address does.
  pub same_path-eq-masked :
      (base addr len m : ℕ)
      → len + m ≡ 32
      → base < 2 ^ 32
      → addr < 2 ^ 32
      → base % 2 ^ m ≡ 0
      → same_path base addr 0 len ≡ (base == addr / 2 ^ m * 2 ^ m)
  same_path-eq-masked base addr len m e hb ha clear =
      let top : base / 2 ^ (len + m) ≡ addr / 2 ^ (len + m) = rw e (omega arith) in
      let iff = same_path_iff base addr 0 len m (omega arith) top in
      let whole : base / 2 ^ m * 2 ^ m ≡ base = omega (arith, div-add-mod base (2 ^ m)) in
      Bool_ext _ _ (λ t. eq→== _ _ (sym whole ∙ ap (λ (x : ℕ). x * 2 ^ m) (iff.0 t)))
        (λ t. iff.1 (
          ap (λ (x : ℕ). x / 2 ^ m) ((==_iff base (addr / 2 ^ m * 2 ^ m)).0 t)
          ∙ mul-div_cancel (addr / 2 ^ m) (two_pow_pos m)))

width_table : passes_below 33 (λ len. 2 ^ len * 2 ^ (32 - len) == 2 ^ 32) ≡ true
unfolding passes_below
width_table = refl

mask_table :
    passes_below 33 (λ len. get_or (masks_from 33 0) len 0 == (2 ^ len - 1) * 2 ^ (32 - len)) ≡ true
unfolding passes_below masks_from
mask_table = refl

-- The `len`-th mask of the constructor's loop clears the bits behind the prefix.
pub bit_and-masks :
    (addr len m : ℕ)
    → len + m ≡ 32
    → addr < 2 ^ 32
    → bit_and addr (get_or (masks_from 33 0) len 0) ≡ addr / 2 ^ m * 2 ^ m
bit_and-masks addr len m e ha =
    let m' : 32 - len ≡ m = omega arith in
    let mask : get_or (masks_from 33 0) len 0 ≡ (2 ^ len - 1) * 2 ^ m =
      rw m' at ((==_iff _ _).0 (passes_below_sound 33 _ len mask_table (omega arith))) in
    let width : 2 ^ len * 2 ^ m ≡ 2 ^ 32 =
      rw m' at ((==_iff _ _).0 (passes_below_sound 33 _ len width_table (omega arith))) in
    let small : addr / 2 ^ m < 2 ^ len = (div-lt_iff_lt-mul (two_pow_pos m)).1 (rw width ha) in
    rw (mask, bit_and_high m addr (2 ^ len - 1), bit_and_low len (addr / 2 ^ m), mod-eq_of_lt small)
