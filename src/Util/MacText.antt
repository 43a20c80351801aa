-- ===== src/Util/MacText.antt =====
-- include/util.hpp, `mac_to_str` and `parseMac`: MAC addresses as text, which is the list of its
-- character codes.
use ariadne.Base.{
  ℕ, zero, suc, ◌+◌, ◌-◌, ◌*◌, ◌/◌, ◌%◌, ◌^◌, ◌==◌, ◌<◌, ◌≡◌, ◌&&◌, ◌||◌, refl, arith, ltb, not,
  if◌then◌else◌, Bool, true, false, List, [], ◌∷◌, ◌++◌, length, replicate, Option, some, none,
  Bool-cases, inl, inr, All, ap, ◌∙◌,
}
use ariadne.Util.{u8, u32}
use ariadne.CommandLine.{is_space}

-- One digit of `%x`.
unfoldable pub hex_digit : ℕ → ℕ
hex_digit d = if ltb d 10 then 48 + d else 87 + d

-- `%02x` of a byte.
unfoldable pub hex_byte : ℕ → List ℕ
unfolding hex_digit
hex_byte b = hex_digit (b / 16) ∷ hex_digit (b % 16) ∷ []

-- The `sprintf` with a colon between the bytes; the array has six of them.
unfoldable pub mac_to_str : List ℕ → List ℕ
unfolding hex_byte
mac_to_str [] = []
mac_to_str (b ∷ []) = hex_byte b
mac_to_str (b ∷ c ∷ bs) = hex_byte b ++ 58 ∷ mac_to_str (c ∷ bs)

unfoldable pub hex_value : ℕ → Option ℕ
hex_value c =
    if not (ltb c 48) && not (ltb 57 c)
    then some (c - 48)
    else (if not (ltb c 97) && not (ltb 102 c)
        then some (c - 87)
        else (if not (ltb c 65) && not (ltb 70 c) then some (c - 55) else none))

unfoldable pub skip_spaces : List ℕ → List ℕ
unfolding is_space
skip_spaces [] = []
skip_spaces (c ∷ cs) = let rest = skip_spaces cs in if is_space c then rest else c ∷ cs

-- An optional sign, and whether it is a minus.
unfoldable pub split_sign : List ℕ → Bool × List ℕ
split_sign [] = (false, [])
split_sign (c ∷ cs) =
    if c == 45 then (true, cs) else (if c == 43 then (false, cs) else (false, c ∷ cs))

-- An optional `0x` or `0X`.
unfoldable pub skip_prefix : List ℕ → List ℕ
skip_prefix [] = []
skip_prefix (c ∷ []) = c ∷ []
skip_prefix (c ∷ d ∷ cs) = if c == 48 && (d == 120 || d == 88) then cs else c ∷ d ∷ cs

-- The digits that come, and what is behind them.
unfoldable pub hex_digits : ℕ → List ℕ → ℕ × List ℕ
unfolding hex_value
hex_digits value [] = (value, [])
hex_digits value (c ∷ cs) = elim (hex_value c) [
  | none ↦ (value, c ∷ cs)
  | some v ↦ hex_digits (value * 16 + v) cs
]

unfoldable pub hex_number : List ℕ → Option (ℕ × List ℕ)
unfolding hex_value hex_digits
hex_number [] = none
hex_number (c ∷ cs) = elim (hex_value c) [ none ↦ none | some v ↦ some (hex_digits v cs) ]

module _ (oversize : ℕ → ℕ) where
  -- What `%x` stores. A number that an unsigned int cannot hold is undefined by the standard:
  -- `oversize` is what is then stored.
  unfoldable pub stored : Bool → ℕ → ℕ
  stored minus v =
      if ltb v (2 ^ 32) then (if minus then u32 (2 ^ 32 - v) else v) else u32 (oversize v)

  unfoldable pub scan_signed : Bool × List ℕ → Option (ℕ × List ℕ)
  unfolding skip_prefix hex_number stored
  scan_signed (minus, text) = elim (hex_number (skip_prefix text)) [
    | none ↦ none
    | some (v, behind) ↦ some (stored minus v, behind)
  ]

  -- The conversion `%x` of `sscanf`; `none` is a matching failure.
  unfoldable pub scan_hex : List ℕ → Option (ℕ × List ℕ)
  unfolding scan_signed skip_spaces split_sign
  scan_hex text = scan_signed (split_sign (skip_spaces text))

  -- The conversions that are to come, the first of them next, and the assignment to the bytes. What
  -- is not converted stays 0.
  unfoldable pub scan_bytes : ℕ → List ℕ → List ℕ
  unfolding scan_hex
  scan_bytes zero text = []
  scan_bytes (suc left) text = elim (scan_hex text) [
    | none ↦ replicate (suc left) 0
    | some (v, []) ↦ u8 v ∷ replicate left 0
    | some (v, c ∷ cs) ↦
        u8 v ∷ (elim (c == 58) [ true ↦ scan_bytes left cs | false ↦ replicate left 0 ])
  ]

  unfoldable pub parse_mac : List ℕ → List ℕ
  unfolding scan_bytes
  parse_mac text = scan_bytes 6 text

-- A digit is neither a space nor a sign, and no letter of a prefix.
record IsDigit (c d : ℕ) : Type 0 where
  value : hex_value c ≡ some d
  space : is_space c ≡ false
  minus : (c == 45) ≡ false
  plus : (c == 43) ≡ false
  lower : (c == 120) ≡ false
  upper : (c == 88) ≡ false

hex_digit-IsDigit : (d : ℕ) → d < 16 → IsDigit (hex_digit d) d
unfolding hex_digit hex_value is_space
hex_digit-IsDigit d h = elim (Bool-cases (ltb d 10)) [
  | inl e ↦ record {
    value = ground arith;
    space = ground arith;
    minus = ground arith;
    plus = ground arith;
    lower = ground arith;
    upper = ground arith;
  }
  | inr e ↦ record {
    value = ground arith;
    space = ground arith;
    minus = ground arith;
    plus = ground arith;
    lower = ground arith;
    upper = ground arith;
  }
]

abbrev Stops : List ℕ → Type 0
Stops [] = Unit
Stops (c ∷ cs) = c ≡ 58

no_more_digits : (v : ℕ) (rest : List ℕ) → Stops rest → hex_digits v rest ≡ (v, rest)
unfolding hex_digits hex_value
no_more_digits v [] h = refl
no_more_digits v (c ∷ cs) h = rw h refl

module _ (oversize : ℕ → ℕ) where
  stored_small : (v : ℕ) → v < 2 ^ 32 → stored oversize false v ≡ v
  unfolding stored
  stored_small v h = ground arith

  module _ (c d x y : ℕ) (p : IsDigit c x) (q : IsDigit d y) (rest : List ℕ) where
    no_space : skip_spaces (c ∷ d ∷ rest) ≡ c ∷ d ∷ rest
    unfolding skip_spaces
    no_space = rw (p.space, skip_spaces) refl

    no_sign : split_sign (c ∷ d ∷ rest) ≡ (false, c ∷ d ∷ rest)
    unfolding split_sign
    no_sign = rw (p.minus, p.plus) refl

    no_prefix : skip_prefix (c ∷ d ∷ rest) ≡ c ∷ d ∷ rest
    unfolding skip_prefix
    no_prefix = elim (Bool-cases (c == 48)) [
      | inl e ↦ rw (e, q.lower, q.upper) refl
      | inr e ↦ rw e refl
    ]

    both_digits : Stops rest → hex_number (c ∷ d ∷ rest) ≡ some (x * 16 + y, rest)
    unfolding hex_number hex_digits
    both_digits stop =
        rw (p.value, hex_number)
          (rw (q.value, hex_digits) (ap some (no_more_digits (x * 16 + y) rest stop)))

    two_digits :
        x < 16 → y < 16 → Stops rest → scan_hex oversize (c ∷ d ∷ rest) ≡ some (x * 16 + y, rest)
    unfolding scan_hex scan_signed
    two_digits hx hy stop =
        ap (λ t. scan_signed oversize (split_sign t)) no_space
        ∙ ap (scan_signed oversize) no_sign
        ∙ rw (no_prefix, scan_signed)
            (rw (both_digits stop, scan_signed)
              (rw (stored_small (x * 16 + y) (omega (arith, hx, hy)), stored) refl))

  scan_byte :
      (b : ℕ) (rest : List ℕ)
      → b < 256
      → Stops rest
      → scan_hex oversize (hex_byte b ++ rest) ≡ some (b, rest)
  unfolding hex_byte
  scan_byte b rest h stop =
      let value : b / 16 * 16 + b % 16 ≡ b = omega arith in
      two_digits (hex_digit (b / 16)) (hex_digit (b % 16)) (b / 16) (b % 16)
        (hex_digit-IsDigit (b / 16) (omega arith)) (hex_digit-IsDigit (b % 16) (omega arith)) rest
        (omega arith) (omega arith) stop
      ∙ ap (λ v. some (v, rest)) value

  scan_last : (b : ℕ) → b < 256 → scan_hex oversize (mac_to_str (b ∷ [])) ≡ some (b, [])
  unfolding mac_to_str hex_byte
  scan_last b h = scan_byte b [] h tt

  scan_next :
      (b c : ℕ) (bs : List ℕ)
      → b < 256
      → scan_hex oversize (mac_to_str (b ∷ c ∷ bs)) ≡ some (b, 58 ∷ mac_to_str (c ∷ bs))
  unfolding mac_to_str hex_byte
  scan_next b c bs h = scan_byte b (58 ∷ mac_to_str (c ∷ bs)) h refl

  scan_bytes-mac_to_str :
      (b : ℕ) (bs : List ℕ)
      → All (λ x. x < 256) (b ∷ bs)
      → scan_bytes oversize (length (b ∷ bs)) (mac_to_str (b ∷ bs)) ≡ b ∷ bs
  unfolding scan_bytes
  scan_bytes-mac_to_str b [] (h, _) =
      let byte : u8 b ≡ b = omega arith in rw (scan_last b h, scan_bytes) (ap (λ z. z ∷ []) byte)
  scan_bytes-mac_to_str b (c ∷ bs) (h, hs) =
      let rest = scan_bytes-mac_to_str c bs hs in
      let byte : u8 b ≡ b = omega arith in
      rw (scan_next b c bs h, scan_bytes)
        (ap (λ z. z ∷ scan_bytes oversize (length (c ∷ bs)) (mac_to_str (c ∷ bs))) byte
          ∙ ap (λ z. b ∷ z) rest)

length-mac_to_str : (b : ℕ) (bs : List ℕ) → length (mac_to_str (b ∷ bs)) ≡ 3 * length bs + 2
unfolding mac_to_str hex_byte
length-mac_to_str b [] = refl
length-mac_to_str b (c ∷ bs) = omega (arith, length-mac_to_str c bs)

-- The text of six bytes has 17 characters, so that `sprintf` fits its array of 18 with the null, and
-- `parseMac` reads the bytes back from it, whatever it makes of numbers too large for an int.
pub parse_mac-mac_to_str :
    (oversize : ℕ → ℕ) (mac : List ℕ)
    → length mac ≡ 6
    → All (λ x. x < 256) mac
    → (length (mac_to_str mac) ≡ 17) × (parse_mac oversize (mac_to_str mac) ≡ mac)
unfolding parse_mac
parse_mac-mac_to_str oversize [] six small = absurd (omega arith)
parse_mac-mac_to_str oversize (b ∷ bs) six small =
    (omega (arith, length-mac_to_str b bs), rw (← six) (scan_bytes-mac_to_str oversize b bs small))
