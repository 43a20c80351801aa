-- ===== src/CommandLine.antt =====
-- src/main.cpp: the options and the interfaces of the command line.
pub mod Branches
use Prim.Native.Char.{code}
use Prim.Native.String.{String}
use ariadne.Base.{
  ℕ, zero, suc, ◌+◌, ◌-◌, ◌*◌, ◌^◌, ◌%◌, ◌==◌, ◌≡◌, ◌≢◌, ◌⊎◌, refl, arith, ltb, not, ◌&&◌, ◌||◌,
  if◌then◌else◌, Bool, true, false, List, [], ◌∷◌, Bool-cases, inl, inr, same_text, same_text_iff,
}
use ariadne.Util.{u32}

-- `argv[pos][0] == '-'`.
unfoldable pub starts_with_dash : String → Bool
starts_with_dash String.[] = false
starts_with_dash (String.◌∷◌ c s) = code c == 45

unfoldable pub is_digit : ℕ → Bool
is_digit c = not (ltb c 48) && not (ltb 57 c)

-- `isspace`: a blank, or one of the codes 9 to 13.
unfoldable pub is_space : ℕ → Bool
is_space c = c == 32 || (not (ltb c 9) && not (ltb 13 c))

unfoldable pub digits : String → ℕ → ℕ
unfolding is_digit
digits String.[] value = value
digits (String.◌∷◌ c s) value =
    let rest = digits s (value * 10 + (code c - 48)) in if is_digit (code c) then rest else value

-- An optional sign, then digits; a negative number is its two's complement of 32 bits.
unfoldable pub signed : String → ℕ
unfolding digits
signed String.[] = 0
signed (String.◌∷◌ c s) =
    if code c == 45
    then u32 (2 ^ 32 - u32 (digits s 0))
    else (if code c == 43 then u32 (digits s 0) else u32 (digits (String.◌∷◌ c s) 0))

-- `atoi` of the C library, assigned to an unsigned variable. A value beyond the range of `int`, which
-- the library leaves undefined, wraps here.
unfoldable pub atoi : String → ℕ
unfolding is_space signed
atoi String.[] = 0
atoi (String.◌∷◌ c s) =
    let rest = atoi s in if is_space (code c) then rest else signed (String.◌∷◌ c s)

-- How `main` goes on: with a number of workers and the interfaces; with the usage and the exit
-- code 0; with the exit code 1; or with a read through the null pointer that ends `argv`.
pub data Start : Type 0 where
  manager : ℕ → List String → Start
  usage : Start
  unknown_option : Start
  fault : Start

-- The branches for options other than -t; the second `strcmp` lacks a comparison with 0.
unfoldable pub other_option : String → Start
other_option a = if same_text a "-h" || not (same_text a "--help") then usage else unknown_option

-- `parseOptions` on the arguments from `pos` on, with `GlobalConfig.numWorkers`.
unfoldable pub parse_options : ℕ → List String → Start
unfolding other_option starts_with_dash atoi
parse_options workers [] = fault
parse_options workers (a ∷ []) =
    if starts_with_dash a
    then (if same_text a "-t" then fault else other_option a)
    else manager workers (a ∷ [])
parse_options workers (a ∷ b ∷ rest) =
    let later = parse_options (atoi b) rest in
    if starts_with_dash a
    then (if same_text a "-t" then later else other_option a)
    else manager workers (a ∷ b ∷ rest)

-- `main`, on the arguments behind the program's name.
unfoldable pub main : List String → Start
unfolding parse_options
main [] = usage
main (a ∷ args) = parse_options 1 (a ∷ args)
