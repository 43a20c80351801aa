-- ===== src/CommandLine/Branches.antt =====
-- How src/main.cpp goes on, for every command line.
use Prim.Native.String.{String}
use ariadne.Base.{
  ℕ, ◌≡◌, ◌≢◌, ◌⊎◌, refl, sym, subst, arith, if◌then◌else◌, ◌||◌, not, Bool, true, false, List, [],
  ◌∷◌, Bool-cases, inl, inr, same_text, same_text_iff,
}
use ariadne.CommandLine.{
  starts_with_dash, atoi, Start, manager, usage, unknown_option, fault, other_option, parse_options,
  main,
}

-- Behind the options `-t x` at the front of the arguments `args` stand `rest`; `workers` becomes
-- `workers'`.
pub data Options : ℕ → List String → ℕ → List String → Type 0 where
  no_more : {workers : ℕ} {args : List String} → Options workers args workers args
  threads :
      {workers workers' : ℕ} {x : String} {args rest : List String}
      → Options (atoi x) args workers' rest
      → Options workers ("-t" ∷ x ∷ args) workers' rest

-- What the arguments behind these options, if any, decide.
pub data Decides (workers : ℕ) : List String → Start → Type 0 where
  ends : Decides workers [] fault
  no_number : Decides workers ("-t" ∷ []) fault
  no_option :
      {a : String} {rest : List String}
      → starts_with_dash a ≡ false
      → Decides workers (a ∷ rest) (manager workers (a ∷ rest))
  help :
      {a : String} {rest : List String}
      → starts_with_dash a ≡ true
      → a ≢ "-t"
      → a ≢ "--help"
      → Decides workers (a ∷ rest) usage
  long_help : {rest : List String} → Decides workers ("--help" ∷ rest) unknown_option

abbrev pub Decided : ℕ → List String → Start → Type 0
Decided workers args start =
    (workers' : ℕ) × (rest : List String) × Options workers args workers' rest
    × Decides workers' rest start

not_long_help :
    (short long : Bool)
    → long ≡ false
    → (if short || not long then usage else unknown_option) ≡ usage
not_long_help true long e = refl
not_long_help false long e = rw e refl

other-Decides :
    (workers : ℕ) (a : String) (rest : List String)
    → starts_with_dash a ≡ true
    → a ≢ "-t"
    → Decides workers (a ∷ rest) (other_option a)
unfolding other_option
other-Decides workers a rest dash n = elim (Bool-cases (same_text a "--help")) [
  | inl e ↦
      let same = (same_text_iff a "--help").0 e in
      subst (λ x. Decides workers (x ∷ rest) (other_option x)) (sym same) long_help
  | inr e ↦
      let long : a ≢ "--help" =
        λ same. absurd (ground (arith, (same_text_iff a "--help").1 same)) in
      subst (Decides workers (a ∷ rest)) (sym (not_long_help (same_text a "-h") _ e))
        (help dash n long)
]

parse_options-Decided :
    (workers : ℕ) (args : List String) → Decided workers args (parse_options workers args)
unfolding parse_options
parse_options-Decided workers [] = (workers, [], no_more, ends)
parse_options-Decided workers (a ∷ []) = elim (Bool-cases (starts_with_dash a)) [
  | inr e ↦ rw (e, parse_options) (workers, a ∷ [], no_more, no_option e)
  | inl e ↦ elim (Bool-cases (same_text a "-t")) [
    | inl t ↦
        rw (e, parse_options)
          (rw (t, parse_options)
            (rw ((same_text_iff a "-t").0 t) (workers, "-t" ∷ [], no_more, no_number)))
    | inr t ↦
        let n : a ≢ "-t" = λ same. absurd (ground (arith, (same_text_iff a "-t").1 same)) in
        rw (e, parse_options)
          (rw (t, parse_options) (workers, a ∷ [], no_more, other-Decides workers a [] e n))
  ]
]
parse_options-Decided workers (a ∷ b ∷ rest) = elim (Bool-cases (starts_with_dash a)) [
  | inr e ↦ rw (e, parse_options) (workers, a ∷ b ∷ rest, no_more, no_option e)
  | inl e ↦ elim (Bool-cases (same_text a "-t")) [
    | inl t ↦
        let (workers', left, options, decides) = parse_options-Decided (atoi b) rest in
        rw (e, parse_options)
          (rw (t, parse_options)
            (rw ((same_text_iff a "-t").0 t) (workers', left, threads options, decides)))
    | inr t ↦
        let n : a ≢ "-t" = λ same. absurd (ground (arith, (same_text_iff a "-t").1 same)) in
        rw (e, parse_options)
          (rw (t, parse_options)
            (workers, a ∷ b ∷ rest, no_more, other-Decides workers a (b ∷ rest) e n))
  ]
]

-- Without arguments `main` prints the usage. Else the options -t x at the front set the number of
-- workers, 1 without them, and the argument behind them decides: one without a dash starts
-- the manager with it and all that follow; none, or -t without a number, is a read through a null
-- pointer; --help is an unknown option; any other option prints the usage.
pub main_branches :
    (args : List String)
    → ((args ≡ []) × (main args ≡ usage)) ⊎ ((args ≢ []) × Decided 1 args (main args))
unfolding main
main_branches [] = inl (refl, refl)
main_branches (a ∷ args) = inr ((λ e. ground arith), parse_options-Decided 1 (a ∷ args))
