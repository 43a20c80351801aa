-- ===== src/FileTable/Lines.antt =====
-- What src/fileTable.cpp makes of a file of well-formed lines.
use ariadne.Base.{
  ℕ, ◌==◌, ◌≤◌, ◌≡◌, refl, sym, ap, ◌∙◌, arith, Bool, true, false, List, [], ◌∷◌, ◌++◌, Option,
  some, All, ==_iff, subst,
}
use mathlib.Core.List.{append-nil}
use ariadne.CommandLine.{is_digit, is_space}
use ariadne.FileTable.{span, span_some, literal, match_dotted, at_end, match_line, digits_value}

-- A nonempty text of characters that pass the test.
abbrev pub Run : (ℕ → Bool) → List ℕ → Type 0
Run p [] = ⊥
Run p (c ∷ cs) = All (λ x. p x ≡ true) (c ∷ cs)

-- The text does not go on with a character that passes the test.
abbrev pub Breaks : (ℕ → Bool) → List ℕ → Type 0
Breaks p [] = Unit
Breaks p (c ∷ cs) = p c ≡ false

module _ (p : ℕ → Bool) where
  span-append :
      (xs rest : List ℕ)
      → All (λ x. p x ≡ true) xs
      → Breaks p rest
      → span p (xs ++ rest) ≡ (xs, rest)
  unfolding span
  span-append [] [] h stop = refl
  span-append [] (c ∷ cs) h stop = rw stop refl
  span-append (x ∷ xs) rest (h, hs) stop =
      let later = span-append xs rest hs stop in rw (h, span) (ap (λ z. (x ∷ z.0, z.1)) later)

  span_some-append :
      (xs rest : List ℕ) → Run p xs → Breaks p rest → span_some p (xs ++ rest) ≡ some (xs, rest)
  unfolding span_some
  span_some-append [] rest h stop = absurd h
  span_some-append (x ∷ xs) rest (h, hs) stop =
      let later = span-append xs rest hs stop in
      rw (h, span_some) (ap (λ z. some (x ∷ z.0, z.1)) later)

-- Four numbers with dots between them.
pub record Dotted : Type 0 where
  pub a : List ℕ
  pub b : List ℕ
  pub c : List ℕ
  pub d : List ℕ
  pub run_a : Run is_digit a
  pub run_b : Run is_digit b
  pub run_c : Run is_digit c
  pub run_d : Run is_digit d

abbrev pub dotted_text : Dotted → List ℕ
dotted_text t = t.a ++ (46 ∷ (t.b ++ (46 ∷ (t.c ++ (46 ∷ t.d)))))

skip_literal : (d : ℕ) (rest : List ℕ) → literal d (d ∷ rest) ≡ some rest
unfolding literal
skip_literal d rest = let same : (d == d) ≡ true = (==_iff d d).1 refl in rw same refl

dot_breaks : is_digit 46 ≡ false
unfolding is_digit
dot_breaks = refl

abbrev pub dotted_then : Dotted → List ℕ → List ℕ
dotted_then t rest = t.a ++ (46 ∷ (t.b ++ (46 ∷ (t.c ++ (46 ∷ (t.d ++ rest))))))

slash_breaks : is_digit 47 ≡ false
unfolding is_digit
slash_breaks = refl

match_dotted-append :
    (t : Dotted) (rest : List ℕ)
    → Breaks is_digit rest
    → match_dotted (dotted_then t rest) ≡ some (dotted_text t, rest)
unfolding match_dotted literal
match_dotted-append t rest stop =
    let behind_c = 46 ∷ (t.d ++ rest) in
    let behind_b = 46 ∷ (t.c ++ behind_c) in
    let behind_a = 46 ∷ (t.b ++ behind_b) in
    rw (span_some-append is_digit t.a behind_a t.run_a dot_breaks, match_dotted)
      (rw (span_some-append is_digit t.b behind_b t.run_b dot_breaks, match_dotted)
        (rw (span_some-append is_digit t.c behind_c t.run_c dot_breaks, match_dotted)
          (rw (span_some-append is_digit t.d rest t.run_d stop, match_dotted) refl)))

Run-Breaks :
    (p q : ℕ → Bool) (xs rest : List ℕ)
    → ((c : ℕ) → p c ≡ true → q c ≡ false)
    → Run p xs
    → Breaks q (xs ++ rest)
Run-Breaks p q [] rest apart h = absurd h
Run-Breaks p q (c ∷ cs) rest apart (h, _) = apart c h

not_digit : (c : ℕ) → is_space c ≡ true → is_digit c ≡ false
unfolding is_space is_digit
not_digit c h = ground arith

not_space : (c : ℕ) → is_digit c ≡ true → is_space c ≡ false
unfolding is_space is_digit
not_space c h = ground arith

abbrev pub IsInline : ℕ → Type 0
IsInline c = (c == 10) ≡ false

-- A line of the file: an address, the length of its prefix, the address of the next hop, each with
-- white space behind it but the first, and what `inet_aton` makes of the addresses.
module _ (inet_aton : List ℕ → Option ℕ) where
  pub record Line : Type 0 where
    pub base : Dotted
    pub len : List ℕ
    pub gap : List ℕ
    pub hop : Dotted
    pub tail : List ℕ
    pub run_len : Run is_digit len
    pub run_gap : Run is_space gap
    pub run_tail : Run is_space tail
    pub inline_gap : All IsInline gap
    pub inline_tail : All IsInline tail
    pub short_len : digits_value 0 len ≤ 32
    pub base_addr : ℕ
    pub hop_addr : ℕ
    pub base_read : inet_aton (dotted_text base) ≡ some base_addr
    pub hop_read : inet_aton (dotted_text hop) ≡ some hop_addr

  abbrev pub line_text : Line → List ℕ
  line_text l = dotted_then l.base (47 ∷ (l.len ++ (l.gap ++ dotted_then l.hop l.tail)))

  pub line_matches :
      (l : Line) → match_line (line_text l) ≡ some (dotted_text l.base, l.len, dotted_text l.hop)
  unfolding match_line literal at_end
  line_matches l =
      let slash : is_digit 47 ≡ false = slash_breaks in
      let behind_gap = dotted_then l.hop l.tail in
      let behind_len = l.gap ++ behind_gap in
      let at_tail : Breaks is_digit l.tail =
        subst (Breaks is_digit) (append-nil l.tail)
          (Run-Breaks is_space is_digit l.tail [] not_digit l.run_tail) in
      let last : span_some is_space l.tail ≡ some (l.tail, []) =
        ap (span_some is_space) (sym (append-nil l.tail))
        ∙ span_some-append is_space l.tail [] l.run_tail tt in
      rw (match_dotted-append l.base (47 ∷ (l.len ++ behind_len)) slash, match_line)
        (rw
          (
            span_some-append is_digit l.len behind_len l.run_len
                (Run-Breaks is_space is_digit l.gap behind_gap not_digit l.run_gap),
            match_line,
          )
          (rw
            (
              span_some-append is_space l.gap behind_gap l.run_gap
                  (Run-Breaks is_digit is_space l.hop.a _ not_space l.hop.run_a),
              match_line,
            )
            (rw (match_dotted-append l.hop l.tail at_tail, match_line)
              (rw (last, match_line) refl))))
