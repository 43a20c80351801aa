-- ===== src/FileTable/Loaded.antt =====
-- The table that src/fileTable.cpp reads from a file of well-formed lines.
use mathlib.Core.List.{append-nil, append_assoc}
use ariadne.Base.{
  ℕ, ◌==◌, ◌<◌, ◌≡◌, ◌≢◌, refl, sym, ap, ◌∙◌, arith, true, List, [], ◌∷◌, ◌++◌, length, length-set,
  replicate, length-replicate, get_or, get_or-set_self, get_or-set_ne, get_elem?-eq-get_or,
  get_or-replicate, set, Option, some, All, All-append, Bool-cases, inl, inr, if◌then◌else◌, ==_iff,
  subst,
}
use ariadne.Util.{ntohl}
use ariadne.CommandLine.{is_digit}
use ariadne.RoutingTable.{Route, Entries, new_route}
use ariadne.FileTable.{
  groups, digits_value, complete_lines, push_route, route_of, read_lines, file_table,
}
use ariadne.FileTable.Lines.{Run, Dotted, dotted_then, IsInline, Line, line_text, line_matches}

cut_line :
    (line xs rest : List ℕ)
    → All IsInline xs
    → complete_lines line (xs ++ (10 ∷ rest)) ≡ (line ++ xs) ∷ complete_lines [] rest
unfolding complete_lines
cut_line line [] rest h = ap (λ l. l ∷ complete_lines [] rest) (sym (append-nil line))
cut_line line (x ∷ xs) rest (h, hs) =
    let later = cut_line (line ++ x ∷ []) xs rest hs in
    rw (h, complete_lines)
      (later ∙ ap (λ l. l ∷ complete_lines [] rest) (append_assoc line (x ∷ []) xs))

cut_rest : (line xs : List ℕ) → All IsInline xs → complete_lines line xs ≡ []
unfolding complete_lines
cut_rest line [] h = refl
cut_rest line (x ∷ xs) (h, hs) = rw (h, complete_lines) (cut_rest (line ++ x ∷ []) xs hs)

is_digit-IsInline : (c : ℕ) → is_digit c ≡ true → IsInline c
unfolding is_digit
is_digit-IsInline c h = ground arith

All-IsInline : (xs : List ℕ) → All (λ x. is_digit x ≡ true) xs → All IsInline xs
All-IsInline [] h = tt
All-IsInline (x ∷ xs) (h, hs) = (is_digit-IsInline x h, All-IsInline xs hs)

Run-IsInline : (xs : List ℕ) → Run is_digit xs → All IsInline xs
Run-IsInline [] h = absurd h
Run-IsInline (x ∷ xs) h = All-IsInline (x ∷ xs) h

dotted_then-IsInline :
    (t : Dotted) (rest : List ℕ) → All IsInline rest → All IsInline (dotted_then t rest)
dotted_then-IsInline t rest h = All-append IsInline t.a _ (Run-IsInline t.a t.run_a) (
  refl,
  All-append IsInline t.b _ (Run-IsInline t.b t.run_b) (
    refl,
    All-append IsInline t.c _ (Run-IsInline t.c t.run_c)
        (refl, All-append IsInline t.d rest (Run-IsInline t.d t.run_d) h),
  ),
)

-- The routes of one length, in their order.
abbrev pub of_length : ℕ → List Route → List Route
of_length k [] = []
of_length k (r ∷ rs) = let rest = of_length k rs in if r.prefix_length == k then r ∷ rest else rest

module _ (inet_aton : List ℕ → Option ℕ) where
  line_text-IsInline : (l : Line inet_aton) → All IsInline (line_text inet_aton l)
  line_text-IsInline l = dotted_then-IsInline l.base _ (
    refl,
    All-append IsInline l.len _ (Run-IsInline l.len l.run_len) (
        All-append IsInline l.gap _ l.inline_gap (dotted_then-IsInline l.hop l.tail l.inline_tail)),
  )

  -- The lines, each with its newline, and then `last` without one.
  abbrev pub file_text : List (Line inet_aton) → List ℕ → List ℕ
  file_text [] last = last
  file_text (l ∷ ls) last = line_text inet_aton l ++ (10 ∷ file_text ls last)

  abbrev pub texts : List (Line inet_aton) → List (List ℕ)
  texts [] = []
  texts (l ∷ ls) = line_text inet_aton l ∷ texts ls

  complete_lines-file_text :
      (ls : List (Line inet_aton)) (last : List ℕ)
      → All IsInline last
      → complete_lines [] (file_text ls last) ≡ texts ls
  complete_lines-file_text [] last h = cut_rest [] last h
  complete_lines-file_text (l ∷ ls) last h =
      cut_line [] (line_text inet_aton l) (file_text ls last) (line_text-IsInline l)
      ∙ ap (λ z. line_text inet_aton l ∷ z) (complete_lines-file_text ls last h)

  -- The route that a line stands for.
  abbrev pub line_route : Line inet_aton → Route
  line_route l = record new_route {
    base = ntohl l.base_addr;
    prefix_length = digits_value 0 l.len;
    next_hop = ntohl l.hop_addr;
  }

  abbrev pub line_routes : List (Line inet_aton) → List Route
  line_routes [] = []
  line_routes (l ∷ ls) = line_route l ∷ line_routes ls

module _ (inet_aton : List ℕ → Option ℕ) (left_over : List ℕ → ℕ) where
  route_of-line_text :
      (l : Line inet_aton)
      → route_of inet_aton left_over (line_text inet_aton l) ≡ line_route inet_aton l
  unfolding route_of groups
  route_of-line_text l = rw (line_matches inet_aton l, groups) (rw (l.base_read, l.hop_read) refl)

  -- From `es` to `es'` the routes were pushed, each to the level of its length.
  abbrev Pushed : List Route → Entries → Entries → Type 0
  Pushed rs es es' =
      (length es' ≡ length es) × ((k : ℕ) → get_or es' k [] ≡ get_or es k [] ++ of_length k rs)

  push_route-Pushed :
      (r : Route) (es : Entries)
      → r.prefix_length < length es
      → (es' : Entries) × (push_route r es ≡ some es') × Pushed (r ∷ []) es es'
  unfolding push_route
  push_route-Pushed r es inside =
      let len = r.prefix_length in
      let old = get_or es len [] in
      let at_len = get_elem?-eq-get_or es len [] inside in
      (
        set es len (old ++ r ∷ []),
        rw (at_len, push_route) refl,
        (
          length-set es len (old ++ r ∷ []),
          λ k. elim (Bool-cases (len == k)) [
            | inl e ↦
                let same : len ≡ k = (==_iff len k).0 e in
                rw (e) (
                  subst (λ j. get_or (set es len (old ++ r ∷ [])) j [] ≡ get_or es j [] ++ r ∷ [])
                    same (get_or-set_self es len (old ++ r ∷ []) [] inside))
            | inr e ↦
                let apart : len ≢ k = λ q. absurd (ground (arith, e, q)) in
                rw (e) (
                  get_or-set_ne es len k (old ++ r ∷ []) [] apart
                  ∙ sym (append-nil (get_or es k [])))
          ],
        ),
      )

  Pushed-cons :
      (r : Route) (rs : List Route) (es es1 es2 : Entries)
      → Pushed (r ∷ []) es es1
      → Pushed rs es1 es2
      → Pushed (r ∷ rs) es es2
  Pushed-cons r rs es es1 es2 (size, one) (size', more) = (
    size' ∙ size,
    λ k.
        more k
        ∙ ap (λ z. z ++ of_length k rs) (one k)
        ∙ append_assoc (get_or es k []) (of_length k (r ∷ [])) (of_length k rs)
        ∙ ap (λ z. get_or es k [] ++ z)
            (elim (Bool-cases (r.prefix_length == k)) [ inl e ↦ rw e refl | inr e ↦ rw e refl ]),
  )

  read_one :
      (line : List ℕ) (lines : List (List ℕ)) (es es1 : Entries)
      → push_route (route_of inet_aton left_over line) es ≡ some es1
      → read_lines inet_aton left_over (line ∷ lines) es ≡ read_lines inet_aton left_over lines es1
  unfolding read_lines
  read_one line lines es es1 h = rw (h, read_lines) refl

  read_lines-Pushed :
      (ls : List (Line inet_aton)) (es : Entries)
      → length es ≡ 33
      → (es' : Entries) × (read_lines inet_aton left_over (texts inet_aton ls) es ≡ some es')
        × Pushed (line_routes inet_aton ls) es es'
  unfolding read_lines
  read_lines-Pushed [] es size = (es, refl, (refl, λ k. sym (append-nil (get_or es k []))))
  read_lines-Pushed (l ∷ ls) es size =
      let short = l.short_len in
      let (es1, e1, p1) =
        push_route-Pushed (line_route inet_aton l) es (omega (arith, size, short)) in
      let (es2, e2, p2) = read_lines-Pushed ls es1 (p1.0 ∙ size) in
      (
        es2,
        read_one (line_text inet_aton l) (texts inet_aton ls) es es1
              (ap (λ r. push_route r es) (route_of-line_text l) ∙ e1)
            ∙ e2,
        Pushed-cons (line_route inet_aton l) (line_routes inet_aton ls) es es1 es2 p1 p2,
      )

  -- From a file of lines `address/length address`, with white space before the second address and at
  -- the end of each line, lengths up to 32 and addresses that `inet_aton` reads, the constructor makes
  -- a table of 33 levels: each level has the routes of its length, in the order of the lines, and
  -- nothing else. Characters behind the last newline are ignored.
  pub file_table-file_text :
      (ls : List (Line inet_aton)) (last : List ℕ)
      → All IsInline last
      → (es : Entries) × (file_table inet_aton left_over (some (file_text inet_aton ls last))
          ≡ some es)
        × (length es ≡ 33)
        × ((k : ℕ) → get_or es k [] ≡ of_length k (line_routes inet_aton ls))
  unfolding file_table
  file_table-file_text ls last h =
      let fresh : Entries = replicate 33 [] in
      let (es, e, (size, levels)) =
        read_lines-Pushed ls fresh (length-replicate {A = List Route} 33 []) in
      (
        es,
        rw (complete_lines-file_text inet_aton ls last h, file_table) e,
        size ∙ length-replicate {A = List Route} 33 [],
        λ k.
            levels k
            ∙ ap (λ z. z ++ of_length k (line_routes inet_aton ls)) (get_or-replicate 33 k []),
      )
