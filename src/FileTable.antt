-- ===== src/FileTable.antt =====
-- src/fileTable.cpp: a routing table from a text file. Texts are lists of character codes. The
-- interfaces stay null and the indices invalid.
use ariadne.Base.{
  ℕ, zero, suc, ◌+◌, ◌-◌, ◌*◌, ◌==◌, ◌≤◌, ◌≡◌, ◌≢◌, ltb, if◌then◌else◌, Bool, true, false, List, [],
  ◌∷◌, ◌++◌, replicate, get_elem?, set, Option, some, none, ◌>>=◌,
}
use ariadne.Util.{ntohl}
use ariadne.CommandLine.{is_digit, is_space}
use ariadne.RoutingTable.{Route, Entries, new_route}
pub mod Lines
pub mod Loaded

-- `\d+` and `\s+` take as much as there is: in the pattern neither is followed by what it takes.
unfoldable pub span : (ℕ → Bool) → List ℕ → List ℕ × List ℕ
span p [] = ([], [])
span p (c ∷ cs) = let (taken, rest) = span p cs in if p c then (c ∷ taken, rest) else ([], c ∷ cs)

unfoldable pub span_some : (ℕ → Bool) → List ℕ → Option (List ℕ × List ℕ)
unfolding span
span_some p [] = none
span_some p (c ∷ cs) = let (taken, rest) = span p cs in if p c then some (c ∷ taken, rest) else none

unfoldable pub literal : ℕ → List ℕ → Option (List ℕ)
literal d [] = none
literal d (c ∷ cs) = if c == d then some cs else none

-- `\d+\.\d+\.\d+\.\d+` with the text that it matches; 46 is the dot.
unfoldable pub match_dotted : List ℕ → Option (List ℕ × List ℕ)
unfolding span_some literal is_digit
match_dotted text = do
  (a, text1) ← span_some is_digit text
  text2 ← literal 46 text1
  (b, text3) ← span_some is_digit text2
  text4 ← literal 46 text3
  (c, text5) ← span_some is_digit text4
  text6 ← literal 46 text5
  (d, text7) ← span_some is_digit text6
  some (a ++ (46 ∷ (b ++ (46 ∷ (c ++ (46 ∷ d))))), text7)

unfoldable pub at_end : List ℕ → List ℕ × List ℕ × List ℕ → Option (List ℕ × List ℕ × List ℕ)
at_end [] groups = some groups
at_end (c ∷ cs) groups = none

-- `regex_match`, which wants the whole line, with the three groups; 47 is the slash.
unfoldable pub match_line : List ℕ → Option (List ℕ × List ℕ × List ℕ)
unfolding match_dotted span_some literal at_end is_digit is_space
match_line line = do
  (addr, line1) ← match_dotted line
  line2 ← literal 47 line1
  (len, line3) ← span_some is_digit line2
  (gap, line4) ← span_some is_space line3
  (next_hop, line5) ← match_dotted line4
  (gap', line6) ← span_some is_space line5
  at_end line6 (addr, len, next_hop)

-- What `m[1]`, `m[2]` and `m[3]` are: empty without a match.
unfoldable pub groups : List ℕ → List ℕ × List ℕ × List ℕ
unfolding match_line
groups line = elim (match_line line) [ none ↦ ([], [], []) | some g ↦ g ]

-- `atoi` of a group, which is empty or has digits only.
unfoldable pub digits_value : ℕ → List ℕ → ℕ
digits_value value [] = value
digits_value value (c ∷ cs) = digits_value (value * 10 + (c - 48)) cs

-- The lines that end in a newline, which is 10: at the end of the file `eof` holds before the rest is
-- looked at.
unfoldable pub complete_lines : List ℕ → List ℕ → List (List ℕ)
complete_lines line [] = []
complete_lines line (c ∷ cs) = elim (c == 10) [
  | true ↦ line ∷ complete_lines [] cs
  | false ↦ complete_lines (line ++ c ∷ []) cs
]

-- `(*entries)[len].push_back(route)`; `none` is an access out of range.
unfoldable pub push_route : Route → Entries → Option Entries
push_route r es = elim (get_elem? es r.prefix_length) [
  | none ↦ none
  | some rs ↦ some (set es r.prefix_length (rs ++ r ∷ []))
]

-- `in_addr` after an `inet_aton`, which sets it only where it succeeds.
abbrev pub converted : Option ℕ → ℕ → ℕ
converted none before = before
converted (some s_addr) before = s_addr

-- `inet_aton` gives the address in network order, or refuses. `in_addr` has no value at the start of
-- a round: `left_over` is what then stands there.
module _ (inet_aton : List ℕ → Option ℕ) (left_over : List ℕ → ℕ) where
  unfoldable pub route_of : List ℕ → Route
  unfolding groups digits_value
  route_of line =
      let (addr, len, next_hop) = groups line in
      let in_addr = converted (inet_aton addr) (left_over line) in
      record new_route {
        base = ntohl in_addr;
        prefix_length = digits_value 0 len;
        next_hop = ntohl (converted (inet_aton next_hop) in_addr);
      }

  unfoldable pub read_lines : List (List ℕ) → Entries → Option Entries
  unfolding route_of push_route
  read_lines [] es = some es
  read_lines (line ∷ lines) es = elim (push_route (route_of line) es) [
    | none ↦ none
    | some es' ↦ read_lines lines es'
  ]

  -- The constructor; `none` in place of the file is one that cannot be opened.
  unfoldable pub file_table : Option (List ℕ) → Option Entries
  unfolding read_lines complete_lines
  file_table none = none
  file_table (some text) = read_lines (complete_lines [] text) (replicate 33 [])
