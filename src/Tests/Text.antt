-- ===== src/Tests/Text.antt =====
-- A MAC address, its text, texts that are none, and a file with one line.
use ariadne.Base.{
  ℕ, ◌+◌, ◌*◌, ◌-◌, ◌==◌, ◌≡◌, refl, arith, List, [], ◌∷◌, length, Option, some, true, false,
  get_or,
}
use ariadne.Util.MacText.{
  mac_to_str, parse_mac, hex_byte, hex_digit, scan_bytes, scan_hex, scan_signed, skip_spaces,
  split_sign, skip_prefix, hex_number, hex_digits, hex_value, stored, parse_mac-mac_to_str,
}
use ariadne.CommandLine.{is_space, is_digit}
use ariadne.RoutingTable.{Entries}
use ariadne.FileTable.{digits_value, file_table}
use ariadne.FileTable.Lines.{Run, Dotted, Line}
use ariadne.FileTable.Loaded.{of_length, file_text, line_routes, file_table-file_text}
use ariadne.Tests.Lookup.{seven}

abbrev card : List ℕ
card = 0xfe ∷ 0x0a ∷ 0 ∷ 0x90 ∷ 9 ∷ 0xff ∷ []

parse_mac-mac_to_str_example :
    (length (mac_to_str card) ≡ 17) × (parse_mac seven (mac_to_str card) ≡ card)
parse_mac-mac_to_str_example = parse_mac-mac_to_str seven card refl (omega arith)

-- "fe:0a" prints with the digits of a byte, and " 0x1:-1:g" stops at the third number.
prints : mac_to_str (0xfe ∷ 0x0a ∷ []) ≡ 102 ∷ 101 ∷ 58 ∷ 48 ∷ 97 ∷ []
unfolding mac_to_str hex_byte hex_digit
prints = refl

stops :
    parse_mac seven (32 ∷ 48 ∷ 120 ∷ 49 ∷ 58 ∷ 45 ∷ 49 ∷ 58 ∷ 103 ∷ [])
    ≡ 1 ∷ 255 ∷ 0 ∷ 0 ∷ 0 ∷ 0 ∷ []
unfolding parse_mac scan_bytes scan_hex scan_signed skip_spaces split_sign skip_prefix hex_number
    hex_digits hex_value stored is_space
stops = refl

-- `inet_aton` on four numbers with dots: `place` is the weight of the number `part`, the first of
-- which is the lowest byte.
abbrev aton_from : ℕ → ℕ → ℕ → List ℕ → Option ℕ
aton_from place part sum [] = some (sum + part * place)
aton_from place part sum (c ∷ cs) = elim (c == 46) [
  | true ↦ aton_from (place * 256) 0 (sum + part * place) cs
  | false ↦ aton_from place (part * 10 + (c - 48)) sum cs
]

abbrev aton : List ℕ → Option ℕ
aton text = aton_from 1 0 0 text

abbrev nothing_left : List ℕ → ℕ
nothing_left line = 0

runs_one : Run is_digit (49 ∷ [])
unfolding is_digit
runs_one = (refl, tt)

runs_ten : Run is_digit (49 ∷ 48 ∷ [])
unfolding is_digit
runs_ten = (refl, (refl, tt))

runs_blank : Run is_space (32 ∷ [])
unfolding is_space
runs_blank = (refl, tt)

-- "10.1.1.1" and "1.1.1.10".
abbrev net : Dotted
net = record {
  a = 49 ∷ 48 ∷ [];
  b = 49 ∷ [];
  c = 49 ∷ [];
  d = 49 ∷ [];
  run_a = runs_ten;
  run_b = runs_one;
  run_c = runs_one;
  run_d = runs_one;
}

abbrev gateway : Dotted
gateway = record {
  a = 49 ∷ [];
  b = 49 ∷ [];
  c = 49 ∷ [];
  d = 49 ∷ 48 ∷ [];
  run_a = runs_one;
  run_b = runs_one;
  run_c = runs_one;
  run_d = runs_ten;
}

-- "10.1.1.1/10 1.1.1.10 ".
abbrev file_line : Line aton
unfolding digits_value
file_line = record {
  base = net;
  len = 49 ∷ 48 ∷ [];
  gap = 32 ∷ [];
  hop = gateway;
  tail = 32 ∷ [];
  run_len = runs_ten;
  run_gap = runs_blank;
  run_tail = runs_blank;
  inline_gap = (refl, tt);
  inline_tail = (refl, tt);
  short_len = omega arith;
  base_addr = 0x0101010a;
  hop_addr = 0x0a010101;
  base_read = refl;
  hop_read = refl;
}

file_table-file_text_example :
    (es : Entries) × (file_table aton nothing_left
        (some (file_text aton (file_line ∷ []) (49 ∷ [])))
      ≡ some es)
    × (length es ≡ 33)
    × ((k : ℕ) → get_or es k [] ≡ of_length k (line_routes aton (file_line ∷ [])))
file_table-file_text_example =
    file_table-file_text aton nothing_left (file_line ∷ []) (49 ∷ []) (refl, tt)
