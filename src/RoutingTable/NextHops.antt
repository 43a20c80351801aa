-- ===== src/RoutingTable/NextHops.antt =====
-- src/routingTable.cpp, `buildNextHopList` and the `print_table` that it ends with: every route
-- gets the index of its next hop. `none` is a read through a null pointer, an access beyond the
-- end of a vector, or a failed `assert`.
use Prim.Native.String.{String}
use ariadne.Base.{
  ℕ, zero, suc, ◌+◌, ◌==◌, ◌*◌, ◌^◌, if◌then◌else◌, bit_and, bit_or, List, [], ◌∷◌, ◌++◌, Option,
  some, none, get_elem?, ◌>>=◌,
}
use ariadne.Util.{u16}
use ariadne.Interface.{Heap, Interface, deref}
use ariadne.RoutingTable.{Route, NhAbstract, Entries, RoutingTable, nh_invalid}

-- The lines that `print_table` and the loop after it write.
pub record RouteLine : Type 0 where
  pub base : ℕ
  pub len : ℕ
  pub next_hop : ℕ
  pub name : String
  pub index : ℕ

unfoldable pub print_level : Heap → ℕ → List Route → Option (List RouteLine)
print_level heap len [] = some []
print_level heap len (r ∷ rs) = do
  i ← deref heap r.interface
  rest ← print_level heap len rs
  some (
      record { base = r.base; len = len; next_hop = r.next_hop; name = i.name; index = r.index }
      ∷ rest)

-- `left` rounds are to come, the next one at len = left - 1.
unfoldable pub print_from : Heap → Entries → ℕ → Option (List RouteLine)
print_from heap entries zero = some []
print_from heap entries (suc len) = do
  rs ← get_elem? entries len
  lines ← print_level heap len rs
  rest ← print_from heap entries len
  some (lines ++ rest)

unfoldable pub print_table : Heap → Entries → Option (List RouteLine)
unfolding print_from print_level
print_table heap entries = print_from heap entries 33

unfoldable pub print_next_hops : Heap → List NhAbstract → Option (List (ℕ × String × ℕ))
print_next_hops heap [] = some []
print_next_hops heap (nh ∷ nhs) = do
  i ← deref heap nh.interface
  rest ← print_next_hops heap nhs
  some ((nh.index, i.name, nh.nh_ip) ∷ rest)

-- What the loops over the routes change beside the routes.
pub record Numbering : Type 0 where
  pub mapping : List NhAbstract
  pub next_index : ℕ

-- `for(nh_abstract nh : *nextHopMapping) if(nh.nh_ip == r.next_hop) … break;`
unfoldable pub find_next_hop : List NhAbstract → ℕ → Option NhAbstract
find_next_hop [] ip = none
find_next_hop (nh ∷ nhs) ip = if nh.nh_ip == ip then some nh else find_next_hop nhs ip

-- `assert(r.index != route::NH_INVALID)`.
abbrev pub assert_index : ℕ → Route × Numbering → Option (Route × Numbering)
assert_index index done = if index == nh_invalid then none else some done

abbrev pub connected_index : Interface → ℕ
connected_index i = u16 (bit_or (1 * 2 ^ 15) (bit_and i.netmap_index 0x7fff))

-- The body of the inner loop.
unfoldable pub index_route : Heap → Route → Numbering → Option (Route × Numbering)
unfolding find_next_hop
index_route heap r s =
    if r.next_hop == 0
    then (do i ← deref heap r.interface; some (record r { index = connected_index i }, s))
    else elim (find_next_hop s.mapping r.next_hop) [
      | some nh ↦ assert_index nh.index (record r { index = nh.index }, s)
      | none ↦
          let nh : NhAbstract = record {
            nh_ip = r.next_hop;
            interface = r.interface;
            index = s.next_index;
          } in
          assert_index s.next_index (
            record r { index = s.next_index },
            record { mapping = s.mapping ++ nh ∷ []; next_index = u16 (s.next_index + 1) },
          )
    ]

unfoldable pub index_level : Heap → List Route → Numbering → Option (List Route × Numbering)
index_level heap [] s = some ([], s)
index_level heap (r ∷ rs) s = elim (index_route heap r s) [
  | none ↦ none
  | some (r', s') ↦ elim (index_level heap rs s') [
    | none ↦ none
    | some (rs', s'') ↦ some (r' ∷ rs', s'')
  ]
]

unfoldable pub index_levels : Heap → Entries → Numbering → Option (Entries × Numbering)
index_levels heap [] s = some ([], s)
index_levels heap (rs ∷ rest) s = elim (index_level heap rs s) [
  | none ↦ none
  | some (rs', s') ↦ elim (index_levels heap rest s') [
    | none ↦ none
    | some (rest', s'') ↦ some (rs' ∷ rest', s'')
  ]
]

-- The printing at the end of `buildNextHopList`, once the routes are written.
unfoldable pub finish : Heap → Entries → Numbering → Option RoutingTable
unfolding print_table print_next_hops
finish heap entries s = do
  lines ← print_table heap entries
  hops ← print_next_hops heap s.mapping
  some (record { entries = entries; next_hop_mapping = s.mapping })

-- `buildNextHopList`: the indices start at 0 and the mapping is kept from the last call.
unfoldable pub build_next_hop_list : Heap → RoutingTable → Option RoutingTable
unfolding index_route index_level index_levels
build_next_hop_list heap t =
    elim (index_levels heap t.entries (record { mapping = t.next_hop_mapping; next_index = 0 })) [
      | none ↦ none
      | some (entries, s) ↦ finish heap entries s
    ]
