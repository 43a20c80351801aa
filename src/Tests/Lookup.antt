-- ===== src/Tests/Lookup.antt =====
-- The lookups and the numbering of next hops on the small routing table.
use mathlib.Core.Option
use ariadne.Base.{
  ◌≢◌, List, get_elem?, ℕ, ◌^◌, ◌≤◌, ◌<◌, ◌≡◌, refl, arith, some, none, [], ◌∷◌, ◌++◌, All,
  replicate, passes_below,
}
use ariadne.Util.{extract_bit}
use ariadne.RoutingTable.{Route, Entries, RoutingTable, nh_invalid}
use ariadne.RoutingTable.NextHops.{build_next_hop_list, finish, find_next_hop}
use ariadne.RoutingTable.Indices.{Resolved}
use ariadne.RoutingTable.Runs.{HasPort}
use ariadne.RoutingTable.Rebuild.{rebuild_unresolved}
use ariadne.Naive.{make_naive}
use ariadne.Naive
use ariadne.BasicTrie.{Trie, build_trie}
use ariadne.BasicTrie
use ariadne.Lpm.Longest.{IsRoutable, IsLongest, level, NoMatch, DistinctBases}
use ariadne.Lpm.Routing.{naive-IsLongest, trie-IsLongest, trie-eq-naive, doubled_base}
use ariadne.Lpm.Indexed.{IsTable}
use ariadne.Tests.Data.{two_ports, eth0, eth1, route_via, three_routes, fresh_table, built_entries}
use ariadne.Tests.Sound.{
  IsRoutable-sound, IsTable-sound, DistinctBases-sound, All-skip, All-empty, empty_above_sound,
}

-- The undefined shift yields 7.
abbrev pub seven : ℕ → ℕ
seven a = 7

-- Addresses of the three routes, from the longest prefix on.
naive_24 : Naive.route (make_naive built_entries) 0xc0a80107 ≡ some 1
unfolding Naive.route make_naive
naive_24 = refl

naive_16 : Naive.route (make_naive built_entries) 0x0a01ffff ≡ some 0x8001
unfolding Naive.route make_naive
naive_16 = refl

naive_0 : Naive.route (make_naive built_entries) 0x08080808 ≡ some 0
unfolding Naive.route make_naive
naive_0 = refl

trie_24 :
    Option.map (λ u. BasicTrie.route seven u 0xc0a80107) (build_trie seven built_entries) ≡ some 1
unfolding BasicTrie.route build_trie extract_bit
trie_24 = refl

trie_0 :
    Option.map (λ u. BasicTrie.route seven u 0xc0a80007) (build_trie seven built_entries) ≡ some 0
unfolding BasicTrie.route build_trie extract_bit
trie_0 = refl

-- The numbering gives the indices of `built_entries`.
numbering :
    Option.map (λ t. t.entries) (build_next_hop_list two_ports fresh_table) ≡ some built_entries
unfolding build_next_hop_list finish
numbering = refl

pub built_entries-IsRoutable : IsRoutable built_entries
unfolding passes_below
built_entries-IsRoutable = IsRoutable-sound built_entries refl refl

pub entries-IsTable : IsTable fresh_table.entries
unfolding passes_below
entries-IsTable = IsTable-sound fresh_table.entries refl refl

no_level_twice : (len : ℕ) → len ≤ 32 → DistinctBases (level built_entries len)
unfolding passes_below
no_level_twice = DistinctBases-sound built_entries refl

address_small : 0xc0a80107 < 2 ^ 32
address_small = omega arith

naive-IsLongest_example :
    (v : ℕ) × (Naive.route (make_naive built_entries) 0xc0a80107 ≡ some v)
    × IsLongest built_entries 0xc0a80107 32 v
naive-IsLongest_example =
    naive-IsLongest built_entries built_entries-IsRoutable 0xc0a80107 address_small

trie-IsLongest_example :
    (u : Trie) × (build_trie seven built_entries ≡ some u)
    × IsLongest built_entries 0xc0a80107 32 (BasicTrie.route seven u 0xc0a80107)
trie-IsLongest_example =
    trie-IsLongest built_entries built_entries-IsRoutable 0xc0a80107 address_small seven

trie-eq-naive_example :
    Option.map (λ u. BasicTrie.route seven u 0xc0a80107) (build_trie seven built_entries)
    ≡ Naive.route (make_naive built_entries) 0xc0a80107
trie-eq-naive_example =
    trie-eq-naive built_entries built_entries-IsRoutable 0xc0a80107 address_small seven
      no_level_twice

pub routes-HasPort : All (All (HasPort two_ports)) fresh_table.entries
routes-HasPort =
    let at_24 : All (All (HasPort two_ports))
        ((route_via 0xc0a80100 24 0x0a010002 1 nh_invalid ∷ []) ∷ replicate 8 []) =
      (((eth1, refl, omega arith), tt), All-empty (HasPort two_ports) 8) in
    let at_16 : All (All (HasPort two_ports)) (
        replicate 7 [] ++ (route_via 0xc0a80100 24 0x0a010002 1 nh_invalid ∷ []) ∷ replicate 8 []) =
      All-skip (HasPort two_ports) 7
        ((route_via 0xc0a80100 24 0x0a010002 1 nh_invalid ∷ []) ∷ replicate 8 []) at_24 in
    (
      ((eth0, refl, omega arith), tt),
      All-skip (HasPort two_ports) 15
          ((route_via 0x0a010000 16 0 1 nh_invalid ∷ []) ∷ replicate 7 []
            ++ (route_via 0xc0a80100 24 0x0a010002 1 nh_invalid ∷ []) ∷ replicate 8 [])
          (((eth1, refl, omega arith), tt), at_16),
    )

-- 10.0.0.0/8 twice, with the indices 3 and 4.
abbrev doubled : Entries
doubled =
    replicate 8 []
    ++ (route_via 0x0a000000 8 1 0 3 ∷ route_via 0x0a000000 8 2 1 4 ∷ []) ∷ replicate 24 []

doubled-IsRoutable : IsRoutable doubled
unfolding passes_below
doubled-IsRoutable = IsRoutable-sound doubled refl refl

nothing_longer : (k : ℕ) → 8 < k → k ≤ 32 → NoMatch k 0x0a0b0c0d (level doubled k)
unfolding passes_below
nothing_longer = empty_above_sound doubled 0x0a0b0c0d 8 refl

doubled_base_example :
    (Naive.route (make_naive doubled) 0x0a0b0c0d ≡ some 3)
    × (Option.map (λ u. BasicTrie.route seven u 0x0a0b0c0d) (build_trie seven doubled) ≡ some 4)
doubled_base_example =
    doubled_base doubled doubled-IsRoutable 0x0a0b0c0d (omega arith) seven 8
      (route_via 0x0a000000 8 1 0 3) (route_via 0x0a000000 8 2 1 4) (omega arith) refl refl refl
      nothing_longer

-- The default route's next hop has changed since the last numbering.
abbrev stale_table : RoutingTable
stale_table = record {
  entries = three_routes nh_invalid nh_invalid nh_invalid;
  next_hop_mapping = record { nh_ip = 0x0a010002; interface = some 1; index = 0 } ∷ [];
}

abbrev rebuilt : RoutingTable
rebuilt = record {
  entries = three_routes 0 0x8001 0;
  next_hop_mapping =
      record { nh_ip = 0x0a010002; interface = some 1; index = 0 }
      ∷ record { nh_ip = 0x0a0000fe; interface = some 0; index = 0 }
      ∷ [];
}

rebuilds : build_next_hop_list two_ports stale_table ≡ some rebuilt
unfolding build_next_hop_list finish
rebuilds = refl

absent : find_next_hop stale_table.next_hop_mapping 0x0a0000fe ≡ none
unfolding find_next_hop
absent = refl

rebuild_unresolved_example :
    ((rs' : List Route) × (rest : Entries) × (rebuilt.entries
        ≡ (route_via 0 0 0x0a0000fe 0 0 ∷ rs') ∷ rest))
    × (get_elem? rebuilt.next_hop_mapping 0
        ≡ some (record { nh_ip = 0x0a010002; interface = some 1; index = 0 }))
    × (◌≢◌ {A = ℕ} 0x0a010002 0x0a0000fe)
    × ¬ All (All (Resolved two_ports rebuilt.next_hop_mapping)) rebuilt.entries
rebuild_unresolved_example =
    rebuild_unresolved two_ports stale_table rebuilt (route_via 0 0 0x0a0000fe 0 nh_invalid) []
      (replicate 15 []
        ++ (route_via 0x0a010000 16 0 1 nh_invalid ∷ [])
          ∷ (replicate 7 []
              ++ (route_via 0xc0a80100 24 0x0a010002 1 nh_invalid ∷ []) ∷ replicate 8 []))
      (record { nh_ip = 0x0a010002; interface = some 1; index = 0 }) [] refl refl (λ e. omega arith)
      absent rebuilds
