-- ===== src/RoutingTable/Total.antt =====
-- `buildNextHopList` of src/routingTable.cpp returns as a whole, its printing included.
use Prim.Native.String.{String}
use ariadne.Base.{
  ℕ, zero, suc, ◌≤◌, ◌≡◌, refl, ap, ◌∙◌, arith, List, [], ◌∷◌, ◌++◌, some, get_elem?-eq-get_or,
  get_or, length, All, All-get,
}
use ariadne.Interface.{Heap, Interface, InterfacePtr, deref}
use ariadne.RoutingTable.{Route, NhAbstract, Entries, RoutingTable}
use ariadne.RoutingTable.NextHops.{
  Numbering, index_levels, finish, build_next_hop_list, print_level, print_from, print_table,
  print_next_hops, RouteLine,
}
use ariadne.RoutingTable.Levels.{IsIndexed, build_next_hop_list-IsIndexed, fresh_IsNumbered}
use ariadne.RoutingTable.Runs.{HasPort, HopHasPort, num_routes, HasIndex, index_levels-Runs}

-- The printing, which only follows the pointers of the routes and of the next hops.
abbrev pub Points : Heap → InterfacePtr → Type 0
Points heap p = (i : Interface) × (deref heap p ≡ some i)

pub print_level_runs :
    (heap : Heap) (len : ℕ) (rs : List Route)
    → All (λ r. Points heap r.interface) rs
    → (out : List RouteLine) × (print_level heap len rs ≡ some out)
unfolding print_level
print_level_runs heap len [] h = ([], refl)
print_level_runs heap len (r ∷ rs) ((i, at_i), h) =
    let (out, e) = print_level_runs heap len rs h in
    (
      record { base = r.base; len = len; next_hop = r.next_hop; name = i.name; index = r.index }
          ∷ out,
      rw (at_i, e) refl,
    )

pub print_from_runs :
    (heap : Heap) (es : Entries) (n : ℕ)
    → n ≤ length es
    → All (All (λ r. Points heap r.interface)) es
    → (out : List RouteLine) × (print_from heap es n ≡ some out)
unfolding print_from
print_from_runs heap es zero h x = ([], refl)
print_from_runs heap es (suc n) h x =
    let e = get_elem?-eq-get_or es n [] h in
    let (line, e1) =
      print_level_runs heap n (get_or es n [])
        (All-get (All (λ r. Points heap r.interface)) es n (get_or es n []) x e) in
    let (rest, e2) = print_from_runs heap es n (omega arith) x in
    (line ++ rest, rw (e, e1, e2) refl)

pub print_next_hops_runs :
    (heap : Heap) (m : List NhAbstract)
    → All (λ nh. Points heap nh.interface) m
    → (out : List (ℕ × String × ℕ)) × (print_next_hops heap m ≡ some out)
unfolding print_next_hops
print_next_hops_runs heap [] h = ([], refl)
print_next_hops_runs heap (nh ∷ m) ((i, at_i), h) =
    let (out, e) = print_next_hops_runs heap m h in
    ((nh.index, i.name, nh.nh_ip) ∷ out, rw (at_i, e) refl)

hops_Points :
    (heap : Heap) (m : List NhAbstract)
    → All (HopHasPort heap) m
    → All (λ nh. Points heap nh.interface) m
hops_Points heap [] h = tt
hops_Points heap (nh ∷ m) ((i, at_i, small), h) = ((i, at_i), hops_Points heap m h)

level_Points :
    (heap : Heap) (rs : List Route) → All (HasIndex heap) rs → All (λ r. Points heap r.interface) rs
level_Points heap [] h = tt
level_Points heap (r ∷ rs) (((i, at_i, small), _), h) = ((i, at_i), level_Points heap rs h)

levels_Points :
    (heap : Heap) (es : Entries)
    → All (All (HasIndex heap)) es
    → All (All (λ r. Points heap r.interface)) es
levels_Points heap [] h = tt
levels_Points heap (rs ∷ es) (h, hs) = (level_Points heap rs h, levels_Points heap es hs)

pub built_by :
    (heap : Heap) (t : RoutingTable) (es : Entries) (s' : Numbering) (lines : List RouteLine)
    (hops : List (ℕ × String × ℕ))
    → index_levels heap t.entries (record { mapping = t.next_hop_mapping; next_index = 0 })
      ≡ some (es, s')
    → print_from heap es 33 ≡ some lines
    → print_next_hops heap s'.mapping ≡ some hops
    → build_next_hop_list heap t ≡ some (record { entries = es; next_hop_mapping = s'.mapping })
unfolding build_next_hop_list finish print_table
built_by heap t es s' lines hops e e1 e2 =
    rw (e, build_next_hop_list) (rw (e1, finish, print_table) (rw e2 refl))

pub build_next_hop_list_total :
    (heap : Heap) (t : RoutingTable)
    → t.next_hop_mapping ≡ []
    → length t.entries ≡ 33
    → All (All (HasPort heap)) t.entries
    → num_routes t.entries ≤ 0xffff
    → (t' : RoutingTable) × (build_next_hop_list heap t ≡ some t')
      × IsIndexed heap t t'
      × All (All (HasIndex heap)) t'.entries
      × All (HopHasPort heap) t'.next_hop_mapping
      × (length t'.next_hop_mapping ≤ num_routes t.entries)
      × (length t'.entries ≡ 33)
build_next_hop_list_total heap t fresh len ports few =
    let s : Numbering = record { mapping = t.next_hop_mapping; next_index = 0 } in
    let none_yet : length t.next_hop_mapping ≡ 0 = ap length fresh in
    let no_ports : All (HopHasPort heap) t.next_hop_mapping = rw fresh tt in
    let (es, s', e, sets, size, r) =
      index_levels-Runs heap t.entries s (fresh_IsNumbered t.next_hop_mapping fresh) no_ports ports
        (omega arith) in
    let (lines, e1) =
      print_from_runs heap es 33 (omega (arith, size, len)) (levels_Points heap es sets) in
    let (hops, e2) = print_next_hops_runs heap s'.mapping (hops_Points heap s'.mapping r.ports) in
    let t' : RoutingTable = record { entries = es; next_hop_mapping = s'.mapping } in
    let done : build_next_hop_list heap t ≡ some t' = built_by heap t es s' lines hops e e1 e2 in
    (
      t',
      done,
      build_next_hop_list-IsIndexed heap t t' fresh done,
      sets,
      r.ports,
      omega (arith, r.few),
      size ∙ len,
    )
