-- ===== src/Manager/Boot.antt =====
-- The start of the router in src/manager.cpp, `initNetmap` and `startWorkerThreads`, and what the
-- workers that it starts do with a packet.
use Prim.Native.String.{String}
use ariadne.Base.{
  ℕ, zero, suc, ◌≤◌, ◌≡◌, ◌≢◌, refl, arith, true, List, [], length, replicate, Option, some, none,
  Option-cases, inl, inr, All, Bool, ◌∙◌, not, if◌then◌else◌, length-replicate, ap, sym, subst,
  get_or, get_elem?-eq-get_or, get_elem?-lt, Bool-cases, ◌∷◌, same_text,
}
use ariadne.Util.{ntohl, uint16_t_max}
use ariadne.Interface.{Heap, Interface, InterfacePtr, deref}
use ariadne.AddressMap.{find}
use ariadne.Frame.{Frame, Packet}
use ariadne.RoutingTable.{RoutingTable, Entries}
use ariadne.RoutingTable.NextHops.{
  RouteLine, build_next_hop_list, print_table, print_next_hops, finish, index_levels,
}
use ariadne.RoutingTable.Runs.{HasPort, HopHasPort, num_routes}
use ariadne.RoutingTable.Total.{Points, build_next_hop_list_total}
use ariadne.RoutingTable.Again.{build_twice}
use ariadne.RoutingTable.Aggregate.Whole.{aggregate, aggregated}
use ariadne.LinuxTable.{RouteMessage, update_info}
use ariadne.ArpTable.{ArpTable, NextHop}
use ariadne.BasicTrie.{Trie, build_trie}
use ariadne.Lpm.Indexed.{IsTable}
use ariadne.Worker.{process_frame}
use ariadne.Worker.Route.{IsTransit}
use ariadne.Worker.Pipeline.{worker_tables, pipeline}
use ariadne.Worker.Thread.{Thread, new_worker}
use ariadne.Manager.FirstPackets.{FirstVerdict, first_verdict}
use ariadne.Manager.Init.{
  Host, Setup, Started, number_interface, prepare, prepare_all, update_table, nothing_set_up,
  init_netmap, set_up, new_arp_table, start_worker_threads,
}

-- The table that was printed at the end of `buildNextHopList` can be printed again.
printed_again :
    (heap : Heap) (t t' : RoutingTable)
    → build_next_hop_list heap t ≡ some t'
    → (lines : List RouteLine) × (print_table heap t'.entries ≡ some lines)
unfolding build_next_hop_list finish
printed_again heap t t' h =
    elim (Option-cases
      (index_levels heap t.entries (record { mapping = t.next_hop_mapping; next_index = 0 }))) [
        | inl e ↦ absurd (ground (arith, e))
        | inr ((es, s), e) ↦ elim (Option-cases (print_table heap es)) [
          | inl e' ↦ absurd (ground (arith, e, e'))
          | inr (lines, e') ↦ elim (Option-cases (print_next_hops heap s.mapping)) [
            | inl e'' ↦ absurd (ground (arith, e, e', e''))
            | inr (hops, e'') ↦
                let same : t'.entries ≡ es = ground (arith, e, e', e'') in (lines, rw same e')
          ]
        ]
      ]

All-replicate {ℓ κ} : {A : Type ℓ} (P : A → Type κ) (k : ℕ) (a : A) → P a → All P (replicate k a)
All-replicate P zero a p = tt
All-replicate P (suc k) a p = (p, All-replicate P k a p)

not_refused :
    {A : Type 0} (root : Bool) (o : Option A) → root ≡ true → (if not root then none else o) ≡ o
not_refused root o e = rw e refl

init_netmap_runs :
    (shifted_out : ℕ → ℕ) (host : Host) (num_workers : ℕ) (messages : List RouteMessage)
    (names : List String) (heap : Heap) (s : Setup) (numbered table : RoutingTable) (u : Trie)
    → host.is_root ≡ true
    → update_table messages heap ≡ some numbered
    → prepare_all host num_workers names (nothing_set_up heap) ≡ some s
    → build_next_hop_list s.heap numbered ≡ some table
    → build_trie shifted_out table.entries ≡ some u
    → init_netmap shifted_out host num_workers messages names heap
      ≡ some
          (record { setup = s; num_interfaces = length s.tx_rings; routing_table = table; lpm = u })
unfolding init_netmap set_up
init_netmap_runs shifted_out host num_workers messages names heap s numbered table u root e e' e''
      b =
    let (lines, p) = printed_again s.heap numbered table e'' in
    not_refused host.is_root (set_up shifted_out host num_workers messages names heap) root
    ∙ rw (e, set_up) (rw (e', set_up) (rw (e'', set_up) (rw (p, set_up) (rw (b, set_up) refl))))

update_table_runs :
    (messages : List RouteMessage) (heap : Heap) (read entries : Entries) (numbered : RoutingTable)
    → update_info heap messages ≡ some read
    → aggregate read ≡ aggregated entries
    → build_next_hop_list heap (record { entries = entries; next_hop_mapping = [] }) ≡ some numbered
    → update_table messages heap ≡ some numbered
unfolding update_table
update_table_runs messages heap read entries numbered e e' e'' =
    rw (e, update_table) (rw (e', update_table) e'')

-- Whoever has a pointer before the interfaces are numbered has it afterwards.
length-number_interface :
    (name : String) (k : ℕ) (heap heap' : Heap)
    → number_interface name k heap ≡ some heap'
    → length heap' ≡ length heap
unfolding number_interface
length-number_interface name k [] heap' h = absurd (ground arith)
length-number_interface name k (i ∷ is) heap' h = elim (Bool-cases (same_text name i.name)) [
  | inl e ↦
      let q : record i { netmap_index = k } ∷ is ≡ heap' = ground (arith, e) in ap length (sym q)
  | inr e ↦ elim (Option-cases (number_interface name k is)) [
    | inl e' ↦ absurd (ground (arith, e, e'))
    | inr (is', e') ↦
        let q : i ∷ is' ≡ heap' = ground (arith, e, e') in
        ap length (sym q) ∙ ap suc (length-number_interface name k is is' e')
  ]
]

module _ (host : Host) (num_workers : ℕ) where
  length-prepare :
      (name : String) (s s' : Setup)
      → prepare host num_workers name s ≡ some s'
      → length s'.heap ≡ length s.heap
  unfolding prepare
  length-prepare name s s' h = elim (Option-cases (number_interface name s.iface_num s.heap)) [
    | inl e ↦ absurd (ground (arith, e))
    | inr (heap, e) ↦
        let q : s'.heap ≡ heap = ground (arith, e) in
        ap length q ∙ length-number_interface name s.iface_num s.heap heap e
  ]

  length-prepare_all :
      (names : List String) (s s' : Setup)
      → prepare_all host num_workers names s ≡ some s'
      → length s'.heap ≡ length s.heap
  unfolding prepare_all
  length-prepare_all [] s s' h = let q : s ≡ s' = ground arith in ap (λ z. length z.heap) (sym q)
  length-prepare_all (name ∷ names) s s' h = elim (Option-cases (prepare host num_workers name s)) [
    | inl e ↦ absurd (ground (arith, e))
    | inr (s1, e) ↦ length-prepare_all names s1 s' (ground (arith, e)) ∙ length-prepare name s s1 e
  ]

Points-before :
    (unbound bound : Heap) (p : InterfacePtr) (i : Interface)
    → length bound ≡ length unbound
    → deref bound p ≡ some i
    → Points unbound p
Points-before unbound bound none i size h = absurd (ground arith)
Points-before unbound bound (some k) i size h =
    let inside = get_elem?-lt bound k i h in
    (get_or unbound k i, get_elem?-eq-get_or unbound k i (omega (arith, inside, size)))

-- Let the program run as root, let the kernel's messages, with their prefixes merged, give a table of
-- 33 levels of prefixes with at most 0x8000 routes, let netmap set up the interfaces to be used, and
-- let every route have an interface that has then got a number below 0x7fff. Then `initNetmap` and
-- `startWorkerThreads` return, with as many workers as asked for. The ARP table that they start with
-- knows no MAC address, so every worker hands each transit packet that some route matches to the
-- manager with a mark for an ARP request and a forwarded header, on the interface of a longest matching
-- route: that of the first route in the table through its next hop or, for a connected route, its own.
-- A packet that no route matches ends the program.
pub boot_forwards :
    (shifted_out : ℕ → ℕ) (host : Host) (num_workers : ℕ) (messages : List RouteMessage)
    (names : List String) (heap : Heap) (read entries : Entries) (s : Setup) (f : Frame)
    (p : Packet) (i : Interface)
    → host.is_root ≡ true
    → update_info heap messages ≡ some read
    → aggregate read ≡ aggregated entries
    → IsTable entries
    → prepare_all host num_workers names (nothing_set_up heap) ≡ some s
    → All (All (HasPort s.heap)) entries
    → num_routes entries ≤ 0x8000
    → IsTransit s.heap f p i
    → (st : Started) × (arp : ArpTable) × (threads : List Thread) × (init_netmap shifted_out host
          num_workers messages names heap
        ≡ some st)
      × (start_worker_threads num_workers st ≡ some (arp, threads))
      × (length threads ≡ num_workers)
      × All
          (λ w.
            FirstVerdict st.routing_table.entries s.heap
              (ntohl p.ipv4.d_ip)
              f
              p
              (process_frame shifted_out w.current f p))
          threads
unfolding start_worker_threads find
boot_forwards shifted_out host num_workers messages names heap read entries s f p i root e merged
      table e' ports few transit =
    let rt : RoutingTable = record { entries = entries; next_hop_mapping = [] } in
    let nobody : (ip : ℕ) (nh : NextHop)
        → find (new_arp_table s.heap).directly_connected ip ≡ some nh
        → nh.netmap_interface ≢ uint16_t_max =
      λ ip nh h. absurd (ground arith) in
    let (rt', arp, u, built, current, trie, verdict) =
      pipeline shifted_out rt (new_arp_table s.heap) f p i refl table ports few nobody transit in
    let (t', built', _, _, hops, _, _) =
      build_next_hop_list_total s.heap rt refl table.levels ports (omega arith) in
    let same : t' ≡ rt' = ground (arith, built, built') in
    let size = length-prepare_all host num_workers names (nothing_set_up heap) s e' in
    let (numbered, first, second) =
      build_twice heap s.heap (λ q j h. Points-before heap s.heap q j size h) rt rt' table.levels
        ports (subst (λ (z : RoutingTable). All (HopHasPort s.heap) z.next_hop_mapping) same hops)
        built in
    let st : Started = record {
      setup = s;
      num_interfaces = length s.tx_rings;
      routing_table = rt';
      lpm = u;
    } in
    let threads = replicate num_workers (new_worker (worker_tables u arp)) in
    (
      st,
      arp,
      threads,
      init_netmap_runs shifted_out host num_workers messages names heap s numbered rt' u root
          (update_table_runs messages heap read entries numbered e merged first) e' second trie,
      rw (current, start_worker_threads) refl,
      length-replicate num_workers (new_worker (worker_tables u arp)),
      All-replicate _ num_workers (new_worker (worker_tables u arp)) (
          first_verdict rt'.entries s.heap (ntohl p.ipv4.d_ip) i f p
            (process_frame shifted_out (worker_tables u arp) f p) verdict),
    )
