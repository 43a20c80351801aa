-- ===== src/Manager/Init.antt =====
-- src/manager.cpp, `initNetmap` and `startWorkerThreads`: netmap gives the rings of each interface
-- to be used, the interfaces are numbered, and the tables for the workers are built. `none` is a
-- `fatal`, an `abort`, or an access out of range.
use Prim.Native.String.{String}
use ariadne.Base.{
  ℕ, zero, suc, ◌+◌, ◌==◌, not, if◌then◌else◌, Bool, true, false, List, [], ◌∷◌, ◌++◌, length,
  Option, some, none, ◌>>=◌, same_text, replicate,
}
use ariadne.Interface.{Heap}
use ariadne.RoutingTable.{RoutingTable}
use ariadne.RoutingTable.NextHops.{build_next_hop_list, print_table}
use ariadne.RoutingTable.Aggregate.Whole.{aggregated, past_end, no_fuel, aggregate}
use ariadne.LinuxTable.{RouteMessage, update_info}
use ariadne.ArpTable.{ArpTable, create_current_table}
use ariadne.BasicTrie.{Trie, build_trie}
use ariadne.Worker.Thread.{Thread, new_worker}
use ariadne.Worker.Pipeline.{worker_tables}
use ariadne.Netmap.{Ring}

-- What an `ioctl(fd, NIOCREGIF, …)` gives: the numbers of rings in the request, and the `netmap_if`
-- that it leads to, whose rings are read with `NETMAP_TXRING` and `NETMAP_RXRING`.
pub record Registration : Type 0 where
  pub nr_tx_rings : ℕ
  pub nr_rx_rings : ℕ
  pub ni_tx_rings : ℕ
  pub ni_rx_rings : ℕ
  pub tx_ring : ℕ → Ring
  pub rx_ring : ℕ → Ring
  pub ni_bufs_head : ℕ

-- The system calls: `geteuid() == 0`, whether `mmap` succeeds, the registration of an interface, the
-- first word of each buffer, and how many buffers the memory region has.
pub record Host : Type 0 where
  pub is_root : Bool
  pub is_mapped : Bool
  pub register : String → Registration
  pub next_buf : ℕ → ℕ
  pub num_bufs : ℕ

-- The members that the loop over `interfacesToUse` changes, and its `iface_num`. The last element
-- of the vector `freeBufs` is the head of the list; `heap` has the interfaces.
pub record Setup : Type 0 where
  pub heap : Heap
  pub tx_rings : List (List Ring)
  pub rx_rings : List (List Ring)
  pub free_bufs : List ℕ
  pub iface_num : ℕ

-- The loops that push the rings from number `i` on.
unfoldable pub rings_from : (ℕ → Ring) → ℕ → ℕ → List Ring
rings_from ring zero i = []
rings_from ring (suc left) i = ring i ∷ rings_from ring left (suc i)

-- The loop over the chain of extra buffers, which 0 ends; on fuel.
unfoldable pub push_bufs : (ℕ → ℕ) → ℕ → ℕ → List ℕ → Option (List ℕ)
push_bufs next zero idx free = if idx == 0 then some free else none
push_bufs next (suc fuel) idx free = elim (idx == 0) [
  | true ↦ some free
  | false ↦ push_bufs next fuel (next idx) (idx ∷ free)
]

-- The search for the interface with a name, and `iface_ptr->netmapIndex = k`.
unfoldable pub number_interface : String → ℕ → Heap → Option Heap
number_interface name k [] = none
number_interface name k (i ∷ is) = elim (same_text name i.name) [
  | true ↦ some (record i { netmap_index = k } ∷ is)
  | false ↦ elim (number_interface name k is) [ none ↦ none | some is' ↦ some (i ∷ is') ]
]

module _ (host : Host) (num_workers : ℕ) where
  -- The body of the loop over `interfacesToUse`. The vectors of rings are as long as `iface_num`, so
  -- that `resize` and `push_back` append one list of rings.
  unfoldable pub prepare : String → Setup → Option Setup
  prepare name s =
      let r = host.register name in
      if not host.is_mapped
      then none
      else (if not (r.nr_tx_rings == num_workers)
          then none
          else (if not (r.nr_rx_rings == num_workers)
              then none
              else (elim (push_bufs host.next_buf host.num_bufs r.ni_bufs_head s.free_bufs) [
                | none ↦ none
                | some free ↦ elim (number_interface name s.iface_num s.heap) [
                  | none ↦ none
                  | some heap ↦ some (record {
                    heap = heap;
                    tx_rings = s.tx_rings ++ rings_from r.tx_ring (r.ni_tx_rings + 1) 0 ∷ [];
                    rx_rings = s.rx_rings ++ rings_from r.rx_ring (r.ni_rx_rings + 1) 0 ∷ [];
                    free_bufs = free;
                    iface_num = s.iface_num + 1;
                  })
                ]
              ])))

  unfoldable pub prepare_all : List String → Setup → Option Setup
  prepare_all [] s = some s
  prepare_all (name ∷ names) s = elim (prepare name s) [
    | none ↦ none
    | some s' ↦ prepare_all names s'
  ]

-- What `initNetmap` leaves: `num_interfaces` is the size of `netmapIfs`.
pub record Started : Type 0 where
  pub setup : Setup
  pub num_interfaces : ℕ
  pub routing_table : RoutingTable
  pub lpm : Trie

abbrev pub nothing_set_up : Heap → Setup
nothing_set_up heap = record {
  heap = heap;
  tx_rings = [];
  rx_rings = [];
  free_bufs = [];
  iface_num = 0;
}

-- `RoutingTable::update`, which the constructor of `LinuxTable` calls: the messages of the kernel are
-- read, prefixes merged and next hops numbered, before netmap has numbered any interface.
unfoldable pub update_table : List RouteMessage → Heap → Option RoutingTable
update_table messages heap = elim (update_info heap messages) [
  | none ↦ none
  | some read ↦ elim (aggregate read) [
    | aggregated entries ↦
        build_next_hop_list heap (record { entries = entries; next_hop_mapping = [] })
    | past_end ↦ none
    | no_fuel ↦ none
  ]
]

module _ (shifted_out : ℕ → ℕ) (host : Host) (num_workers : ℕ) where
  -- `initNetmap` behind its first test.
  unfoldable pub set_up : List RouteMessage → List String → Heap → Option Started
  unfolding update_table
  set_up messages names heap = do
    numbered ← update_table messages heap
    setup ← prepare_all host num_workers names (nothing_set_up heap)
    table ← build_next_hop_list setup.heap numbered
    lines ← print_table setup.heap table.entries
    lpm ← build_trie shifted_out table.entries
    some (record {
      setup = setup;
      num_interfaces = length setup.tx_rings;
      routing_table = table;
      lpm = lpm;
    })

  unfoldable pub init_netmap : List RouteMessage → List String → Heap → Option Started
  unfolding set_up
  init_netmap messages names heap = if not host.is_root then none else set_up messages names heap

-- The `ARPTable` that the manager is constructed with.
abbrev pub new_arp_table : Heap → ArpTable
new_arp_table heap = record {
  next_hop_mapping = [];
  next_hops = [];
  directly_connected = [];
  mapping = [];
  interfaces = heap;
}

-- `startWorkerThreads`: every worker gets the trie and the current ARP table.
unfoldable pub start_worker_threads : ℕ → Started → Option (ArpTable × List Thread)
start_worker_threads num_workers s =
    elim (create_current_table s.routing_table.next_hop_mapping (new_arp_table s.setup.heap)) [
      | none ↦ none
      | some arp ↦ some (arp, replicate num_workers (new_worker (worker_tables s.lpm arp)))
    ]
