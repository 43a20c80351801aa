-- ===== src/Manager/Started.antt =====
-- What the loop of `initNetmap` in src/manager.cpp over the interfaces to be used leaves: the rings
-- that the loop of `run` needs, and an interface number for every name.
use Prim.Native.String.{String}
use ariadne.Base.{
  ℕ, suc, ◌+◌, ◌<◌, ◌^◌, ◌≡◌, refl, subst, ◌∙◌, arith, Bool, true, false, List, [], ◌∷◌, length,
  some, same_text, All,
}
use ariadne.Interface.{Heap, Interface}
use ariadne.Frame.{Frame, Memory}
use ariadne.ArpTable.{ArpTable}
use ariadne.Netmap.{Netmap, NetmapLaws}
use ariadne.Manager.Process.{Manager}
use ariadne.Manager.Rounds.{IsRunning}
use ariadne.Manager.Init.{Host, Setup, prepare_all, nothing_set_up}
use ariadne.Manager.Naming.{find_by_name, Distinct, IsKnown, All-IsKnown, same_text_comm}
use ariadne.Manager.Prepared.{IsRegistered, IsSetUp, prepare_ends}

-- The interface with the name has the number.
abbrev pub HasNumber : Heap → String → ℕ → Type 0
HasNumber heap name k = (i : Interface) × (find_by_name name heap ≡ some i) × (i.netmap_index ≡ k)

-- Names are numbered from `k` on.
abbrev pub AreNumbered : Heap → ℕ → List String → Type 0
AreNumbered heap k [] = Unit
AreNumbered heap k (name ∷ names) = HasNumber heap name k × AreNumbered heap (suc k) names

-- The manager before its loop, whose other members have their initial values.
abbrev pub before_loop : Setup → ArpTable → Memory → Manager
before_loop s arp memory = record {
  rx_rings = s.rx_rings;
  tx = record {
    tx_rings = s.tx_rings;
    free_bufs = s.free_bufs;
    arp_table = arp;
    missing_macs = [];
    memory = memory;
    ring_id = 0;
    num_dropped = 0;
    num_dropped_ring_space = 0;
    num_dropped_no_mac = 0;
    num_transmitted = 0;
  };
  queue = [];
  num_recv = 0;
}

module _ (n : Netmap) (host : Host) (num_workers : ℕ) where
  prepare_all_ends :
      (names : List String) (s : Setup)
      → host.is_mapped ≡ true
      → All (IsRegistered host num_workers) names
      → Distinct names
      → All (IsKnown s.heap) names
      → (s' : Setup) × (prepare_all host num_workers names s ≡ some s')
        × IsSetUp n num_workers (length names) s s'
        × AreNumbered s'.heap s.iface_num names
        × ((other : String)
            → All (λ x. same_text x other ≡ false) names
            → find_by_name other s'.heap ≡ find_by_name other s.heap)
  unfolding prepare_all
  prepare_all_ends [] s mapped reg apart known = (
    s,
    refl,
    record {
      tx = λ h. h;
      rx = λ h. h;
      tx_ports = omega arith;
      rx_ports = omega arith;
      next = omega arith;
    },
    tt,
    λ other h. refl,
  )
  prepare_all_ends (name ∷ names) s mapped reg apart known =
      let (i, e) = known.0 in
      let (s1, run, up, r) = prepare_ends n host num_workers name s i mapped reg.0 e in
      let still = All-IsKnown name s.heap s1.heap names r.others apart.0 known.1 in
      let (s', run', up', numbered, others) =
        prepare_all_ends names s1 mapped reg.1 apart.1 still in
      let here : find_by_name name s'.heap ≡ some (record i { netmap_index = s.iface_num }) =
        others name apart.0 ∙ r.numbered in
      (
        s',
        rw (run, prepare_all) run',
        record {
          tx = λ h. up'.tx (up.tx h);
          rx = λ h. up'.rx (up.rx h);
          tx_ports = omega (arith, up.tx_ports, up'.tx_ports);
          rx_ports = omega (arith, up.rx_ports, up'.rx_ports);
          next = omega (arith, up.next, up'.next);
        },
        (
          (record i { netmap_index = s.iface_num }, here, refl),
          subst (λ k. AreNumbered s'.heap k names) (up.next ∙ omega arith) numbered,
        ),
        λ other h. others other h.1 ∙ r.others other (same_text_comm name other h.0),
      )

module _ (n : Netmap) (laws : NetmapLaws n) (fits : List Frame → List Frame → Bool) (host : Host)
    (num_workers : ℕ) where
  -- Let the memory be mapped, at least one worker be asked for, and let netmap give each interface
  -- to be used as many rings as there are workers, each with its head inside, and a chain of extra
  -- buffers that ends; let the names of these interfaces be distinct and known. Then the loop of
  -- `initNetmap` ends, every interface in the list has its position as number, and the rings are as the loop of `run`
  -- needs them.
  pub prepare_all-IsRunning :
      (names : List String) (heap : Heap) (arp : ArpTable) (memory : Memory)
      → host.is_mapped ≡ true
      → 0 < num_workers
      → num_workers + 1 < 2 ^ 32
      → All (IsRegistered host num_workers) names
      → Distinct names
      → All (IsKnown heap) names
      → (s : Setup) × (prepare_all host num_workers names (nothing_set_up heap) ≡ some s)
        × AreNumbered s.heap 0 names
        × IsRunning n laws fits (length names) num_workers (before_loop s arp memory)
  prepare_all-IsRunning names heap arp memory mapped workers narrow reg apart known =
      let (s, run, up, numbered, _) =
        prepare_all_ends n host num_workers names (nothing_set_up heap) mapped reg apart known in
      (
        s,
        run,
        numbered,
        record {
          rx = up.rx tt;
          tx = up.tx tt;
          rx_ports = omega (arith, up.rx_ports);
          tx_ports = omega (arith, up.tx_ports);
          some_worker = workers;
          narrow = narrow;
        },
      )
