-- ===== src/Manager/Prepared.antt =====
-- One round of the loop of `initNetmap` in src/manager.cpp over the interfaces to be used.
use Prim.Native.String.{String}
use ariadne.Base.{
  ℕ, zero, suc, ◌+◌, ◌==◌, ◌<◌, ◌≤◌, ◌≡◌, ◌≢◌, refl, ap, arith, true, false, List, [], ◌∷◌, ◌++◌,
  length, length-append, some, All, All-append, eq→==,
}
use ariadne.Interface.{Interface}
use ariadne.Netmap.{Netmap, Ring}
use ariadne.Manager.Rings.{IsReadyPort}
use ariadne.Manager.Init.{Host, Setup, rings_from, push_bufs, prepare}
use ariadne.Manager.Naming.{find_by_name, Numbers, number_interface-Numbers}

-- The chain of extra buffers from `idx` on is `bufs`.
abbrev pub Chain : (ℕ → ℕ) → ℕ → List ℕ → Type 0
Chain next idx [] = idx ≡ 0
Chain next idx (b ∷ bufs) = (idx ≡ b) × (b ≢ 0) × Chain next (next b) bufs

abbrev pub onto : List ℕ → List ℕ → List ℕ
onto [] free = free
onto (b ∷ bufs) free = onto bufs (b ∷ free)

push_bufs-Chain :
    (next : ℕ → ℕ) (fuel idx : ℕ) (bufs free : List ℕ)
    → Chain next idx bufs
    → length bufs ≤ fuel
    → push_bufs next fuel idx free ≡ some (onto bufs free)
unfolding push_bufs
push_bufs-Chain next zero idx [] free c h = ground arith
push_bufs-Chain next zero idx (b ∷ bufs) free c h = absurd (omega arith)
push_bufs-Chain next (suc fuel) idx [] free c h = ground arith
push_bufs-Chain next (suc fuel) idx (b ∷ bufs) free (e, n, c) h =
    let rest = push_bufs-Chain next fuel (next b) bufs (b ∷ free) c (omega arith) in
    let some_buf : (idx == 0) ≡ false = ground arith in rw (some_buf, push_bufs) (rw e rest)

module _ (host : Host) (num_workers : ℕ) where
  -- Netmap gives as many rings as were asked for, each with its head inside, and a chain of extra
  -- buffers that ends.
  pub record IsRegistered (name : String) : Type 0 where
    pub nr_tx : (host.register name).nr_tx_rings ≡ num_workers
    pub nr_rx : (host.register name).nr_rx_rings ≡ num_workers
    pub ni_tx : (host.register name).ni_tx_rings ≡ num_workers
    pub ni_rx : (host.register name).ni_rx_rings ≡ num_workers
    pub tx_head :
        (k : ℕ)
        → ((host.register name).tx_ring k).head < length ((host.register name).tx_ring k).slots
    pub rx_head :
        (k : ℕ)
        → ((host.register name).rx_ring k).head < length ((host.register name).rx_ring k).slots
    pub bufs : List ℕ
    pub chain : Chain host.next_buf (host.register name).ni_bufs_head bufs
    pub few : length bufs ≤ host.num_bufs

module _ (n : Netmap) (num_workers : ℕ) where
  rings_from-Ready :
      (ring : ℕ → Ring) (k i : ℕ)
      → ((j : ℕ) → (ring j).head < length (ring j).slots)
      → (length (rings_from ring k i) ≡ k)
        × All (λ (r : Ring). r.head < length r.slots) (rings_from ring k i)
  unfolding rings_from
  rings_from-Ready ring zero i h = (refl, tt)
  rings_from-Ready ring (suc k) i h =
      let (e, a) = rings_from-Ready ring k (suc i) h in (ap suc e, (h i, a))

  all_rings :
      (ring : ℕ → Ring) (k : ℕ)
      → k ≡ num_workers
      → ((j : ℕ) → (ring j).head < length (ring j).slots)
      → IsReadyPort n num_workers (rings_from ring (k + 1) 0)
  all_rings ring k e h =
      let (e', a) = rings_from-Ready ring (k + 1) 0 h in (omega (arith, e, e'), a)

  -- From `s` to `s'` the rings of `count` more interfaces were set up.
  pub record IsSetUp (count : ℕ) (s s' : Setup) : Type 0 where
    pub tx :
        All (IsReadyPort n num_workers) s.tx_rings → All (IsReadyPort n num_workers) s'.tx_rings
    pub rx :
        All (IsReadyPort n num_workers) s.rx_rings → All (IsReadyPort n num_workers) s'.rx_rings
    pub tx_ports : length s'.tx_rings ≡ length s.tx_rings + count
    pub rx_ports : length s'.rx_rings ≡ length s.rx_rings + count
    pub next : s'.iface_num ≡ s.iface_num + count

module _ (n : Netmap) (host : Host) (num_workers : ℕ) where
  pub prepare_ends :
      (name : String) (s : Setup) (i : Interface)
      → host.is_mapped ≡ true
      → IsRegistered host num_workers name
      → find_by_name name s.heap ≡ some i
      → (s' : Setup) × (prepare host num_workers name s ≡ some s')
        × IsSetUp n num_workers 1 s s'
        × Numbers name s.iface_num s.heap s'.heap i
  unfolding prepare
  prepare_ends name s i mapped reg known =
      let r = host.register name in
      let free =
        push_bufs-Chain host.next_buf host.num_bufs r.ni_bufs_head reg.bufs s.free_bufs reg.chain
          reg.few in
      let (heap, numbers) = number_interface-Numbers name s.iface_num s.heap i known in
      let tx = rings_from r.tx_ring (r.ni_tx_rings + 1) 0 in
      let rx = rings_from r.rx_ring (r.ni_rx_rings + 1) 0 in
      (
        record {
          heap = heap;
          tx_rings = s.tx_rings ++ tx ∷ [];
          rx_rings = s.rx_rings ++ rx ∷ [];
          free_bufs = onto reg.bufs s.free_bufs;
          iface_num = s.iface_num + 1;
        },
        rw (mapped, prepare)
            (rw (eq→== r.nr_tx_rings num_workers reg.nr_tx, prepare)
              (rw (eq→== r.nr_rx_rings num_workers reg.nr_rx, prepare)
                (rw (free, prepare) (rw (numbers.numbers, prepare) refl)))),
        record {
          tx = λ h.
              All-append (IsReadyPort n num_workers) s.tx_rings (tx ∷ []) h
                (all_rings n num_workers r.tx_ring r.ni_tx_rings reg.ni_tx reg.tx_head, tt);
          rx = λ h.
              All-append (IsReadyPort n num_workers) s.rx_rings (rx ∷ []) h
                (all_rings n num_workers r.rx_ring r.ni_rx_rings reg.ni_rx reg.rx_head, tt);
          tx_ports = length-append s.tx_rings (tx ∷ []);
          rx_ports = length-append s.rx_rings (rx ∷ []);
          next = refl;
        },
        numbers,
      )
