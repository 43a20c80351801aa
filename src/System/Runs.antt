-- ===== src/System/Runs.antt =====
-- The functions `Manager::process` and `Worker::process` of src/manager.cpp and src/worker.cpp run
-- undisturbed are sequences of the steps of the interleaved program.
use ariadne.Base.{
  ℕ, zero, suc, ◌<◌, ◌≡◌, ◌≢◌, ◌==◌, refl, sym, arith, Bool, List, [], ◌∷◌, ◌++◌, map, length,
  get_elem?, set, subst, Option, some, Option-cases, Bool-cases, inl, inr, ◌⊎◌, get_elem?-set_self,
  get_elem?-lt, set-same, set-set,
}
use ariadne.Frame.{Frame}
use ariadne.Netmap.{Netmap, Ring}
use ariadne.Manager.Receive.{
  RxState, Rx, done, fault, out_of_fuel, receive, take_slots, num_frames, after_bulk,
}
use ariadne.Manager.Transmit.{TxState, Item, transmit, transmit_one}
use ariadne.Manager.Conserve.{port_count}
use ariadne.Manager.Process.{
  Manager, rx_state, with_rx, restarted, receive_ring, receive_rings, receive_all, transmit_all,
  process,
}
use ariadne.BasicTrie.{Trie}
use ariadne.System.{
  World, bulk, start, send_one, change, Reach, stay, later, the_manager, card, bufs_of,
}

Rx-cases : (x : Rx) → ((r : RxState) × (x ≡ done r)) ⊎ ((x ≡ fault) ⊎ (x ≡ out_of_fuel))
Rx-cases (done r) = inl (r, refl)
Rx-cases fault = inr (inl refl)
Rx-cases out_of_fuel = inr (inr refl)

with_rx-same :
    (m : Manager) (iface w : ℕ) (rings : List Ring) (ring : Ring)
    → get_elem? m.rx_rings iface ≡ some rings
    → get_elem? rings w ≡ some ring
    → with_rx m iface rings w (rx_state m ring) ≡ m
with_rx-same m iface w rings ring e e' =
    rw (set-same rings w ring e') (rw (set-same m.rx_rings iface rings e) refl)

with_rx-twice :
    (m : Manager) (iface w : ℕ) (rings : List Ring) (r1 r2 : RxState)
    → with_rx (with_rx m iface rings w r1) iface (set rings w r1.ring) w r2
      ≡ with_rx m iface rings w r2
with_rx-twice m iface w rings r1 r2 =
    rw (set-set rings w r1.ring r2.ring)
      (rw (set-set m.rx_rings iface (set rings w r1.ring) (set rings w r2.ring)) refl)

module _ (n : Netmap) (fits : List Frame → List Frame → Bool) (shifted_out : ℕ → ℕ) (u : Trie)
    (num_workers : ℕ) where
  abbrev Runs : World → World → Type 0
  Runs = Reach n fits shifted_out u num_workers

  pub Reach-trans : (s t r : World) → Runs s t → Runs t r → Runs s r
  Reach-trans s t r p stay = p
  Reach-trans s t r p (later {t = mid} a q step) = later a (Reach-trans s t mid p q) step

  abbrev with_manager : World → Manager → World
  with_manager s m = record s { manager = m }

  receive-Reach :
      (fuel iface w : ℕ) (s : World) (rings : List Ring) (ring : Ring) (r : RxState)
      → get_elem? s.manager.rx_rings iface ≡ some rings
      → get_elem? rings w ≡ some ring
      → receive n fits iface fuel (rx_state s.manager ring) ≡ done r
      → Runs s (with_manager s (with_rx s.manager iface rings w r))
  unfolding receive
  receive-Reach zero iface w s rings ring r e e' h = absurd (ground arith)
  receive-Reach (suc fuel) iface w s rings ring r e e' h =
      let r0 = rx_state s.manager ring in
      let k = num_frames n fits iface r0 in
      elim (Bool-cases (k == 0)) [
        | inl stop ↦
            let same : r0 ≡ r = ground (arith, stop) in
            let unchanged : with_rx s.manager iface rings w r ≡ s.manager =
              rw (← same) (with_rx-same s.manager iface w rings ring e e') in
            rw unchanged stay
        | inr go ↦ elim (Option-cases (take_slots n fits iface k ring s.manager.tx.free_bufs)) [
          | inl t ↦ absurd (ground (arith, go, t))
          | inr ((fs, ring1, free), t) ↦
              let r1 = after_bulk n fits iface r0 fs ring1 free in
              let m1 = with_rx s.manager iface rings w r1 in
              let rings1 = set rings w ring1 in
              let next : receive n fits iface fuel r1 ≡ done r = ground (arith, go, t) in
              let rest =
                receive-Reach fuel iface w (with_manager s m1) rings1 ring1 r
                  (get_elem?-set_self s.manager.rx_rings iface rings1 (get_elem?-lt _ _ _ e))
                  (get_elem?-set_self rings w ring1 (get_elem?-lt _ _ _ e')) next in
              Reach-trans s (with_manager s m1) _
                (later the_manager stay (bulk iface w rings ring ring1 fs free e e' go t))
                (rw (← with_rx-twice s.manager iface w rings r1 r) rest)
        ]
      ]

  receive_ring-Reach :
      (iface w : ℕ) (s : World) (m : Manager)
      → receive_ring n fits iface w s.manager ≡ some m
      → Runs s (with_manager s m)
  unfolding receive_ring
  receive_ring-Reach iface w s m h = elim (Option-cases (get_elem? s.manager.rx_rings iface)) [
    | inl e ↦ absurd (ground (arith, e))
    | inr (rings, e) ↦ elim (Option-cases (get_elem? rings w)) [
      | inl e' ↦ absurd (ground (arith, e, e'))
      | inr (ring, e') ↦
          let fuel = suc (length s.manager.tx.free_bufs) in
          elim (Rx-cases (receive n fits iface fuel (rx_state s.manager ring))) [
            | inl (r, d) ↦
                let same : with_rx s.manager iface rings w r ≡ m = ground (arith, e, e', d) in
                rw (← same) (receive-Reach fuel iface w s rings ring r e e' d)
            | inr (inl d) ↦ absurd (ground (arith, e, e', d))
            | inr (inr d) ↦ absurd (ground (arith, e, e', d))
          ]
    ]
  ]

  receive_rings-Reach :
      (iface w left : ℕ) (s : World) (m : Manager)
      → receive_rings n fits iface w left s.manager ≡ some m
      → Runs s (with_manager s m)
  unfolding receive_rings
  receive_rings-Reach iface w zero s m h =
      let same : s.manager ≡ m = ground arith in rw (← same) stay
  receive_rings-Reach iface w (suc left) s m h =
      elim (Option-cases (receive_ring n fits iface w s.manager)) [
        | inl e ↦ absurd (ground (arith, e))
        | inr (m1, e) ↦
            Reach-trans s (with_manager s m1) _ (receive_ring-Reach iface w s m1 e)
              (receive_rings-Reach iface (suc w) left (with_manager s m1) m (ground (arith, e)))
      ]

  receive_all-Reach :
      (k iface left : ℕ) (s : World) (m : Manager)
      → receive_all n fits k iface left s.manager ≡ some m
      → Runs s (with_manager s m)
  unfolding receive_all
  receive_all-Reach k iface zero s m h = let same : s.manager ≡ m = ground arith in rw (← same) stay
  receive_all-Reach k iface (suc left) s m h =
      elim (Option-cases (receive_rings n fits iface 0 k s.manager)) [
        | inl e ↦ absurd (ground (arith, e))
        | inr (m1, e) ↦
            Reach-trans s (with_manager s m1) _ (receive_rings-Reach iface 0 k s m1 e)
              (receive_all-Reach k (suc iface) left (with_manager s m1) m (ground (arith, e)))
      ]

  transmit-Reach :
      (items : List Item) (after : List Frame) (s : World) (tx : TxState)
      → s.out_queue ≡ map (λ x. x.frame) items ++ after
      → transmit n num_workers s.manager.tx items ≡ some tx
      → Runs s (record s { manager = record (s.manager) { tx = tx }; out_queue = after })
  unfolding transmit
  transmit-Reach [] after s tx q h =
      let same : s.manager.tx ≡ tx = ground arith in rw (← same, ← q) stay
  transmit-Reach (x ∷ items) after s tx q h =
      elim (Option-cases (transmit_one n num_workers s.manager.tx x)) [
        | inl e ↦ absurd (ground (arith, e))
        | inr (tx1, e) ↦
            let rest = map (λ x. x.frame) items ++ after in
            let s1 : World = record s {
              manager = record (s.manager) { tx = tx1 };
              out_queue = rest;
            } in
            Reach-trans s s1 _ (later the_manager stay (send_one [] rest x tx1 q e))
              (transmit-Reach items after s1 tx refl (ground (arith, e)))
      ]

  -- What `poll` does: the card may move the bounds of the rings, fill in the lengths, and write
  -- the packets of the receive slots.
  pub record Polls (m m' : Manager) : Type 0 where
    pub rx : bufs_of m'.rx_rings ≡ bufs_of m.rx_rings
    pub tx : bufs_of m'.tx.tx_rings ≡ bufs_of m.tx.tx_rings
    pub received :
        (ptr : ℕ)
        → ((b : ℕ) → 0 < port_count b m.rx_rings → n.buf b ≢ ptr)
        → m'.tx.memory ptr ≡ m.tx.memory ptr
    pub else_same : m' ≡ record m {
      rx_rings = m'.rx_rings;
      tx = record (m.tx) { tx_rings = m'.tx.tx_rings; memory = m'.tx.memory };
    }

  polled : (s : World) (m : Manager) → Polls s.manager m → Runs s (with_manager s m)
  polled s m p =
      let moved =
        later card stay (change m.rx_rings m.tx.tx_rings m.tx.memory p.rx p.tx p.received) in
      subst (λ x. Runs s (with_manager s x)) (sym p.else_same) moved

  -- If `poll` only moves the bounds of the rings, fills in lengths and writes packets of receive
  -- slots, a run of `process` that nothing disturbs and that ends is a sequence of steps of the
  -- interleaved program, which takes from the workers' queue the frames that it sends.
  pub process-Reach :
      (poll : Manager → Option Manager) (num_interfaces : ℕ) (items : List Item)
      (after : List Frame) (s : World) (m : Manager)
      → ((m' : Manager) → poll s.manager ≡ some m' → Polls s.manager m')
      → s.out_queue ≡ map (λ x. x.frame) items ++ after
      → process n fits poll num_interfaces num_workers items s.manager ≡ some m
      → Runs s (record s { manager = m; out_queue = after })
  unfolding process transmit_all
  process-Reach poll num_interfaces items after s m law q h = elim (Option-cases (poll s.manager)) [
    | inl e ↦ absurd (ground (arith, e))
    | inr (m1, e) ↦ elim (Option-cases (receive_all n fits num_workers 0 num_interfaces m1)) [
      | inl e' ↦ absurd (ground (arith, e, e'))
      | inr (m2, e') ↦ elim (Option-cases (transmit n num_workers (restarted m2).tx items)) [
        | inl e'' ↦ absurd (ground (arith, e, e', e''))
        | inr (tx, e'') ↦
            let out : record (restarted m2) { tx = tx } ≡ m = ground (arith, e, e', e'') in
            let s2 = with_manager s m2 in
            rw (← out) (
              Reach-trans s (with_manager s (restarted m2)) _
                (later the_manager
                  (Reach-trans s (with_manager s m1) s2 (polled s m1 (law m1 e))
                    (receive_all-Reach num_workers 0 num_interfaces (with_manager s m1) m2 e'))
                  start)
                (transmit-Reach items after (with_manager s (restarted m2)) tx q e''))
      ]
    ]
  ]
