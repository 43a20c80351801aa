-- ===== src/Manager/Rounds.antt =====
-- The loop of `run` in include/manager.hpp goes on: each call of `process` of src/manager.cpp
-- returns and leaves the rings as the next one needs them.
use ariadne.Base.{
  ℕ, zero, suc, ◌+◌, ◌^◌, ◌<◌, ◌≤◌, ◌≡◌, refl, sym, arith, Bool, List, [], ◌∷◌, map, length, get_or,
  set, some, subst, All, All-get, All-set, get_elem?-eq-get_or, length-set, ◌∙◌,
}
use ariadne.Frame.{Frame}
use ariadne.Netmap.{Netmap, NetmapLaws, Ring}
use ariadne.Manager.ReceiveLaws.{receive_ends}
use ariadne.Manager.Transmit.{TxState, transmit}
use ariadne.Manager.Rings.{IsReadyPort, IsForwarded, forwarded_ends}
use ariadne.Manager.Process.{
  Manager, Round, rx_state, with_rx, restarted, receive_ring, receive_rings, receive_all,
  transmit_all, process, run_loop,
}

-- What readiness depends on.
abbrev pub head_size : Ring → ℕ × ℕ
head_size r = (r.head, length r.slots)

abbrev pub heads_of : List (List Ring) → List (List (ℕ × ℕ))
heads_of = map (map head_size)

module _ (n : Netmap) (laws : NetmapLaws n) (fits : List Frame → List Frame → Bool)
    (num_interfaces num_workers : ℕ) where
  -- Every interface has its rings on both sides, each with its head inside.
  pub record IsRunning (s : Manager) : Type 0 where
    pub rx : All (IsReadyPort n num_workers) s.rx_rings
    pub tx : All (IsReadyPort n num_workers) s.tx.tx_rings
    pub rx_ports : length s.rx_rings ≡ num_interfaces
    pub tx_ports : length s.tx.tx_rings ≡ num_interfaces
    pub some_worker : 0 < num_workers
    pub narrow : num_workers + 1 < 2 ^ 32

  receive_ring_ends :
      (iface w : ℕ) (s : Manager)
      → iface < num_interfaces
      → w < num_workers
      → IsRunning s
      → (s' : Manager) × (receive_ring n fits iface w s ≡ some s') × IsRunning s'
  unfolding receive_ring
  receive_ring_ends iface w s i h ok =
      let rings = get_or s.rx_rings iface [] in
      let e = get_elem?-eq-get_or s.rx_rings iface [] (omega (arith, ok.rx_ports, i)) in
      let port_ok = All-get (IsReadyPort n num_workers) s.rx_rings iface rings ok.rx e in
      let ring = get_or rings w (record { slots = []; head = 0; cur = 0; tail = 0 }) in
      let e' =
        get_elem?-eq-get_or rings w (record { slots = []; head = 0; cur = 0; tail = 0 })
          (omega (arith, port_ok.0, h)) in
      let v = All-get (λ r. r.head < length r.slots) rings w ring port_ok.1 e' in
      let (r, run, _, _, inside) =
        receive_ends n laws fits iface (suc (length s.tx.free_bufs)) (rx_state s ring) (omega arith)
          v in
      (
        with_rx s iface rings w r,
        rw (e, receive_ring) (rw (e', receive_ring) (rw (run, receive_ring) refl)),
        record {
          rx = All-set (IsReadyPort n num_workers) s.rx_rings iface (set rings w r.ring) ok.rx (
            length-set rings w r.ring ∙ port_ok.0,
            All-set (λ r. r.head < length r.slots) rings w r.ring port_ok.1 inside,
          );
          tx = ok.tx;
          rx_ports = length-set s.rx_rings iface (set rings w r.ring) ∙ ok.rx_ports;
          tx_ports = ok.tx_ports;
          some_worker = ok.some_worker;
          narrow = ok.narrow;
        },
      )

  receive_rings_ends :
      (iface w left : ℕ) (s : Manager)
      → iface < num_interfaces
      → w + left ≤ num_workers
      → IsRunning s
      → (s' : Manager) × (receive_rings n fits iface w left s ≡ some s') × IsRunning s'
  unfolding receive_rings
  receive_rings_ends iface w zero s i h ok = (s, refl, ok)
  receive_rings_ends iface w (suc left) s i h ok =
      let (s1, e, ok1) = receive_ring_ends iface w s i (omega arith) ok in
      let (s', e', ok') = receive_rings_ends iface (suc w) left s1 i (omega arith) ok1 in
      (s', rw (e, receive_rings) e', ok')

  receive_all_ends :
      (iface left : ℕ) (s : Manager)
      → iface + left ≤ num_interfaces
      → IsRunning s
      → (s' : Manager) × (receive_all n fits num_workers iface left s ≡ some s') × IsRunning s'
  unfolding receive_all
  receive_all_ends iface zero s h ok = (s, refl, ok)
  receive_all_ends iface (suc left) s h ok =
      let (s1, e, ok1) = receive_rings_ends iface 0 num_workers s (omega arith) (omega arith) ok in
      let (s', e', ok') = receive_all_ends (suc iface) left s1 (omega arith) ok1 in
      (s', rw (e, receive_all) e', ok')

  ready_port :
      (rs qs : List Ring)
      → map head_size qs ≡ map head_size rs
      → All (λ r. r.head < length r.slots) rs
      → (length qs ≡ length rs) × All (λ r. r.head < length r.slots) qs
  ready_port [] [] e h = (refl, tt)
  ready_port [] (q ∷ qs) e h = cc
  ready_port (r ∷ rs) [] e h = cc
  ready_port (r ∷ rs) (q ∷ qs) e h =
      let (len, rest) = ready_port rs qs (ground arith) h.1 in
      let head : q.head ≡ r.head = ground arith in
      let size : length q.slots ≡ length r.slots = ground arith in
      (omega (arith, len), (omega (arith, head, size, h.0), rest))

  ready_ports :
      (ps qs : List (List Ring))
      → heads_of qs ≡ heads_of ps
      → All (IsReadyPort n num_workers) ps
      → (length qs ≡ length ps) × All (IsReadyPort n num_workers) qs
  ready_ports [] [] e h = (refl, tt)
  ready_ports [] (q ∷ qs) e h = cc
  ready_ports (p ∷ ps) [] e h = cc
  ready_ports (p ∷ ps) (q ∷ qs) e h =
      let (len, rest) = ready_ports ps qs (ground arith) h.1 in
      let (len', inside) = ready_port p q (ground arith) h.0.1 in
      (omega (arith, len), ((len' ∙ h.0.0, inside), rest))

  -- A round in which `poll` succeeds, leaves the heads and the sizes of the rings, and in which only
  -- frames are dequeued that a worker has routed to an existing port.
  pub record IsRegular (r : Round) : Type 0 where
    pub succeeds : (s : Manager) → (s' : Manager) × (r.poll s ≡ some s')
    pub keeps_rx :
        (s s' : Manager) → r.poll s ≡ some s' → heads_of s'.rx_rings ≡ heads_of s.rx_rings
    pub keeps_tx :
        (s s' : Manager) → r.poll s ≡ some s' → heads_of s'.tx.tx_rings ≡ heads_of s.tx.tx_rings
    pub forwarded : All (λ x. IsForwarded n num_workers num_interfaces x.frame) r.items

  process_step :
      (r : Round) (s s1 s2 : Manager) (tx : TxState)
      → r.poll s ≡ some s1
      → receive_all n fits num_workers 0 num_interfaces s1 ≡ some s2
      → transmit n num_workers (restarted s2).tx r.items ≡ some tx
      → process n fits r.poll num_interfaces num_workers r.items s
        ≡ some (record (restarted s2) { tx = tx })
  unfolding process transmit_all
  process_step r s s1 s2 tx e e' e'' =
      rw (e, process) (rw (e', process) (rw (e'', transmit_all) refl))

  process_ends :
      (r : Round) (s : Manager)
      → IsRegular r
      → IsRunning s
      → (s' : Manager) × (process n fits r.poll num_interfaces num_workers r.items s ≡ some s')
        × IsRunning s'
  process_ends r s regular ok =
      let (s1, e) = regular.succeeds s in
      let (rx_len, rx) = ready_ports s.rx_rings s1.rx_rings (regular.keeps_rx s s1 e) ok.rx in
      let (tx_len, tx) = ready_ports s.tx.tx_rings s1.tx.tx_rings (regular.keeps_tx s s1 e) ok.tx in
      let (s2, e', ok2) = receive_all_ends 0 num_interfaces s1 (omega arith) (record {
        rx = rx;
        tx = tx;
        rx_ports = rx_len ∙ ok.rx_ports;
        tx_ports = tx_len ∙ ok.tx_ports;
        some_worker = ok.some_worker;
        narrow = ok.narrow;
      }) in
      let (tx', e'', ready, len) =
        forwarded_ends n num_workers laws (restarted s2).tx r.items
          (record { ports = ok2.tx; in_turn = ok2.some_worker; narrow = ok2.narrow })
          (subst (λ k. All (λ x. IsForwarded n num_workers k x.frame) r.items) (sym ok2.tx_ports)
            regular.forwarded) in
      (
        record (restarted s2) { tx = tx' },
        process_step r s s1 s2 tx' e e' e'',
        record {
          rx = ok2.rx;
          tx = ready.ports;
          rx_ports = ok2.rx_ports;
          tx_ports = len ∙ ok2.tx_ports;
          some_worker = ok2.some_worker;
          narrow = ok2.narrow;
        },
      )

  -- Let every interface have a receive and a transmit ring for each of at least one worker and for
  -- the host, with its head inside. Then the loop of `run` gets through any number of rounds in
  -- which `poll` succeeds and leaves the heads and sizes of the rings, and in which the workers hand
  -- over frames routed to existing ports or discarded: each call of `process` returns, within the
  -- fuel of its loops and without an access out of range, and the rings are as before for the next.
  pub run_loop_goes_on :
      (rounds : List Round) (s : Manager)
      → IsRunning s
      → All IsRegular rounds
      → (s' : Manager) × (run_loop n fits num_interfaces num_workers rounds s ≡ some s')
        × IsRunning s'
  unfolding run_loop
  run_loop_goes_on [] s ok regular = (s, refl, ok)
  run_loop_goes_on (r ∷ rounds) s ok regular =
      let (s1, e, ok1) = process_ends r s regular.0 ok in
      let (s', e', ok') = run_loop_goes_on rounds s1 ok1 regular.1 in (s', rw (e, run_loop) e', ok')
