-- ===== src/Tests/Startup.antt =====
-- The start of the router with one worker on eth0 and eth1, the end of a worker, and the hash.
use Prim.Native.String.{String}
use ariadne.Base.{
  All, ℕ, ◌+◌, ◌^◌, ◌<◌, ◌≤◌, ◌≡◌, ◌≢◌, ◌⊎◌, refl, arith, true, some, List, [], ◌∷◌, if◌then◌else◌,
  ltb, same_text,
}
use ariadne.Manager.Init.{Registration, Host, Setup, prepare_all, nothing_set_up}
use ariadne.Manager.Prepared.{IsRegistered}
use ariadne.Manager.Started.{AreNumbered, before_loop, prepare_all-IsRunning}
use ariadne.Manager.Rounds.{IsRunning}
use ariadne.Worker.Thread.{
  Event, Thread, processing, exited, moves, stops, run_events, new_worker, stop_worker, idle_moves,
  empty, handled,
}
use ariadne.Worker.Lifetime.{IsNotFatal, stop_ends, stop_lost}
use ariadne.CommandLine.{main, usage}
use ariadne.CommandLine.Branches.{Decided, main_branches}
use ariadne.Frame.Hash.{Bytes, hash, hash_ignores_addresses}
use ariadne.BasicTrie.{new_internal}
use ariadne.Worker.Pipeline.{worker_tables}
use ariadne.Tests.Data.{two_ports, arp_table}
use ariadne.Tests.Exchange.{hop_reply}
use ariadne.Tests.Rings.{small_netmap, small_netmap-Laws, slot, has_room}

-- Buffers 40 and 41 are the chain of eth0, 42 that of eth1.
abbrev pub given : ℕ → ℕ → Registration
given bufs first = record {
  nr_tx_rings = 1;
  nr_rx_rings = 1;
  ni_tx_rings = 1;
  ni_rx_rings = 1;
  tx_ring = λ k. record { slots = slot (first + k) ∷ []; head = 0; cur = 0; tail = 0 };
  rx_ring = λ k. record { slots = slot (first + 2 + k) ∷ []; head = 0; cur = 0; tail = 0 };
  ni_bufs_head = bufs;
}

abbrev pub host : Host
host = record {
  is_root = true;
  is_mapped = true;
  register = λ name. if same_text name "eth0" then given 40 20 else given 42 30;
  next_buf = λ b. if ltb b 41 then b + 1 else 0;
  num_bufs = 50;
}

eth0-IsRegistered : IsRegistered host 1 "eth0"
eth0-IsRegistered = record {
  nr_tx = refl;
  nr_rx = refl;
  ni_tx = refl;
  ni_rx = refl;
  tx_head = λ k. omega arith;
  rx_head = λ k. omega arith;
  bufs = 40 ∷ 41 ∷ [];
  chain = (refl, (λ e. omega arith), (refl, (λ e. omega arith), refl));
  few = omega arith;
}

eth1-IsRegistered : IsRegistered host 1 "eth1"
eth1-IsRegistered = record {
  nr_tx = refl;
  nr_rx = refl;
  ni_tx = refl;
  ni_rx = refl;
  tx_head = λ k. omega arith;
  rx_head = λ k. omega arith;
  bufs = 42 ∷ [];
  chain = (refl, (λ e. omega arith), refl);
  few = omega arith;
}

prepare_all-IsRunning_example :
    (s : Setup) × (prepare_all host 1 ("eth0" ∷ "eth1" ∷ []) (nothing_set_up two_ports) ≡ some s)
    × AreNumbered s.heap 0 ("eth0" ∷ "eth1" ∷ [])
    × IsRunning small_netmap small_netmap-Laws has_room 2 1
        (before_loop s arp_table (λ ptr. hop_reply))
prepare_all-IsRunning_example =
    prepare_all-IsRunning small_netmap small_netmap-Laws has_room host 1 ("eth0" ∷ "eth1" ∷ [])
      two_ports arp_table (λ ptr. hop_reply) refl (omega arith) (omega arith)
      (eth0-IsRegistered, (eth1-IsRegistered, tt)) ((refl, tt), (tt, tt))
      ((_, refl), ((_, refl), tt))

abbrev at_work : Thread
at_work = record (new_worker (worker_tables new_internal arp_table)) { place = processing }

-- Two bulks come in before the queue is empty.
abbrev working_off : List Event
working_off =
    moves handled
    ∷ stops
    ∷ moves handled
    ∷ moves empty
    ∷ moves empty
    ∷ moves empty
    ∷ moves empty
    ∷ []

enough_moves : 4 ≤ idle_moves working_off
unfolding idle_moves
enough_moves = omega arith

working_off-IsNotFatal : All IsNotFatal working_off
working_off-IsNotFatal = (
  (λ e. ground arith),
  (
    (λ e. ground arith),
    (
      (λ e. ground arith),
      (
        (λ e. ground arith),
        ((λ e. ground arith), ((λ e. ground arith), ((λ e. ground arith), tt))),
      ),
    ),
  ),
)

stop_ends_example : (run_events working_off (stop_worker at_work)).place ≡ exited
stop_ends_example =
    stop_ends at_work working_off (λ e. ground arith) (λ e. ground arith) working_off-IsNotFatal
      enough_moves

stop_lost_example :
    (run_events
      (moves handled ∷ moves empty ∷ [])
      (stop_worker (new_worker (worker_tables new_internal arp_table)))).place
    ≢ exited
stop_lost_example =
    stop_lost (new_worker (worker_tables new_internal arp_table)) (moves handled ∷ moves empty ∷ [])
      refl ((λ e. ground arith), ((λ e. ground arith), tt))

abbrev arguments : List String
arguments = "-t" ∷ "2" ∷ "eth0" ∷ []

main_branches_example :
    ((arguments ≡ []) × (main arguments ≡ usage))
    ⊎ ((arguments ≢ []) × Decided 1 arguments (main arguments))
main_branches_example = main_branches arguments

-- An IPv4 packet in an Ethernet frame, to an address that ends with the given byte.
abbrev bytes_to : ℕ → Bytes
bytes_to last i =
    if ltb i 12
    then 2
    else (if ltb i 13 then 8 else (if ltb i 33 then 0 else (if ltb i 34 then last else 0)))

hash_ignores_addresses_example :
    (hash (λ n. 0) (bytes_to 1) ≡ hash (λ n. 0) (bytes_to 200))
    × (hash (λ n. 0) (bytes_to 1) < 2 ^ 16)
hash_ignores_addresses_example =
    hash_ignores_addresses (λ n. 0) (bytes_to 1) (bytes_to 200) (λ i h. ground arith)
      (λ e. omega arith) (λ e. omega arith) (λ e. omega arith) (λ i. ground arith)
