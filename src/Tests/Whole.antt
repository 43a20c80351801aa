-- ===== src/Tests/Whole.antt =====
-- A router with one port and one worker, from a frame in the receive ring to the transmit ring.
use ariadne.Base.{
  ℕ, ◌*◌, ◌<◌, ◌≤◌, ◌≡◌, ◌≢◌, refl, sym, arith, true, some, Option, List, [], ◌∷◌, ◌++◌, map, subst,
  ne→==,
}
use ariadne.Interface.{find_by_netmap}
use ariadne.Frame.{Frame, Memory, store}
use ariadne.Netmap.{Ring, count}
use ariadne.Manager.Receive.{receive, take_slots}
use ariadne.Manager.Transmit.{transmit, transmit_one, handle_flags, send}
use ariadne.Manager.Process.{
  Manager, Round, process, receive_all, receive_rings, receive_ring, transmit_all, run_loop,
}
use ariadne.Manager.Rounds.{IsRunning, IsRegular, run_loop_goes_on}
use ariadne.BasicTrie.{new_internal}
use ariadne.System.{World, Reach, stay, later, bulk, take, work, change, worker, card, the_manager}
use ariadne.System.{with_memory}
use ariadne.System.Exclusive.{Holds, none_yet, more, private_packet}
use ariadne.System.Runs.{Polls, process-Reach}
use ariadne.System.Threads.{seen, worker_process-Reach}
use ariadne.Worker
use ariadne.Worker.{State, process_frame, process_frames, ok, cleared}
use ariadne.Worker.Batch.{dequeued}
use ariadne.Worker.Pipeline.{worker_tables}
use ariadne.Manager.Conserve.{port_count}
use ariadne.System.Owners.{owned, one_owner}
use ariadne.Tests.Data.{arp_table, ipv4_packet, ipv4_header}
use ariadne.Tests.Rings.{small_netmap, small_netmap-Laws, slot, has_room, tx_start, item}
use ariadne.Tests.Exchange.{host_reply}
use ariadne.Tests.Lookup.{seven}

-- One frame waits in buffer 1.
abbrev ring : List ℕ → Ring
ring bufs = record { slots = map slot bufs; head = 0; cur = 0; tail = 1 }

abbrev start_manager : Manager
start_manager = record {
  rx_rings = (ring (1 ∷ 2 ∷ []) ∷ ring (3 ∷ []) ∷ []) ∷ [];
  tx = record tx_start {
    tx_rings = (ring (4 ∷ 5 ∷ []) ∷ ring (6 ∷ []) ∷ []) ∷ [];
    free_bufs = 7 ∷ 8 ∷ [];
    memory = λ ptr. host_reply;
  };
  queue = [];
  num_recv = 0;
}

abbrev start_world : World
start_world = record { manager = start_manager; batches = [] ∷ []; out_queue = [] }

start_separate : (b : ℕ) → owned small_netmap small_netmap-Laws b start_world ≤ 1
unfolding count
start_separate b = ground arith

-- The frame is received, and the worker takes it.
received : (t : World) × Reach small_netmap has_room seven new_internal 1 start_world t
unfolding take_slots
received = (
  _,
  later the_manager stay (
      bulk 0 0 (ring (1 ∷ 2 ∷ []) ∷ ring (3 ∷ []) ∷ []) (ring (1 ∷ 2 ∷ [])) _ _ _ refl refl refl
        refl),
)

abbrev got : Frame
got = record { buf_ptr = 2048; len = 60; iface = 0; vlan = 0 }

taken : (t : World) × Reach small_netmap has_room seven new_internal 1 start_world t
unfolding received take_slots
taken = (_, later (worker 0) received.1 (take 0 got [] [] refl refl (omega arith)))

-- The ARP reply goes to the manager's queue, and the manager sends it.
worked_off : (t : World) × Reach small_netmap has_room seven new_internal 1 start_world t
unfolding taken received take_slots process_frame find_by_netmap
worked_off = (_, later (worker 0) taken.1 (work 0 got [] _ true refl refl))

one_owner_example : owned small_netmap small_netmap-Laws 1 worked_off.0 ≤ 1
one_owner_example =
    one_owner small_netmap small_netmap-Laws has_room seven new_internal 1 start_world worked_off.0
      worked_off.1 start_separate 1

-- While the worker has the frame, the card writes the buffer of the next slot.
abbrev written : Memory
written = store start_manager.tx.memory (2048 * 2) (ipv4_packet ipv4_header)

dma :
    (ptr : ℕ)
    → ((b : ℕ) → 0 < port_count b taken.0.manager.rx_rings → 2048 * b ≢ ptr)
    → written ptr ≡ taken.0.manager.tx.memory ptr
unfolding taken received take_slots count
dma ptr outside =
    let other : 2048 * 2 ≢ ptr = outside 2 (omega arith) in
    let e = ne→== ptr (2048 * 2) (λ z. other (sym z)) in rw e refl

holding :
    (t : World) × Holds small_netmap small_netmap-Laws has_room seven new_internal 1 got taken.0 t
unfolding taken received take_slots
holding = (
  _,
  more card none_yet
      (change taken.0.manager.rx_rings taken.0.manager.tx.tx_rings written refl refl dma)
      (record {
        at_worker = 0;
        position = 0;
        batch = got ∷ [];
        has_batch = refl;
        has_frame = refl;
      }),
)

private_packet_example : holding.0.manager.tx.memory 2048 ≡ taken.0.manager.tx.memory 2048
private_packet_example =
    private_packet small_netmap small_netmap-Laws has_room seven new_internal 1 got start_world
      taken.0 holding.0 start_separate taken.1 holding.1

-- A call of `process` that receives the frame and sends one that a worker has routed to port 0.
abbrev sending : World
sending = record start_world { out_queue = (item 9 0 5).frame ∷ [] }

processed :
    (m : Manager) × (process small_netmap has_room some 1 1 (item 9 0 5 ∷ []) start_manager
      ≡ some m)
unfolding process receive_all receive_rings receive_ring receive take_slots transmit_all transmit
    transmit_one handle_flags send
processed = (_, refl)

unmoved :
    (m : Manager)
    → ◌≡◌ {A = Option Manager} (some start_manager) (some m)
    → Polls small_netmap has_room seven new_internal 1 start_manager m
unmoved m e =
    let same : start_manager ≡ m = ground arith in
    subst (Polls small_netmap has_room seven new_internal 1 start_manager) same
      (record { rx = refl; tx = refl; received = λ ptr h. refl; else_same = refl })

process-Reach_example :
    Reach small_netmap has_room seven new_internal 1 sending
      (record sending { manager = processed.0; out_queue = [] })
process-Reach_example =
    process-Reach small_netmap has_room seven new_internal 1 some 1 (item 9 0 5 ∷ []) [] sending
      processed.0 unmoved refl processed.1

running : IsRunning small_netmap small_netmap-Laws has_room 1 1 start_manager
running = record {
  rx = ((refl, (omega arith, (omega arith, tt))), tt);
  tx = ((refl, (omega arith, (omega arith, tt))), tt);
  rx_ports = refl;
  tx_ports = refl;
  some_worker = omega arith;
  narrow = omega arith;
}

abbrev a_round : Round
a_round = record { poll = some; items = item 9 0 5 ∷ [] }

a_round-IsRegular : IsRegular small_netmap small_netmap-Laws has_room 1 1 a_round
a_round-IsRegular = record {
  succeeds = λ s. (s, refl);
  keeps_rx = λ s s' e. let same : s ≡ s' = ground arith in rw same refl;
  keeps_tx = λ s s' e. let same : s ≡ s' = ground arith in rw same refl;
  forwarded =
      (record { no_host = refl; no_arp = refl; no_request = refl; bound = omega arith }, tt);
}

run_loop_goes_on_example :
    (s' : Manager) × (run_loop small_netmap has_room 1 1 (a_round ∷ a_round ∷ []) start_manager
      ≡ some s')
    × IsRunning small_netmap small_netmap-Laws has_room 1 1 s'
run_loop_goes_on_example =
    run_loop_goes_on small_netmap small_netmap-Laws has_room 1 1 (a_round ∷ a_round ∷ [])
      start_manager running (a_round-IsRegular, (a_round-IsRegular, tt))

-- The worker's run over the received frame.
abbrev queued : World
queued = record start_world { manager = record start_manager { queue = got ∷ [] } }

worker_runs :
    (st : State) × (Worker.process seven
        (worker_tables new_internal arp_table)
        ((got ∷ []) ∷ [])
        (seen queued cleared)
      ≡ ok st)
unfolding Worker.process process_frames process_frame find_by_netmap
worker_runs = (_, refl)

dequeues : queued.manager.queue ≡ dequeued ((got ∷ []) ∷ []) ++ []
unfolding dequeued
dequeues = refl

worker_process-Reach_example : Reach small_netmap has_room seven new_internal 1 queued (record {
  manager = record (with_memory queued.manager worker_runs.0.memory) { queue = [] };
  batches = queued.batches;
  out_queue = worker_runs.0.egress;
})
worker_process-Reach_example =
    worker_process-Reach small_netmap has_room seven new_internal 1 0 ((got ∷ []) ∷ []) [] queued
      cleared worker_runs.0 refl dequeues (omega arith, tt) worker_runs.1
