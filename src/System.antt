-- ===== src/System.antt =====
-- The manager of src/manager.cpp and the workers of src/worker.cpp over their two queues and one
-- packet memory, interleaved in any order. A step is a bulk of the receive loop, a bulk that a
-- worker dequeues, a frame that it processes, a frame that the manager sends, or a change that the
-- network card makes.
pub mod Owners
pub mod Exclusive
pub mod Runs
pub mod Threads
pub mod Answer
use ariadne.Base.{
  ℕ, ◌<◌, ◌≤◌, ◌≡◌, ◌≢◌, ◌==◌, if◌then◌else◌, Bool, true, false, List, [], ◌∷◌, ◌++◌, length,
  get_elem?, set, map, some,
}
use ariadne.Frame.{Frame, Memory, store}
use ariadne.Netmap.{Netmap, Ring, slot_bufs, count}
use ariadne.Manager.Receive.{num_frames, take_slots, after_bulk}
use ariadne.Manager.Transmit.{TxState, Item, transmit_one}
use ariadne.Manager.Conserve.{port_count}
use ariadne.Manager.Process.{Manager, rx_state, with_rx, restarted}
use ariadne.BasicTrie.{Trie}
use ariadne.Worker.{Processed, process_frame, ok}
use ariadne.Worker.Pipeline.{worker_tables}

abbrev pub worker_bulk_size : ℕ
worker_bulk_size = 512

-- `batches` has, for each worker, the frames of its array that it has still to process;
-- `out_queue` is the content of `outRings[0]`.
pub record World : Type 0 where
  pub manager : Manager
  pub batches : List (List Frame)
  pub out_queue : List Frame

-- Who makes a step.
pub data Actor : Type 0 where
  the_manager : Actor
  worker : ℕ → Actor
  card : Actor

abbrev pub with_memory : Manager → Memory → Manager
with_memory s m = record s { tx = record (s.tx) { memory = m } }

-- After a worker has processed `f`: the queue takes the frame, if it is handed over and
-- `try_enqueue` finds room.
abbrev pub worked : World → ℕ → Frame → List Frame → Processed → Bool → World
worked s i f rest r room = record {
  manager = with_memory s.manager (store s.manager.tx.memory f.buf_ptr r.packet);
  batches = set s.batches i rest;
  out_queue =
      if r.enqueued
      then (if room then s.out_queue ++ r.frame ∷ [] else s.out_queue)
      else s.out_queue;
}

-- The buffers in the slots, which the card leaves where they are.
abbrev pub bufs_of : List (List Ring) → List (List (List ℕ))
bufs_of = map (map (λ (r : Ring). slot_bufs r.slots))

module _ (n : Netmap) (fits : List Frame → List Frame → Bool) (shifted_out : ℕ → ℕ) (u : Trie)
    (num_workers : ℕ) where
  abbrev pub after_take : World → ℕ → List Frame → List Frame → World
  after_take s i batch rest = record s {
    manager = record (s.manager) { queue = rest };
    batches = set s.batches i batch;
  }

  abbrev pub after_card : World → List (List Ring) → List (List Ring) → Memory → World
  after_card s rx tx mem = record s {
    manager = record (s.manager) {
      rx_rings = rx;
      tx = record (s.manager.tx) { tx_rings = tx; memory = mem };
    };
  }

  pub data Step (s : World) : Actor → World → Type 0 where
    bulk :
        (iface w : ℕ) (rings : List Ring) (ring ring' : Ring) (fs : List Frame) (free : List ℕ)
        → get_elem? s.manager.rx_rings iface ≡ some rings
        → get_elem? rings w ≡ some ring
        → (num_frames n fits iface (rx_state s.manager ring) == 0) ≡ false
        → take_slots n fits iface
            (num_frames n fits iface (rx_state s.manager ring))
            ring
            s.manager.tx.free_bufs
          ≡ some (fs, ring', free)
        → Step s the_manager (record s {
          manager =
              with_rx s.manager iface rings w
                (after_bulk n fits iface (rx_state s.manager ring) fs ring' free);
        })
    take :
        (i : ℕ) (f : Frame) (fs rest : List Frame)
        → get_elem? s.batches i ≡ some []
        → s.manager.queue ≡ (f ∷ fs) ++ rest
        → length (f ∷ fs) ≤ worker_bulk_size
        → Step s (worker i) (after_take s i (f ∷ fs) rest)
    work :
        (i : ℕ) (f : Frame) (rest : List Frame) (r : Processed) (room : Bool)
        → get_elem? s.batches i ≡ some (f ∷ rest)
        → process_frame shifted_out
            (worker_tables u s.manager.tx.arp_table)
            f
            (s.manager.tx.memory f.buf_ptr)
          ≡ ok r
        → Step s (worker i) (worked s i f rest r room)
    start : Step s the_manager (record s { manager = restarted s.manager })
    send_one :
        (before after : List Frame) (x : Item) (tx : TxState)
        → s.out_queue ≡ before ++ x.frame ∷ after
        → transmit_one n num_workers s.manager.tx x ≡ some tx
        → Step s the_manager
            (record s { manager = record (s.manager) { tx = tx }; out_queue = before ++ after })
    change :
        (rx tx : List (List Ring)) (mem : Memory)
        → bufs_of rx ≡ bufs_of s.manager.rx_rings
        → bufs_of tx ≡ bufs_of s.manager.tx.tx_rings
        → ((ptr : ℕ)
            → ((b : ℕ) → 0 < port_count b s.manager.rx_rings → n.buf b ≢ ptr)
            → mem ptr ≡ s.manager.tx.memory ptr)
        → Step s card (after_card s rx tx mem)

  pub data Reach (s : World) : World → Type 0 where
    stay : Reach s s
    later : {t t' : World} (a : Actor) → Reach s t → Step t a t' → Reach s t'
