-- ===== src/Manager/Process.antt =====
-- src/manager.cpp, `Manager::process`, as a whole: it polls, empties the receive rings of the
-- workers at each interface into the workers' queue, and sends what it dequeues from them.
-- `none` is a `fatal`, an access beyond the end of a vector or of a ring, or an `abort`.
use ariadne.Base.{ℕ, zero, suc, Bool, List, [], ◌∷◌, length, get_elem?, set, Option, some, none}
use ariadne.Frame.{Frame}
use ariadne.Netmap.{Netmap, Ring}
use ariadne.Manager.Receive.{RxState, done, fault, out_of_fuel, receive}
use ariadne.Manager.Transmit.{TxState, Item, transmit}

-- The members that `process` changes. `tx` has the free buffers; `queue` is the content of
-- `inRings[0]`.
pub record Manager : Type 0 where
  pub rx_rings : List (List Ring)
  pub tx : TxState
  pub queue : List Frame
  pub num_recv : ℕ

-- What the loop over one ring sees, and what it leaves.
abbrev pub rx_state : Manager → Ring → RxState
rx_state s ring = record {
  ring = ring;
  free_bufs = s.tx.free_bufs;
  queue = s.queue;
  num_recv = s.num_recv;
}

abbrev pub with_rx : Manager → ℕ → List Ring → ℕ → RxState → Manager
with_rx s iface rings worker r = record {
  rx_rings = set s.rx_rings iface (set rings worker r.ring);
  tx = record (s.tx) { free_bufs = r.free_bufs };
  queue = r.queue;
  num_recv = r.num_recv;
}

-- The local `ringid` starts at 0.
abbrev pub restarted : Manager → Manager
restarted s = record s { tx = record (s.tx) { ring_id = 0 } }

module _ (n : Netmap) (fits : List Frame → List Frame → Bool) where
  -- One ring; the fuel is one more than the free buffers.
  unfoldable pub receive_ring : ℕ → ℕ → Manager → Option Manager
  receive_ring iface worker s = elim (get_elem? s.rx_rings iface) [
    | none ↦ none
    | some rings ↦ elim (get_elem? rings worker) [
      | none ↦ none
      | some ring ↦ elim (receive n fits iface (suc (length s.tx.free_bufs)) (rx_state s ring)) [
        | done r ↦ some (with_rx s iface rings worker r)
        | fault ↦ none
        | out_of_fuel ↦ none
      ]
    ]
  ]

  -- The loop over the workers' rings of an interface, with `left` rounds to come.
  unfoldable pub receive_rings : ℕ → ℕ → ℕ → Manager → Option Manager
  receive_rings iface worker zero s = some s
  receive_rings iface worker (suc left) s = elim (receive_ring iface worker s) [
    | none ↦ none
    | some s' ↦ receive_rings iface (suc worker) left s'
  ]

  -- The loop over the interfaces, with `left` rounds to come.
  unfoldable pub receive_all : ℕ → ℕ → ℕ → Manager → Option Manager
  receive_all num_workers iface zero s = some s
  receive_all num_workers iface (suc left) s = elim (receive_rings iface 0 num_workers s) [
    | none ↦ none
    | some s' ↦ receive_all num_workers (suc iface) left s'
  ]

  -- The loop over the dequeued frames.
  unfoldable pub transmit_all : ℕ → List Item → Manager → Option Manager
  transmit_all num_workers items s = elim (transmit n num_workers s.tx items) [
    | none ↦ none
    | some tx ↦ some (record s { tx = tx })
  ]

  -- `poll` changes the rings, and fails with `none`; `items` are the frames that the calls of
  -- `try_dequeue` yield.
  unfoldable pub process : (Manager → Option Manager) → ℕ → ℕ → List Item → Manager → Option Manager
  process poll num_interfaces num_workers items s = elim (poll s) [
    | none ↦ none
    | some polled ↦ elim (receive_all num_workers 0 num_interfaces polled) [
      | none ↦ none
      | some received ↦ transmit_all num_workers items (restarted received)
    ]
  ]

-- What the outside does in one call of `process`.
pub record Round : Type 0 where
  pub poll : Manager → Option Manager
  pub items : List Item

module _ (n : Netmap) (fits : List Frame → List Frame → Bool) (num_interfaces num_workers : ℕ) where
  -- The loop of `run`, with a round for each time that `state.load() == RUN` holds.
  unfoldable pub run_loop : List Round → Manager → Option Manager
  run_loop [] s = some s
  run_loop (r ∷ rounds) s = elim (process n fits r.poll num_interfaces num_workers r.items s) [
    | none ↦ none
    | some s' ↦ run_loop rounds s'
  ]

-- The counters that the thread of `startStatsThread` prints, and the manager after that.
unfoldable pub report_stats : Manager → List ℕ × Manager
report_stats s = (
  s.num_recv ∷ s.tx.num_dropped ∷ s.tx.num_dropped_ring_space ∷ s.tx.num_dropped_no_mac
      ∷ s.tx.num_transmitted ∷ [],
  record s {
    num_recv = 0;
    tx = record (s.tx) {
      num_dropped = 0;
      num_dropped_ring_space = 0;
      num_dropped_no_mac = 0;
      num_transmitted = 0;
    };
  },
)
