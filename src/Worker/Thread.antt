-- ===== src/Worker/Thread.antt =====
-- The life of a worker's thread in include/worker.hpp: `run`, and `stop` and `update`, which other
-- threads call.
use ariadne.Base.{ℕ, suc, List, [], ◌∷◌}
use ariadne.Worker.{Tables}

pub data RunState : Type 0 where
  running stopped : RunState

-- Where `run` stands: before its `store(RUN)`, before a `load`, at the test of the loop with the
-- value of `state_`, at the `try_dequeue_bulk` of `process`, or at its end; or `process` has called
-- `abort` or `fatal`.
pub data Place : Type 0 where
  entry : Place
  loading : Place
  testing : RunState → Place
  processing : Place
  exited : Place
  aborted : Place

-- `current` is `cur_lpm` and `cur_arp_table`, `updated` is `new_lpm` and `new_arp_table`.
pub record Thread : Type 0 where
  pub state : RunState
  pub place : Place
  pub current : Tables
  pub updated : Tables

-- The constructor.
abbrev pub new_worker : Tables → Thread
new_worker t = record { state = running; place = entry; current = t; updated = t }

-- What a round of the loop of `process` finds: an empty queue, a bulk of frames that it handles, or
-- a bulk with a frame on which it ends the program.
pub data Bulk : Type 0 where
  empty handled fatal : Bulk

-- The next move of the thread: an access of `run` to `state`, or, inside `process`, one round of its
-- loop, for which alone the bulk counts. `process` returns on an empty queue only, and does not read
-- `state`.
unfoldable pub run_at : Bulk → Place → RunState → RunState × Place
run_at bulk entry state = (running, loading)
run_at bulk loading state = (state, testing state)
run_at bulk (testing running) state = (state, processing)
run_at bulk (testing stopped) state = (state, exited)
run_at empty processing state = (state, loading)
run_at handled processing state = (state, processing)
run_at fatal processing state = (state, aborted)
run_at bulk exited state = (state, exited)
run_at bulk aborted state = (state, aborted)

unfoldable pub run_move : Bulk → Thread → Thread
unfolding run_at
run_move bulk s =
    let (state, place) = run_at bulk s.place s.state in record s { state = state; place = place }

-- The `store(STOP)` of `stop`; the `join` after it waits for the place `exited`.
abbrev pub stop_worker : Thread → Thread
stop_worker s = record s { state = stopped }

abbrev pub update_worker : Tables → Thread → Thread
update_worker t s = record s { updated = t }

-- What happens to a worker, in any order.
pub data Event : Type 0 where
  moves : Bulk → Event
  stops : Event
  updates : Tables → Event

unfoldable pub happen : Event → Thread → Thread
unfolding run_move
happen (moves bulk) s = run_move bulk s
happen stops s = stop_worker s
happen (updates t) s = update_worker t s

unfoldable pub run_events : List Event → Thread → Thread
unfolding happen
run_events [] s = s
run_events (e ∷ es) s = run_events es (happen e s)

-- The thread's moves in a sequence of events that do not find a bulk to handle.
unfoldable pub idle_moves : List Event → ℕ
idle_moves [] = 0
idle_moves (moves empty ∷ es) = suc (idle_moves es)
idle_moves (moves handled ∷ es) = idle_moves es
idle_moves (moves fatal ∷ es) = suc (idle_moves es)
idle_moves (stops ∷ es) = idle_moves es
idle_moves (updates t ∷ es) = idle_moves es
