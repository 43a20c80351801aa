-- ===== src/Worker/Lifetime.antt =====
-- How a worker's thread in include/worker.hpp ends.
use ariadne.Base.{ℕ, ◌+◌, ◌≤◌, ◌≡◌, ◌≢◌, refl, arith, List, [], ◌∷◌, ◌⊎◌, inl, inr, All}
use ariadne.Worker.Thread.{
  running, stopped, Place, entry, loading, testing, processing, exited, aborted, Thread, empty,
  handled, fatal, run_at, run_move, stop_worker, Event, moves, stops, updates, happen, run_events,
  idle_moves,
}

-- How many moves without a bulk the thread may make before it exits, once it is stopped.
abbrev rank : Place → ℕ
rank entry = 5
rank (testing running) = 4
rank processing = 3
rank loading = 2
rank (testing stopped) = 1
rank exited = 0
rank aborted = 0

-- A stopped thread that has begun its loop, in a program that has not ended.
abbrev IsStopping : Thread → Type 0
IsStopping s = (s.state ≡ stopped) × (s.place ≢ entry) × (s.place ≢ aborted)

abbrev pub IsNotFatal : Event → Type 0
IsNotFatal e = e ≢ moves fatal

rank-happen :
    (e : Event) (s : Thread)
    → IsNotFatal e
    → IsStopping s
    → IsStopping (happen e s) × (rank (happen e s).place ≤ rank s.place)
unfolding happen run_move run_at
rank-happen e s n h = ground arith

rank-move :
    (s : Thread)
    → IsStopping s
    → (rank (happen (moves empty) s).place + 1 ≤ rank s.place) ⊎ (s.place ≡ exited)
unfolding happen run_move run_at
rank-move s h = ground arith

exits :
    (es : List Event) (s : Thread)
    → IsStopping s
    → All IsNotFatal es
    → rank s.place ≤ idle_moves es
    → (run_events es s).place ≡ exited
unfolding run_events idle_moves
exits [] s h n few = ground arith
exits (moves empty ∷ es) s h n few =
    let (still, less) = rank-happen (moves empty) s n.0 h in
    exits es (happen (moves empty) s) still n.1 (ground (arith, rank-move s h, less))
exits (moves handled ∷ es) s h n few =
    let (still, less) = rank-happen (moves handled) s n.0 h in
    exits es (happen (moves handled) s) still n.1 (omega (arith, less))
exits (moves fatal ∷ es) s h n few = absurd (n.0 refl)
exits (stops ∷ es) s h n few =
    let (still, less) = rank-happen stops s n.0 h in
    exits es (happen stops s) still n.1 (omega (arith, less))
exits (updates t ∷ es) s h n few =
    let (still, less) = rank-happen (updates t) s n.0 h in
    exits es (happen (updates t) s) still n.1 (omega (arith, less))

-- Let `stop` store STOP in a worker whose thread has begun its loop, and let no frame end the
-- program. The thread has exited once it has made four moves beside those in which `process` takes a
-- bulk: rounds of `process` that find frames do not count, however many there are, and a return of
-- `process` on an empty queue is one of the four. Updates and further stops change nothing.
pub stop_ends :
    (s : Thread) (es : List Event)
    → s.place ≢ entry
    → s.place ≢ aborted
    → All IsNotFatal es
    → 4 ≤ idle_moves es
    → (run_events es (stop_worker s)).place ≡ exited
stop_ends s es begun alive calm enough =
    exits es (stop_worker s) (refl, begun, alive) calm (ground arith)

-- The thread has still to store RUN, or runs.
abbrev IsGoing : Thread → Type 0
IsGoing s =
    (s.place ≡ entry) ⊎ ((s.state ≡ running) × (s.place ≢ testing stopped) × (s.place ≢ exited))

abbrev IsNoStop : Event → Type 0
IsNoStop e = e ≢ stops

happen-IsGoing : (e : Event) (s : Thread) → IsNoStop e → IsGoing s → IsGoing (happen e s)
unfolding happen run_move run_at
happen-IsGoing (moves bulk) s n (inl e) = inr (ground arith)
happen-IsGoing (moves bulk) s n (inr h) = ground arith
happen-IsGoing stops s n h = absurd (n refl)
happen-IsGoing (updates t) s n h = h

goes_on : (es : List Event) (s : Thread) → All IsNoStop es → IsGoing s → IsGoing (run_events es s)
unfolding run_events
goes_on [] s n h = h
goes_on (e ∷ es) s n h = goes_on es (happen e s) n.1 (happen-IsGoing e s n.0 h)

-- A `stop` before the thread has stored RUN is lost: unless another one comes, the thread
-- never exits, whatever else happens, and the `join` in `stop` waits for ever.
pub stop_lost :
    (s : Thread) (es : List Event)
    → s.place ≡ entry
    → All IsNoStop es
    → (run_events es (stop_worker s)).place ≢ exited
stop_lost s es begun none_more gone = elim (goes_on es (stop_worker s) none_more (inl begun)) [
  | inl e ↦ ground arith
  | inr going ↦ going.2 gone
]
