-- ===== src/System/Threads.antt =====
-- A run of `Worker::process` of src/worker.cpp that nothing disturbs is a sequence of the steps of
-- the interleaved program.
use mathlib.Core.List.{append_assoc}
use ariadne.Base.{
  ℕ, ◌+◌, ◌≤◌, ◌≡◌, refl, arith, Bool, true, List, [], ◌∷◌, ◌++◌, length, get_elem?, set, subst,
  some, inl, inr, ◌∙◌, All, get_elem?-set_self, get_elem?-lt, set-same, set-set,
}
use ariadne.Util.{u32}
use ariadne.Frame.{Frame}
use ariadne.Netmap.{Netmap}
use ariadne.BasicTrie.{Trie}
use ariadne.Worker.{
  Outcome-cases, State, Stats, next_state, ok, process_frame, process_frames, process,
}
use ariadne.Worker.Batch.{dequeued}
use ariadne.Worker.Pipeline.{worker_tables}
use ariadne.System.{
  World, take, work, Reach, stay, later, worker, worker_bulk_size, with_memory, worked, after_take,
}
use ariadne.System.Runs.{Reach-trans}

-- What a worker sees of the program.
abbrev pub seen : World → Stats → State
seen s stats = record { memory = s.manager.tx.memory; stats = stats; egress = s.out_queue }

-- The program after a worker has done with the frames of its array.
abbrev pub finished : World → ℕ → State → World
finished s i st = record {
  manager = with_memory s.manager st.memory;
  batches = set s.batches i [];
  out_queue = st.egress;
}

module _ (n : Netmap) (fits : List Frame → List Frame → Bool) (shifted_out : ℕ → ℕ) (u : Trie)
    (num_workers : ℕ) where
  abbrev Runs : World → World → Type 0
  Runs = Reach n fits shifted_out u num_workers

  process_frames-Reach :
      (i : ℕ) (fs : List Frame) (s : World) (stats : Stats) (st : State)
      → get_elem? s.batches i ≡ some fs
      → process_frames shifted_out (worker_tables u s.manager.tx.arp_table) fs (seen s stats)
        ≡ ok st
      → Runs s (finished s i st)
  unfolding process_frames
  process_frames-Reach i [] s stats st e h =
      let same : seen s stats ≡ st = ground arith in rw (← same, set-same s.batches i [] e) stay
  process_frames-Reach i (f ∷ fs) s stats st e h =
      let t = worker_tables u s.manager.tx.arp_table in
      elim (Outcome-cases (process_frame shifted_out t f (s.manager.tx.memory f.buf_ptr))) [
        | inr (why, o) ↦ absurd (ground arith)
        | inl (r, o) ↦
            let s1 = worked s i f fs r true in
            let stats1 = (next_state (seen s stats) f r).stats in
            let next : process_frames shifted_out t fs (seen s1 stats1) ≡ ok st =
              ground (arith, o) in
            let rest =
              process_frames-Reach i fs s1 stats1 st
                (get_elem?-set_self s.batches i fs (get_elem?-lt _ _ _ e)) next in
            Reach-trans n fits shifted_out u num_workers s s1 _
              (later (worker i) stay (work i f fs r true e o))
              (subst (λ bs. Runs s1 (record (finished s i st) { batches = bs }))
                (set-set s.batches i fs []) rest)
      ]

  -- If the queue starts with the batches that a run of `process` dequeues, each of at most the bulk
  -- size, and the worker has no frame in its array, then a run that ends is a sequence of
  -- steps of the worker in the interleaved program: afterwards the queue has lost these frames, the
  -- packets are what the run has made of them, and its frames are in the manager's queue.
  pub worker_process-Reach :
      (i : ℕ) (batches : List (List Frame)) (rest : List Frame) (s : World) (stats : Stats)
      (st : State)
      → get_elem? s.batches i ≡ some []
      → s.manager.queue ≡ dequeued batches ++ rest
      → All (λ batch. length batch ≤ worker_bulk_size) batches
      → process shifted_out (worker_tables u s.manager.tx.arp_table) batches (seen s stats) ≡ ok st
      → Runs s (record {
        manager = record (with_memory s.manager st.memory) { queue = rest };
        batches = s.batches;
        out_queue = st.egress;
      })
  unfolding process dequeued
  worker_process-Reach i [] rest s stats st e q small h =
      let same : seen s stats ≡ st = ground arith in rw (← same, ← q) stay
  worker_process-Reach i ([] ∷ batches) rest s stats st e q small h =
      let same : seen s stats ≡ st = ground arith in rw (← same, ← q) stay
  worker_process-Reach i ((f ∷ fs) ∷ batches) rest s stats st e q small h =
      let t = worker_tables u s.manager.tx.arp_table in
      let stats1 : Stats = record stats {
        num_batches = u32 (stats.num_batches + 1);
        num_frames = u32 (stats.num_frames + length (f ∷ fs));
      } in
      elim (Outcome-cases (process_frames shifted_out t (f ∷ fs) (seen s stats1))) [
        | inr (why, o) ↦ absurd (ground (arith, o))
        | inl (st1, o) ↦
            let queued = dequeued batches ++ rest in
            let s1 = after_take n fits shifted_out u num_workers s i (f ∷ fs) queued in
            let s2 : World = record {
              manager = record (with_memory s.manager st1.memory) { queue = queued };
              batches = s.batches;
              out_queue = st1.egress;
            } in
            let idle : set s1.batches i [] ≡ s.batches =
              set-set s.batches i (f ∷ fs) [] ∙ set-same s.batches i [] e in
            let split : s.manager.queue ≡ (f ∷ fs) ++ queued =
              q ∙ append_assoc (f ∷ fs) (dequeued batches) rest in
            let worked_off =
              process_frames-Reach i (f ∷ fs) s1 stats1 st1
                (get_elem?-set_self s.batches i (f ∷ fs) (get_elem?-lt _ _ _ e)) o in
            let after_batch : Runs s1 s2 =
              subst (λ bs. Runs s1 (record s2 { batches = bs })) idle worked_off in
            let next : process shifted_out t batches st1 ≡ ok st = ground (arith, o) in
            Reach-trans n fits shifted_out u num_workers s s2 _
              (Reach-trans n fits shifted_out u num_workers s s1 s2
                (later (worker i) stay (take i f fs queued e split small.0)) after_batch)
              (worker_process-Reach i batches rest s2 st1.stats st e refl small.1 next)
      ]
