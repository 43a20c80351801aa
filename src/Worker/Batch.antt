-- ===== src/Worker/Batch.antt =====
-- The loops of src/worker.cpp, `Worker::process`, over the frames of the batches.
use mathlib.Core.List.{append-nil, append_assoc, map-append}
use ariadne.Base.{
  ℕ, ◌+◌, ◌%◌, ◌^◌, ◌≡◌, ◌≢◌, inl, inr, refl, sym, ap, ◌∙◌, arith, Bool-cases, List, [], ◌∷◌, ◌++◌,
  map, length, length-append, All, ne→==,
}
use ariadne.Util.{u32}
use ariadne.Frame.{Frame}
use ariadne.Worker.{
  Outcome-cases, next_state, Tables, Processed, ok, process_frame, process_frames, process, State,
}
use ariadne.Worker.Host.{process_frame-buf_ptr}

-- `xs` is `ys` with some elements left out.
pub data Sublist : List ℕ → List ℕ → Type 0 where
  nil : Sublist [] []
  keep : {x : ℕ} {xs ys : List ℕ} → Sublist xs ys → Sublist (x ∷ xs) (x ∷ ys)
  skip : {y : ℕ} {xs ys : List ℕ} → Sublist xs ys → Sublist xs (y ∷ ys)

abbrev pub buffers : List Frame → List ℕ
buffers = map (λ f. f.buf_ptr)

-- The frames that a run of `process` dequeues: those before the first empty batch.
unfoldable pub dequeued : List (List Frame) → List Frame
dequeued [] = []
dequeued ([] ∷ rest) = []
dequeued ((f ∷ fs) ∷ rest) = (f ∷ fs) ++ dequeued rest

abbrev pub bytes : List Frame → ℕ
bytes [] = 0
bytes (f ∷ fs) = f.len + bytes fs

-- From `s` to `s'` the frames `fs` were processed: some of them, in order, were added to the
-- egress frames; the other buffers are untouched; the bytes were counted, up to the wrap.
pub record Processes (fs : List Frame) (s s' : State) : Type 0 where
  pub added : List Frame
  pub egress : s'.egress ≡ s.egress ++ added
  pub in_order : Sublist (buffers added) (buffers fs)
  pub others : (ptr : ℕ) → All (λ (f : Frame). f.buf_ptr ≢ ptr) fs → s'.memory ptr ≡ s.memory ptr
  pub counted : s'.stats.num_bytes % 2 ^ 32 ≡ (s.stats.num_bytes + bytes fs) % 2 ^ 32

Processes-none : (s : State) → Processes [] s s
Processes-none s = record {
  added = [];
  egress = sym (append-nil s.egress);
  in_order = nil;
  others = λ ptr h. refl;
  counted = omega arith;
}

Processes-one :
    (f : Frame) (fs : List Frame) (r : Processed) (s s' : State)
    → r.frame.buf_ptr ≡ f.buf_ptr
    → Processes fs (next_state s f r) s'
    → Processes (f ∷ fs) s s'
Processes-one f fs r s s' same p = elim (Bool-cases r.enqueued) [
  | inl t ↦ record {
    added = r.frame ∷ p.added;
    egress = p.egress ∙ rw t (append_assoc s.egress (r.frame ∷ []) p.added);
    in_order = rw same (keep p.in_order);
    others = λ ptr h. p.others ptr h.1 ∙ rw (ne→== ptr f.buf_ptr (λ e. h.0 (sym e)));
    counted = omega (arith, p.counted);
  }
  | inr t ↦ record {
    added = p.added;
    egress = p.egress ∙ rw t;
    in_order = skip p.in_order;
    others = λ ptr h. p.others ptr h.1 ∙ rw (ne→== ptr f.buf_ptr (λ e. h.0 (sym e)));
    counted = omega (arith, p.counted);
  }
]

Sublist-append :
    {as' bs xs ys : List ℕ} → Sublist as' bs → Sublist xs ys → Sublist (as' ++ xs) (bs ++ ys)
Sublist-append nil q = q
Sublist-append (keep p) q = keep (Sublist-append p q)
Sublist-append (skip p) q = skip (Sublist-append p q)

All-first {ℓ κ} : {A : Type ℓ} (P : A → Type κ) (xs ys : List A) → All P (xs ++ ys) → All P xs
All-first P [] ys h = tt
All-first P (x ∷ xs) ys h = (h.0, All-first P xs ys h.1)

All-second {ℓ κ} : {A : Type ℓ} (P : A → Type κ) (xs ys : List A) → All P (xs ++ ys) → All P ys
All-second P [] ys h = h
All-second P (x ∷ xs) ys h = All-second P xs ys h.1

bytes-append : (xs ys : List Frame) → bytes (xs ++ ys) ≡ bytes xs + bytes ys
bytes-append [] ys = omega arith
bytes-append (x ∷ xs) ys = omega (arith, bytes-append xs ys)

Processes-append :
    (fs gs : List Frame) (s a s' : State)
    → Processes fs s a
    → Processes gs a s'
    → Processes (fs ++ gs) s s'
Processes-append fs gs s a s' p q = record {
  added = p.added ++ q.added;
  egress = q.egress ∙ ap (λ x. x ++ q.added) p.egress ∙ append_assoc s.egress p.added q.added;
  in_order =
      rw (map-append (λ (f : Frame). f.buf_ptr), map-append (λ (f : Frame). f.buf_ptr))
        (Sublist-append p.in_order q.in_order);
  others = λ ptr h. q.others ptr (All-second _ fs gs h) ∙ p.others ptr (All-first _ fs gs h);
  counted = omega (arith, bytes-append fs gs, p.counted, q.counted);
}

module _ (shifted_out : ℕ → ℕ) (t : Tables) where
  process_frames-Processes :
      (fs : List Frame) (s s' : State)
      → process_frames shifted_out t fs s ≡ ok s'
      → Processes fs s s' × (s'.stats.num_frames ≡ s.stats.num_frames)
  unfolding process_frames
  process_frames-Processes [] s s' h =
      let e : s ≡ s' = ground arith in rw (← e) (Processes-none s, refl)
  process_frames-Processes (f ∷ fs) s s' h =
      elim (Outcome-cases (process_frame shifted_out t f (s.memory f.buf_ptr))) [
        | inr (why, e) ↦ absurd (ground arith)
        | inl (r, e) ↦
            let (rest, n) = process_frames-Processes fs (next_state s f r) s' (ground arith) in
            (Processes-one f fs r s s' (process_frame-buf_ptr shifted_out t f _ r e) rest, n)
      ]

  -- A run of `process` takes the frames of the batches before the first empty one. It hands some
  -- of them, in their order and in their own buffers, to the egress queue, after those that were
  -- there; it writes no buffer of another frame; and it counts their number and their bytes,
  -- modulo 2 ^ 32.
  pub process-Processes :
      (batches : List (List Frame)) (s s' : State)
      → process shifted_out t batches s ≡ ok s'
      → Processes (dequeued batches) s s'
        × (s'.stats.num_frames % 2 ^ 32 ≡ (s.stats.num_frames + length (dequeued batches)) % 2 ^ 32)
  unfolding process dequeued
  process-Processes [] s s' h =
      let e : s ≡ s' = ground arith in rw (← e) (Processes-none s, omega arith)
  process-Processes ([] ∷ rest) s s' h =
      let e : s ≡ s' = ground arith in rw (← e) (Processes-none s, omega arith)
  process-Processes ((f ∷ fs) ∷ rest) s s' h =
      let s1 : State = record s {
        stats = record (s.stats) {
          num_batches = u32 (s.stats.num_batches + 1);
          num_frames = u32 (s.stats.num_frames + length (f ∷ fs));
        };
      } in
      elim (Outcome-cases (process_frames shifted_out t (f ∷ fs) s1)) [
        | inr (why, e) ↦ absurd (ground arith)
        | inl (s2, e) ↦
            let (p, n) = process_frames-Processes (f ∷ fs) s1 s2 e in
            let (q, m) = process-Processes rest s2 s' (ground arith) in
            let p' : Processes (f ∷ fs) s s2 = record {
              added = p.added;
              egress = p.egress;
              in_order = p.in_order;
              others = p.others;
              counted = p.counted;
            } in
            (
              Processes-append (f ∷ fs) (dequeued rest) s s2 s' p' q,
              omega (arith, n, m, length-append fs (dequeued rest)),
            )
      ]
