-- ===== src/Manager/ReceiveLaws.antt =====
-- The receive half of src/manager.cpp, `Manager::process`, ends and loses no buffer.
use ariadne.Base.{
  ℕ, zero, suc, ◌+◌, ◌<◌, ◌≤◌, ◌≡◌, ◌==◌, Bool, true, false, List, [], ◌∷◌, map, length, get_or,
  set, some, refl, arith, length-set, get_elem?-eq-get_or, Bool-cases, inl, inr, ap, sym, ◌∙◌,
}
use mathlib.Core.List.{map-append}
use ariadne.Frame.{Frame}
use ariadne.Netmap.{
  Netmap, NetmapLaws, Ring, Slot, ns_buf_changed, count, count-append, count-set, slot_bufs,
}
use ariadne.Manager.Receive.{RxState, done, take_slots, num_frames, after_bulk, receive}

module _ (n : Netmap) (laws : NetmapLaws n) where
  -- The buffers of frames.
  abbrev pub frame_bufs : List Frame → List ℕ
  frame_bufs = map (λ f. n.buf_idx f.buf_ptr)

  -- How often a buffer is owned: by a slot, as a free buffer, or by a frame in the queue.
  abbrev pub owned : ℕ → RxState → ℕ
  owned b s = count b (slot_bufs s.ring.slots) + count b s.free_bufs + count b (frame_bufs s.queue)

  module _ (fits : List Frame → List Frame → Bool) (iface : ℕ) where
    -- One bulk: as many frames as asked for, and every buffer is still there.
    pub record Takes (k : ℕ) (ring : Ring) (free : List ℕ) (fs : List Frame) (ring' : Ring)
        (free' : List ℕ) : Type 0 where
      pub runs : take_slots n fits iface k ring free ≡ some (fs, ring', free')
      pub width : length ring'.slots ≡ length ring.slots
      pub head : ring'.head < length ring'.slots
      pub frames : length fs ≡ k
      pub fewer : length free' + k ≡ length free
      pub conserves :
          (b : ℕ)
          → count b (slot_bufs ring'.slots) + count b free' + count b (frame_bufs fs)
            ≡ count b (slot_bufs ring.slots) + count b free

    take_slots-Takes :
        (k : ℕ) (ring : Ring) (free : List ℕ)
        → k ≤ length free
        → ring.head < length ring.slots
        → (fs : List Frame) × (ring' : Ring) × (free' : List ℕ) × Takes k ring free fs ring' free'
    unfolding take_slots count
    take_slots-Takes zero ring free h v = (
      [],
      ring,
      free,
      record {
        runs = refl;
        width = refl;
        head = v;
        frames = refl;
        fewer = omega arith;
        conserves = λ b. omega arith;
      },
    )
    take_slots-Takes (suc k) ring [] h v = absurd (omega arith)
    take_slots-Takes (suc k) ring (x ∷ free) h v =
        let slot = get_or ring.slots ring.head (record { buf_idx = 0; len = 0; flags = 0 }) in
        let at_head =
          get_elem?-eq-get_or ring.slots ring.head (record { buf_idx = 0; len = 0; flags = 0 }) v in
        let filled : Slot = record slot { buf_idx = x; flags = ns_buf_changed } in
        let same = length-set ring.slots ring.head filled in
        let next = n.ring_next ring ring.head in
        let ring1 : Ring = record ring {
          slots = set ring.slots ring.head filled;
          head = next;
          cur = next;
        } in
        let (fs, ring', free', t) =
          take_slots-Takes k ring1 free (omega arith)
            (omega (arith, same, laws.next_in_ring ring ring.head v)) in
        (
          record { buf_ptr = n.buf slot.buf_idx; len = slot.len; iface = iface; vlan = 0 } ∷ fs,
          ring',
          free',
          record {
            runs = ground (arith, at_head, t.runs);
            width = t.width ∙ same;
            head = t.head;
            frames = ap suc t.frames;
            fewer = omega (arith, t.fewer);
            conserves = λ b. ground (
              arith,
              t.conserves b,
              count-set b ring.slots ring.head slot filled at_head,
              laws.buf_idx-buf slot.buf_idx,
            );
          },
        )

    receive_step :
        (fuel : ℕ) (s : RxState) (fs : List Frame) (ring : Ring) (free : List ℕ)
        → (num_frames n fits iface s == 0) ≡ false
        → take_slots n fits iface (num_frames n fits iface s) s.ring s.free_bufs
          ≡ some (fs, ring, free)
        → receive n fits iface (suc fuel) s
          ≡ receive n fits iface fuel (after_bulk n fits iface s fs ring free)
    unfolding receive
    receive_step fuel s fs ring free e t = rw (e, receive) (rw (t, receive))

    receive_stop :
        (fuel : ℕ) (s : RxState)
        → (num_frames n fits iface s == 0) ≡ true
        → receive n fits iface (suc fuel) s ≡ done s
    unfolding receive
    receive_stop fuel s e = rw (e, receive)

    -- With a head inside the ring and more fuel than free buffers the loop ends by its own test, at
    -- a state where the ring is empty or no buffer is free; nothing is read or written out of range,
    -- and the ring keeps its size and has its head inside.
    pub receive_ends :
        (fuel : ℕ) (s : RxState)
        → length s.free_bufs < fuel
        → s.ring.head < length s.ring.slots
        → (s' : RxState) × (receive n fits iface fuel s ≡ done s')
          × (num_frames n fits iface s' ≡ 0)
          × (length s'.ring.slots ≡ length s.ring.slots)
          × (s'.ring.head < length s'.ring.slots)
    receive_ends zero s h v = absurd (omega arith)
    receive_ends (suc fuel) s h v =
        let k = num_frames n fits iface s in
        elim (Bool-cases (k == 0)) [
          | inl e ↦ (s, receive_stop fuel s e, ground arith, refl, v)
          | inr e ↦
              let (fs, ring, free, t) = take_slots-Takes k s.ring s.free_bufs (omega arith) v in
              let less : length free < fuel = ground (arith, t.fewer) in
              let (s', r, z, width, inside) =
                receive_ends fuel (after_bulk n fits iface s fs ring free) less t.head in
              (s', receive_step fuel s fs ring free e t.runs ∙ r, z, width ∙ t.width, inside)
        ]

    bulk_owned :
        (b : ℕ) (s : RxState) (fs : List Frame) (ring : Ring) (free : List ℕ)
        → fits s.queue fs ≡ true
        → count b (slot_bufs ring.slots) + count b free + count b (frame_bufs fs)
          ≡ count b (slot_bufs s.ring.slots) + count b s.free_bufs
        → owned b (after_bulk n fits iface s fs ring free) ≡ owned b s
    bulk_owned b s fs ring free room e =
        rw
          (
            room,
            map-append (λ (f : Frame). n.buf_idx f.buf_ptr),
            count-append b (frame_bufs s.queue),
          )
          (omega arith)

    -- If the head is inside the ring and the queue has room for every bulk, a loop that ends by its
    -- own test leaves each buffer owned as often as before: by a slot, as a free buffer, or by a
    -- frame in the queue.
    pub receive_conserves :
        ((q fs : List Frame) → fits q fs ≡ true)
        → (fuel : ℕ) (s s' : RxState) (b : ℕ) → s.ring.head < length s.ring.slots
        → receive n fits iface fuel s ≡ done s'
        → owned b s' ≡ owned b s
    unfolding receive
    receive_conserves room zero s s' b v h = cc
    receive_conserves room (suc fuel) s s' b v h =
        let k = num_frames n fits iface s in
        elim (Bool-cases (k == 0)) [
          | inl e ↦
              let same : s ≡ s' = ground (arith, receive_stop fuel s e) in ap (owned b) (sym same)
          | inr e ↦
              let (fs, ring, free, t) = take_slots-Takes k s.ring s.free_bufs (omega arith) v in
              receive_conserves room fuel (after_bulk n fits iface s fs ring free) s' b t.head
                (sym (receive_step fuel s fs ring free e t.runs) ∙ h)
              ∙ bulk_owned b s fs ring free (room s.queue fs) (t.conserves b)
        ]
