-- ===== src/System/Owners.antt =====
-- Who owns the packet buffers while the manager of src/manager.cpp, the workers of src/worker.cpp
-- and the network card run.
use ariadne.Base.{
  ℕ, zero, suc, ◌+◌, ◌≤◌, ◌≡◌, refl, ap, arith, Bool, if◌then◌else◌, List, [], ◌∷◌, ◌++◌, map,
  get_elem?, set, some, Option-cases, Bool-cases, inl, inr,
}
use mathlib.Core.List.{map-append}
use ariadne.Frame.{Frame}
use ariadne.Netmap.{
  Netmap, NetmapLaws, Ring, Slot, ns_buf_changed, count, count-append, count-set, slot_bufs,
}
use ariadne.Manager.Receive.{take_slots, after_bulk, RxState}
use ariadne.Manager.ReceiveLaws.{frame_bufs}
use ariadne.Manager.Conserve.{
  ring_count, port_count, ring_count-set, port_count-set, transmit_one-owned,
}
use ariadne.Manager.Conserve
use ariadne.Manager.Process.{rx_state}
use ariadne.BasicTrie.{Trie}
use ariadne.Worker.{Processed}
use ariadne.Worker.Host.{process_frame-buf_ptr}
use ariadne.System.{
  World, Actor, Step, bulk, take, work, start, send_one, change, Reach, stay, later, bufs_of,
}

module _ (n : Netmap) (laws : NetmapLaws n) where
  -- The loop over the slots, wherever it ends, only moves buffers.
  take_slots-count :
      (fits : List Frame → List Frame → Bool) (iface b k : ℕ) (ring : Ring) (free : List ℕ)
      (fs : List Frame) (ring' : Ring) (free' : List ℕ)
      → take_slots n fits iface k ring free ≡ some (fs, ring', free')
      → count b (slot_bufs ring'.slots) + count b free' + count b (frame_bufs n laws fs)
        ≡ count b (slot_bufs ring.slots) + count b free
  unfolding take_slots count
  take_slots-count fits iface b zero ring free fs ring' free' h = ground arith
  take_slots-count fits iface b (suc k) ring [] fs ring' free' h = ground arith
  take_slots-count fits iface b (suc k) ring (x ∷ free) fs ring' free' h =
      elim (Option-cases (get_elem? ring.slots ring.head)) [
        | inl e ↦ absurd (ground (arith, e))
        | inr (slot, e) ↦
            let filled : Slot = record slot { buf_idx = x; flags = ns_buf_changed } in
            let next = n.ring_next ring ring.head in
            let ring1 : Ring = record ring {
              slots = set ring.slots ring.head filled;
              head = next;
              cur = next;
            } in
            elim (Option-cases (take_slots n fits iface k ring1 free)) [
              | inl e' ↦ absurd (ground (arith, e, e'))
              | inr ((gs, ring2, free2), e') ↦
                  let g : Frame = record {
                    buf_ptr = n.buf slot.buf_idx;
                    len = slot.len;
                    iface = iface;
                    vlan = 0;
                  } in
                  let e1 : g ∷ gs ≡ fs = ground (arith, e, e') in
                  let e2 : ring2 ≡ ring' = ground (arith, e, e') in
                  let e3 : free2 ≡ free' = ground (arith, e, e') in
                  ground (
                    arith,
                    e1,
                    e2,
                    e3,
                    take_slots-count fits iface b k ring1 free gs ring2 free2 e',
                    count-set b ring.slots ring.head slot filled e,
                    laws.buf_idx-buf slot.buf_idx,
                  )
            ]
      ]

  -- The frames of the workers' arrays.
  abbrev pub batch_count : ℕ → List (List Frame) → ℕ
  batch_count b [] = 0
  batch_count b (fs ∷ rest) = count b (frame_bufs n laws fs) + batch_count b rest

  pub batch_count-set :
      (b : ℕ) (bs : List (List Frame)) (i : ℕ) (old new : List Frame)
      → get_elem? bs i ≡ some old
      → batch_count b (set bs i new) + count b (frame_bufs n laws old)
        ≡ batch_count b bs + count b (frame_bufs n laws new)
  batch_count-set b [] i old new h = cc
  batch_count-set b (x ∷ bs) zero old new h = ground arith
  batch_count-set b (x ∷ bs) (suc i) old new h = omega (arith, batch_count-set b bs i old new h)

  pub frames_count-append :
      (b : ℕ) (fs gs : List Frame)
      → count b (frame_bufs n laws (fs ++ gs))
        ≡ count b (frame_bufs n laws fs) + count b (frame_bufs n laws gs)
  frames_count-append b fs gs =
      rw (map-append (λ (f : Frame). n.buf_idx f.buf_ptr)) (count-append b (frame_bufs n laws fs) _)

  abbrev owned_frames : ℕ → World → ℕ
  owned_frames b s =
      count b (frame_bufs n laws s.manager.queue)
      + batch_count b s.batches
      + count b (frame_bufs n laws s.out_queue)

  -- How often a buffer is owned: by a slot of a receive or a transmit ring, as a free buffer, or by
  -- a frame in a queue or in a worker's array.
  abbrev pub owned : ℕ → World → ℕ
  owned b s = port_count b s.manager.rx_rings + Conserve.owned b s.manager.tx + owned_frames b s

  ring_count-bufs_of :
      (b : ℕ) (rs qs : List Ring)
      → map (λ (r : Ring). slot_bufs r.slots) rs ≡ map (λ (r : Ring). slot_bufs r.slots) qs
      → ring_count b rs ≡ ring_count b qs
  ring_count-bufs_of b [] [] h = refl
  ring_count-bufs_of b [] (q ∷ qs) h = cc
  ring_count-bufs_of b (r ∷ rs) [] h = cc
  ring_count-bufs_of b (r ∷ rs) (q ∷ qs) h =
      ground (arith, ring_count-bufs_of b rs qs (ground arith))

  port_count-bufs_of :
      (b : ℕ) (ps qs : List (List Ring))
      → bufs_of ps ≡ bufs_of qs
      → port_count b ps ≡ port_count b qs
  port_count-bufs_of b [] [] h = refl
  port_count-bufs_of b [] (q ∷ qs) h = cc
  port_count-bufs_of b (p ∷ ps) [] h = cc
  port_count-bufs_of b (p ∷ ps) (q ∷ qs) h =
      ground
        (arith, ring_count-bufs_of b p q (ground arith), port_count-bufs_of b ps qs (ground arith))

  module _ (fits : List Frame → List Frame → Bool) (shifted_out : ℕ → ℕ) (u : Trie)
      (num_workers : ℕ) where
    after_bulk-queue :
        (b iface : ℕ) (r : RxState) (fs : List Frame) (ring : Ring) (free : List ℕ)
        → count b (frame_bufs n laws (after_bulk n fits iface r fs ring free).queue)
          ≤ count b (frame_bufs n laws r.queue) + count b (frame_bufs n laws fs)
    after_bulk-queue b iface r fs ring free = elim (Bool-cases (fits r.queue fs)) [
      | inl e ↦ rw e (omega (arith, frames_count-append b r.queue fs))
      | inr e ↦ rw e (omega arith)
    ]

    worked-out_queue :
        (b : ℕ) (out : List Frame) (f : Frame) (r : Processed) (room : Bool)
        → r.frame.buf_ptr ≡ f.buf_ptr
        → count b (
            frame_bufs n laws
              (if r.enqueued then (if room then out ++ r.frame ∷ [] else out) else out))
          ≤ count b (frame_bufs n laws out) + count b (n.buf_idx f.buf_ptr ∷ [])
    worked-out_queue b out f r room same = elim (Bool-cases r.enqueued) [
      | inr e ↦ rw e (omega arith)
      | inl e ↦ elim (Bool-cases room) [
        | inr e' ↦ rw (e, e') (omega arith)
        | inl e' ↦
            rw (e, e') (rw (← same) (omega (arith, frames_count-append b out (r.frame ∷ []))))
      ]
    ]

    Step-owned :
        (s t : World) (a : Actor) (b : ℕ)
        → Step n fits shifted_out u num_workers s a t
        → owned b t ≤ owned b s
    Step-owned s t a b (bulk iface w rings ring ring' fs free e e' some_frames h) = omega (
      arith,
      port_count-set b s.manager.rx_rings iface rings (set rings w ring') e,
      ring_count-set b rings w ring ring' e',
      take_slots-count fits iface b _ ring s.manager.tx.free_bufs fs ring' free h,
      after_bulk-queue b iface (rx_state s.manager ring) fs ring' free,
    )
    Step-owned s t a b (take i f fs rest e q size) = omega (
      arith,
      batch_count-set b s.batches i [] (f ∷ fs) e,
      ap (λ x. count b (frame_bufs n laws x)) q,
      frames_count-append b (f ∷ fs) rest,
    )
    Step-owned s t a b (work i f rest r room e h) = omega (
      arith,
      batch_count-set b s.batches i (f ∷ rest) rest e,
      worked-out_queue b s.out_queue f r room (process_frame-buf_ptr shifted_out _ f _ r h),
      frames_count-append b (f ∷ []) rest,
    )
    Step-owned s t a b start = omega arith
    Step-owned s t a b (send_one before after x tx q h) = omega (
      arith,
      transmit_one-owned n num_workers b s.manager.tx tx x h,
      ap (λ x. count b (frame_bufs n laws x)) q,
      frames_count-append b before (x.frame ∷ after),
      frames_count-append b (x.frame ∷ []) after,
      frames_count-append b before after,
    )
    Step-owned s t a b (change rx tx mem e e' dma) = omega (
      arith,
      port_count-bufs_of b rx s.manager.rx_rings e,
      port_count-bufs_of b tx s.manager.tx.tx_rings e',
    )

    -- However the manager, the workers and the network card are interleaved, from a state in which
    -- no buffer has two owners no state is reached in which one has; owners are the slots of the
    -- rings, the free buffers, and the frames in the queues and in the workers' arrays.
    pub one_owner :
        (s t : World)
        → Reach n fits shifted_out u num_workers s t
        → ((b : ℕ) → owned b s ≤ 1)
        → (b : ℕ) → owned b t ≤ 1
    one_owner s t stay h b = h b
    one_owner s t (later {t = mid} a before step) h b =
        omega (arith, one_owner s mid before h b, Step-owned mid t a b step)
