-- ===== src/System/Exclusive.antt =====
-- The packet of a frame that a worker of src/worker.cpp has in its array is the worker's alone.
use ariadne.Base.{
  ℕ, zero, suc, ◌<◌, ◌≤◌, ◌≡◌, ◌≢◌, refl, sym, ap, arith, Bool, List, [], ◌∷◌, get_elem?, set,
  subst, some, ne→==, ◌∙◌,
}
use ariadne.Frame.{Frame}
use ariadne.Netmap.{Netmap, NetmapLaws, count}
use ariadne.Manager.ReceiveLaws.{frame_bufs}
use ariadne.Manager.Transmit.{TxState, Item, transmit_one, handle_flags, ask_for_mac, ask, send}
use ariadne.Manager.Conserve.{port_count}
use ariadne.BasicTrie.{Trie}
use ariadne.System.{World, Actor, Step, bulk, take, work, start, send_one, change, Reach, later}
use ariadne.System.Owners.{owned, batch_count, one_owner, batch_count-set, frames_count-append}

-- The manager writes only the buffer of the frame that it handles.
transmit_one-memory :
    (n : Netmap) (num_workers : ℕ) (s s' : TxState) (x : Item) (ptr : ℕ)
    → transmit_one n num_workers s x ≡ some s'
    → x.frame.buf_ptr ≢ ptr
    → s'.memory ptr ≡ s.memory ptr
unfolding transmit_one handle_flags ask_for_mac ask send
transmit_one-memory n num_workers s s' x ptr h ne =
    let other = ne→== ptr x.frame.buf_ptr (λ e. ne (sym e)) in ground (arith, other)

-- The frame is in a worker's array.
pub record IsHeld (f : Frame) (batches : List (List Frame)) : Type 0 where
  pub at_worker : ℕ
  pub position : ℕ
  pub batch : List Frame
  pub has_batch : get_elem? batches at_worker ≡ some batch
  pub has_frame : get_elem? batch position ≡ some f

module _ (n : Netmap) (laws : NetmapLaws n) where
  count-frames :
      (fs : List Frame) (j : ℕ) (f : Frame)
      → get_elem? fs j ≡ some f
      → 0 < count (n.buf_idx f.buf_ptr) (frame_bufs n laws fs)
  unfolding count
  count-frames [] j f h = cc
  count-frames (g ∷ fs) zero f h = ground arith
  count-frames (g ∷ fs) (suc j) f h = omega (arith, count-frames fs j f h)

  batch_count-IsHeld :
      (bs : List (List Frame)) (i j : ℕ) (f : Frame) (batch : List Frame)
      → get_elem? bs i ≡ some batch
      → get_elem? batch j ≡ some f
      → 0 < batch_count n laws (n.buf_idx f.buf_ptr) bs
  batch_count-IsHeld [] i j f batch h h' = cc
  batch_count-IsHeld (x ∷ bs) zero j f batch h h' = ground (arith, count-frames batch j f h')
  batch_count-IsHeld (x ∷ bs) (suc i) j f batch h h' =
      omega (arith, batch_count-IsHeld bs i j f batch h h')

  count-same :
      (f g : Frame)
      → g.buf_ptr ≡ f.buf_ptr
      → count (n.buf_idx f.buf_ptr) (n.buf_idx g.buf_ptr ∷ []) ≡ 1
  unfolding count
  count-same f g e = ground (arith, e)

  module _ (fits : List Frame → List Frame → Bool) (shifted_out : ℕ → ℕ) (u : Trie)
      (num_workers : ℕ) where
    -- A step after which a frame is in a worker's array has not written its packet.
    Step-private :
        (s t : World) (a : Actor) (f : Frame)
        → Step n fits shifted_out u num_workers s a t
        → ((b : ℕ) → owned n laws b s ≤ 1)
        → IsHeld f t.batches
        → t.manager.tx.memory f.buf_ptr ≡ s.manager.tx.memory f.buf_ptr
    Step-private s t a f (bulk iface w rings ring ring' fs free e e' some_frames h) one held = refl
    Step-private s t a f (take i g fs rest e q size) one held = refl
    Step-private s t a f (work i g rest r room e h) one held =
        let b = n.buf_idx f.buf_ptr in
        let other : g.buf_ptr ≢ f.buf_ptr = λ same. omega (
          arith,
          one b,
          count-same f g same,
          batch_count-IsHeld (set s.batches i rest) held.at_worker held.position f held.batch
              held.has_batch held.has_frame,
          batch_count-set n laws b s.batches i (g ∷ rest) rest e,
          frames_count-append n laws b (g ∷ []) rest,
        ) in
        rw (ne→== f.buf_ptr g.buf_ptr (λ z. other (sym z)))
    Step-private s t a f start one held = refl
    Step-private s t a f (send_one before after x tx q h) one held =
        let b = n.buf_idx f.buf_ptr in
        transmit_one-memory n num_workers s.manager.tx tx x f.buf_ptr h (λ same. omega (
          arith,
          one b,
          count-same f x.frame same,
          batch_count-IsHeld s.batches held.at_worker held.position f held.batch held.has_batch
              held.has_frame,
          ap (λ fs. count b (frame_bufs n laws fs)) q,
          frames_count-append n laws b before (x.frame ∷ after),
          frames_count-append n laws b (x.frame ∷ []) after,
        ))
    Step-private s t a f (change rx tx mem e e' dma) one held = dma f.buf_ptr (λ b some_slot same.
        let index : n.buf_idx f.buf_ptr ≡ b = ap n.buf_idx (sym same) ∙ laws.buf_idx-buf b in
        let held_once =
          batch_count-IsHeld s.batches held.at_worker held.position f held.batch held.has_batch
            held.has_frame in
        omega (
          arith,
          one (n.buf_idx f.buf_ptr),
          subst (λ k. 0 < port_count k s.manager.rx_rings) (sym index) some_slot,
          held_once,
        ))

    -- Steps after each of which the frame `f` is in a worker's array.
    pub data Holds (f : Frame) (s : World) : World → Type 0 where
      none_yet : Holds f s s
      more :
          {t t' : World} (a : Actor)
          → Holds f s t
          → Step n fits shifted_out u num_workers t a t'
          → IsHeld f t'.batches
          → Holds f s t'

    Holds-Reach :
        (f : Frame) (s0 s t : World)
        → Reach n fits shifted_out u num_workers s0 s
        → Holds f s t
        → Reach n fits shifted_out u num_workers s0 t
    Holds-Reach f s0 s t r none_yet = r
    Holds-Reach f s0 s t r (more {t = mid} a hs step held) =
        later a (Holds-Reach f s0 s mid r hs) step

    -- Let the program start where no buffer has two owners. Then, whatever the manager, the other
    -- workers and the network card do, the packet of a frame does not change from a state on while
    -- the frame is in a worker's array: only the step that takes it out of the array writes it.
    pub private_packet :
        (f : Frame) (s0 s t : World)
        → ((b : ℕ) → owned n laws b s0 ≤ 1)
        → Reach n fits shifted_out u num_workers s0 s
        → Holds f s t
        → t.manager.tx.memory f.buf_ptr ≡ s.manager.tx.memory f.buf_ptr
    private_packet f s0 s t one r none_yet = refl
    private_packet f s0 s t one r (more {t = mid} a hs step held) =
        Step-private mid t a f step
          (one_owner n laws fits shifted_out u num_workers s0 mid (Holds-Reach f s0 s mid r hs) one)
          held
        ∙ private_packet f s0 s mid one r hs
