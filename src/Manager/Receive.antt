-- ===== src/Manager/Receive.antt =====
-- src/manager.cpp, `Manager::process`, first half: the frames of the receive rings go to the
-- workers' queue, and free buffers take their places in the slots. `none` is an access beyond
-- the end of a vector or of a ring.
use ariadne.Base.{
  ℕ, zero, suc, ◌+◌, ◌==◌, min, if◌then◌else◌, Bool, true, false, List, [], ◌∷◌, ◌++◌, length,
  get_elem?, set, Option, some, none,
}
use ariadne.Util.{u32}
use ariadne.Frame.{Frame}
use ariadne.Netmap.{Netmap, Ring, ns_buf_changed}

abbrev pub manager_bulk_size : ℕ
manager_bulk_size = 512

-- What the loop over one ring changes. The last element of the vector `freeBufs` is the head of
-- the list. `queue` is the content of `inRings[0]`.
pub record RxState : Type 0 where
  pub ring : Ring
  pub free_bufs : List ℕ
  pub queue : List Frame
  pub num_recv : ℕ

-- The result of the loop on fuel; running out of it is an outcome of its own.
pub data Rx : Type 0 where
  done : RxState → Rx
  fault : Rx
  out_of_fuel : Rx

-- Netmap, and whether `try_enqueue_bulk` finds room, by the content of the queue and the frames.
module _ (n : Netmap) (fits : List Frame → List Frame → Bool) (iface : ℕ) where
  -- The inner loop: `left` rounds are to come; the frames filled in so far go in front.
  unfoldable pub take_slots : ℕ → Ring → List ℕ → Option (List Frame × Ring × List ℕ)
  take_slots zero ring free = some ([], ring, free)
  take_slots (suc left) ring [] = none
  take_slots (suc left) ring (b ∷ free) = elim (get_elem? ring.slots ring.head) [
    | none ↦ none
    | some slot ↦
        let slots =
          set ring.slots ring.head (record slot { buf_idx = b; flags = ns_buf_changed }) in
        let next = n.ring_next ring ring.head in
        elim (take_slots left (record ring { slots = slots; head = next; cur = next }) free) [
          | none ↦ none
          | some (fs, ring', free') ↦ some (
            record { buf_ptr = n.buf slot.buf_idx; len = slot.len; iface = iface; vlan = 0 } ∷ fs,
            ring',
            free',
          )
        ]
  ]

  -- `numFrames` of one round: the space, the free buffers and the bulk size bound it.
  abbrev pub num_frames : RxState → ℕ
  num_frames s = min (min (n.ring_space s.ring) (length s.free_bufs)) manager_bulk_size

  abbrev pub after_bulk : RxState → List Frame → Ring → List ℕ → RxState
  after_bulk s fs ring free = record {
    ring = ring;
    free_bufs = free;
    queue = if fits s.queue fs then s.queue ++ fs else s.queue;
    num_recv = u32 (s.num_recv + num_frames s);
  }

  -- The loop `while(nm_ring_space(ring))`.
  unfoldable pub receive : ℕ → RxState → Rx
  receive zero s = out_of_fuel
  receive (suc fuel) s =
      let k = num_frames s in
      elim (k == 0) [
        | true ↦ done s
        | false ↦ elim (take_slots k s.ring s.free_bufs) [
          | none ↦ fault
          | some (fs, ring, free) ↦ receive fuel (after_bulk s fs ring free)
        ]
      ]
