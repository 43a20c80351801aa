-- ===== src/Manager/Transmit.antt =====
-- src/manager.cpp, `Manager::process`, second half: the frames that the workers are done with are
-- sent, answered, held back for an ARP request, or dropped. `none` is an access beyond the end of
-- a vector or of a ring, or an `abort` of the ARP table.
use ariadne.Base.{
  ℕ, ◌+◌, ◌-◌, ◌*◌, ◌^◌, ◌==◌, ltb, max, if◌then◌else◌, bit_and, bit_or, Bool, true, false, List,
  [], ◌∷◌, get_elem?, set, Option, some, none,
}
use ariadne.Util.{u32}
use ariadne.AddressMap.{AddressMap, find, assign}
use ariadne.Frame.{Frame, Memory, store, port, iface_discard}
use ariadne.ArpTable.{ArpTable, handle_frame, prepare_request}
use ariadne.Netmap.{Netmap, Ring, Slot, ns_buf_changed}

-- Times of the steady clock, in nanoseconds.
pub record MacRequest : Type 0 where
  pub ip : ℕ
  pub iface : ℕ
  pub time : ℕ

abbrev pub half_second : ℕ
half_second = 500_000_000

-- The members that the loop changes, and its local `ringid`. The last element of the vector
-- `freeBufs` is the head of the list.
pub record TxState : Type 0 where
  pub tx_rings : List (List Ring)
  pub free_bufs : List ℕ
  pub arp_table : ArpTable
  pub missing_macs : AddressMap MacRequest
  pub memory : Memory
  pub ring_id : ℕ
  pub num_dropped : ℕ
  pub num_dropped_ring_space : ℕ
  pub num_dropped_no_mac : ℕ
  pub num_transmitted : ℕ

-- A dequeued frame, with the two readings of the clock that its handling makes.
pub record Item : Type 0 where
  pub frame : Frame
  pub now : ℕ
  pub later : ℕ

-- `frame.iface & flag` as a condition, for the flags of one bit, `flag` = 2 ^ k.
abbrev pub has_flag : ℕ → Frame → Bool
has_flag k f = if bit_and f.iface (1 * 2 ^ k) == 0 then false else true

-- A request for the destination of the packet, which replaces the packet in its buffer.
unfoldable pub ask : TxState → Frame → ℕ → Option (TxState × Frame)
ask s f ip = elim (prepare_request s.arp_table ip (port f) (f, s.memory f.buf_ptr)) [
  | none ↦ none
  | some (f', p) ↦ some (record s { memory = store s.memory f.buf_ptr p }, f')
]

-- The request is recorded, for the first time or again.
abbrev pub recorded : TxState → ℕ → ℕ → ℕ → TxState
recorded s ip iface time = record s {
  missing_macs = assign ip (record { ip = ip; iface = iface; time = time }) s.missing_macs;
}

abbrev pub renewed : TxState → ℕ → MacRequest → ℕ → TxState
renewed s ip mr time = record s {
  missing_macs = assign ip (record mr { time = time }) s.missing_macs;
}

-- The branch of `IFACE_NOMAC`.
unfoldable pub ask_for_mac : TxState → Item → Option (TxState × Frame)
unfolding ask
ask_for_mac s x =
    let f = x.frame in
    let ip = (s.memory f.buf_ptr).ipv4.d_ip in
    elim (find s.missing_macs ip) [
      | none ↦ ask (recorded s ip (port f) x.now) (record f { iface = port f }) ip
      | some mr ↦
          if ltb (x.now - mr.time) half_second
          then some (
            record s { num_dropped_no_mac = u32 (s.num_dropped_no_mac + 1) },
            record f { iface = bit_or f.iface iface_discard },
          )
          else ask (renewed s ip mr x.later) f ip
    ]

module _ (n : Netmap) (num_workers : ℕ) where
  -- The dispatch on the flags of the frame.
  unfoldable pub handle_flags : TxState → Item → Option (TxState × Frame)
  unfolding ask_for_mac
  handle_flags s x =
      let f = x.frame in
      if has_flag 14 f
      then some (record s { ring_id = num_workers }, f)
      else (if has_flag 13 f
          then (elim (handle_frame s.arp_table (f, s.memory f.buf_ptr)) [
            | none ↦ none
            | some (arp, (f', p)) ↦
                some (record s { arp_table = arp; memory = store s.memory f.buf_ptr p }, f')
          ])
          else (if has_flag 12 f then ask_for_mac s x else some (s, f)))

  -- The slot at the head takes the frame's buffer, and its old one becomes free.
  abbrev pub filled : Ring → Slot → Frame → Ring
  filled ring slot f =
      let next = n.ring_next ring ring.head in
      record ring {
        slots =
            set ring.slots ring.head (record {
              buf_idx = n.buf_idx f.buf_ptr;
              len = max f.len 60;
              flags = ns_buf_changed;
            });
        head = next;
        cur = next;
      }

  abbrev pub next_ring_id : TxState → ℕ
  next_ring_id s = let id = u32 (s.ring_id + 1) in if id == num_workers then 0 else id

  abbrev pub sent : TxState → Frame → List Ring → Ring → Slot → TxState
  sent s f rings ring slot = record s {
    ring_id = next_ring_id s;
    free_bufs = slot.buf_idx ∷ s.free_bufs;
    tx_rings = set s.tx_rings (port f) (set rings (next_ring_id s) (filled ring slot f));
    num_transmitted = u32 (s.num_transmitted + 1);
  }

  -- No room in the ring.
  abbrev pub dropped : TxState → Frame → TxState
  dropped s f = record s {
    ring_id = next_ring_id s;
    free_bufs = n.buf_idx f.buf_ptr ∷ s.free_bufs;
    num_dropped_ring_space = u32 (s.num_dropped_ring_space + 1);
  }

  -- The end of the loop's body, for a frame that is not discarded.
  unfoldable pub send : TxState → Frame → Option TxState
  send s f = elim (get_elem? s.tx_rings (port f)) [
    | none ↦ none
    | some rings ↦ elim (get_elem? rings (next_ring_id s)) [
      | none ↦ none
      | some ring ↦
          if n.ring_space ring == 0
          then some (dropped s f)
          else (elim (get_elem? ring.slots ring.head) [
            | none ↦ none
            | some slot ↦ some (sent s f rings ring slot)
          ])
    ]
  ]

  abbrev pub reclaim : TxState → Frame → TxState
  reclaim s f = record s {
    num_dropped = u32 (s.num_dropped + 1);
    free_bufs = n.buf_idx f.buf_ptr ∷ s.free_bufs;
  }

  -- The body of the loop.
  unfoldable pub transmit_one : TxState → Item → Option TxState
  unfolding handle_flags send
  transmit_one s x = elim (handle_flags s x) [
    | none ↦ none
    | some (s', f) ↦ if has_flag 15 f then some (reclaim s' f) else send s' f
  ]

  -- `while(outRings[0]->try_dequeue(frame))`, over the frames that it yields.
  unfoldable pub transmit : TxState → List Item → Option TxState
  transmit s [] = some s
  transmit s (x ∷ xs) = elim (transmit_one s x) [ none ↦ none | some s' ↦ transmit s' xs ]
