-- ===== src/Manager/Conserve.antt =====
-- The transmit half of src/manager.cpp, `Manager::process`, loses no buffer.
use ariadne.Base.{
  ℕ, zero, suc, ◌+◌, ◌≡◌, ◌==◌, refl, arith, List, [], ◌∷◌, map, get_elem?, set, some, Option-cases,
  Bool-cases, ltb, ◌-◌, max, inl, inr,
}
use ariadne.Frame.{Frame, Packet, port}
use ariadne.AddressMap.{find}
use ariadne.ArpTable.{ArpTable, handle_frame, handle_request, handle_reply, prepare_request}
use ariadne.Netmap.{Netmap, Ring, Slot, count, count-set, count-append, ns_buf_changed, slot_bufs}
use ariadne.Manager.Transmit.{
  TxState, Item, handle_flags, ask_for_mac, ask, send, transmit_one, transmit, filled, next_ring_id,
  has_flag, recorded, sent, renewed, half_second,
}

abbrev pub ring_count : ℕ → List Ring → ℕ
ring_count b [] = 0
ring_count b (r ∷ rs) = count b (slot_bufs r.slots) + ring_count b rs

abbrev pub port_count : ℕ → List (List Ring) → ℕ
port_count b [] = 0
port_count b (rs ∷ ps) = ring_count b rs + port_count b ps

-- How often a buffer stands in a slot of a transmit ring or among the free buffers.
abbrev pub owned : ℕ → TxState → ℕ
owned b s = port_count b s.tx_rings + count b s.free_bufs

pub ring_count-set :
    (b : ℕ) (rs : List Ring) (i : ℕ) (old new : Ring)
    → get_elem? rs i ≡ some old
    → ring_count b (set rs i new) + count b (slot_bufs old.slots)
      ≡ ring_count b rs + count b (slot_bufs new.slots)
ring_count-set b [] i old new h = cc
ring_count-set b (r ∷ rs) zero old new h = ground arith
ring_count-set b (r ∷ rs) (suc i) old new h = omega (arith, ring_count-set b rs i old new h)

pub port_count-set :
    (b : ℕ) (ps : List (List Ring)) (i : ℕ) (old new : List Ring)
    → get_elem? ps i ≡ some old
    → port_count b (set ps i new) + ring_count b old ≡ port_count b ps + ring_count b new
port_count-set b [] i old new h = cc
port_count-set b (r ∷ ps) zero old new h = ground arith
port_count-set b (r ∷ ps) (suc i) old new h = omega (arith, port_count-set b ps i old new h)

-- The ARP table leaves the frame in its buffer.
handle_frame-buf_ptr :
    (t t' : ArpTable) (f f' : Frame) (p p' : Packet)
    → handle_frame t (f, p) ≡ some (t', (f', p'))
    → f'.buf_ptr ≡ f.buf_ptr
unfolding handle_frame handle_request handle_reply
handle_frame-buf_ptr t t' f f' p p' h = ground arith

prepare_request-buf_ptr :
    (t : ArpTable) (ip iface : ℕ) (f f' : Frame) (p p' : Packet)
    → prepare_request t ip iface (f, p) ≡ some (f', p')
    → f'.buf_ptr ≡ f.buf_ptr
unfolding prepare_request
prepare_request-buf_ptr t ip iface f f' p p' h = ground arith

ask-same :
    (s s' : TxState) (f f' : Frame) (ip : ℕ)
    → ask s f ip ≡ some (s', f')
    → (f'.buf_ptr ≡ f.buf_ptr) × (s'.tx_rings ≡ s.tx_rings) × (s'.free_bufs ≡ s.free_bufs)
unfolding ask
ask-same s s' f f' ip h =
    elim (Option-cases (prepare_request s.arp_table ip (port f) (f, s.memory f.buf_ptr))) [
      | inl e ↦ absurd (ground arith)
      | inr ((g, p), e) ↦
          ground (arith, e, prepare_request-buf_ptr s.arp_table ip (port f) f g _ p e)
    ]

-- The handling of the flags changes no ring, no free buffer, and not the buffer of the frame.
abbrev Same : TxState → Frame → TxState → Frame → Type 0
Same s f s' f' =
    (f'.buf_ptr ≡ f.buf_ptr) × (s'.tx_rings ≡ s.tx_rings) × (s'.free_bufs ≡ s.free_bufs)

ask_for_mac-Same :
    (s s' : TxState) (x : Item) (f' : Frame)
    → ask_for_mac s x ≡ some (s', f')
    → Same s x.frame s' f'
unfolding ask_for_mac
ask_for_mac-Same s s' x f' h =
    let f = x.frame in
    let ip = (s.memory f.buf_ptr).ipv4.d_ip in
    elim (Option-cases (find s.missing_macs ip)) [
      | inl e ↦
          let s1 = recorded s ip (port f) x.now in
          let f1 = record f { iface = port f } in
          let first : ask s1 f1 ip ≡ some (s', f') = ground (arith, e) in
          ground (arith, ask-same s1 s' f1 f' ip first)
      | inr (mr, e) ↦ elim (Bool-cases (ltb (x.now - mr.time) half_second)) [
        | inl soon ↦ ground (arith, e, soon)
        | inr late ↦
            let s1 = renewed s ip mr x.later in
            let again : ask s1 f ip ≡ some (s', f') = ground (arith, e, late) in
            ground (arith, ask-same s1 s' f f' ip again)
      ]
    ]

module _ (n : Netmap) (num_workers : ℕ) where
  handle_flags-Same :
      (s s' : TxState) (x : Item) (f' : Frame)
      → handle_flags n num_workers s x ≡ some (s', f')
      → Same s x.frame s' f'
  unfolding handle_flags
  handle_flags-Same s s' x f' h = elim (Bool-cases (has_flag 14 x.frame)) [
    | inl host ↦ ground (arith, host)
    | inr e ↦ elim (Bool-cases (has_flag 13 x.frame)) [
      | inl arp ↦
          elim (Option-cases (handle_frame s.arp_table (x.frame, s.memory x.frame.buf_ptr))) [
            | inl g ↦ absurd (ground (arith, e, arp, g))
            | inr ((t, (f1, p)), g) ↦ ground (
              arith,
              e,
              arp,
              g,
              handle_frame-buf_ptr s.arp_table t x.frame f1 (s.memory x.frame.buf_ptr) p g,
            )
          ]
      | inr e' ↦ elim (Bool-cases (has_flag 12 x.frame)) [
        | inl nomac ↦ ask_for_mac-Same s s' x f' (ground (arith, e, e', nomac))
        | inr e'' ↦ ground (arith, e, e', e'')
      ]
    ]
  ]

  sent-owned :
      (b : ℕ) (s : TxState) (f : Frame) (rings : List Ring) (ring : Ring) (slot : Slot)
      → get_elem? s.tx_rings (port f) ≡ some rings
      → get_elem? rings (next_ring_id n num_workers s) ≡ some ring
      → get_elem? ring.slots ring.head ≡ some slot
      → owned b (sent n num_workers s f rings ring slot)
        ≡ owned b s + count b (n.buf_idx f.buf_ptr ∷ [])
  sent-owned b s f rings ring slot e e' e'' =
      let ring' = filled n num_workers ring slot f in
      omega (
        arith,
        port_count-set b s.tx_rings (port f) rings (set rings (next_ring_id n num_workers s) ring')
            e,
        ring_count-set b rings (next_ring_id n num_workers s) ring ring' e',
        count-set b ring.slots ring.head slot
            (record { buf_idx = n.buf_idx f.buf_ptr; len = max f.len 60; flags = ns_buf_changed })
            e'',
        count-append b (slot.buf_idx ∷ []) s.free_bufs,
      )

  send-owned :
      (b : ℕ) (s s' : TxState) (f : Frame)
      → send n num_workers s f ≡ some s'
      → owned b s' ≡ owned b s + count b (n.buf_idx f.buf_ptr ∷ [])
  unfolding send
  send-owned b s s' f h = elim (Option-cases (get_elem? s.tx_rings (port f))) [
    | inl e ↦ absurd (ground (arith, e))
    | inr (rings, e) ↦ elim (Option-cases (get_elem? rings (next_ring_id n num_workers s))) [
      | inl e' ↦ absurd (ground (arith, e, e'))
      | inr (ring, e') ↦ elim (Bool-cases (n.ring_space ring == 0)) [
        | inl full ↦
            let r : owned b s'
                ≡ port_count b s.tx_rings + count b (n.buf_idx f.buf_ptr ∷ s.free_bufs) =
              ground (arith, e, e', full) in
            omega (arith, r, count-append b (n.buf_idx f.buf_ptr ∷ []) s.free_bufs)
        | inr room ↦ elim (Option-cases (get_elem? ring.slots ring.head)) [
          | inl e'' ↦ absurd (ground (arith, e, e', room, e''))
          | inr (slot, e'') ↦
              let r : sent n num_workers s f rings ring slot ≡ s' =
                ground (arith, e, e', room, e'') in
              rw (← r) (sent-owned b s f rings ring slot e e' e'')
        ]
      ]
    ]
  ]

  pub transmit_one-owned :
      (b : ℕ) (s s' : TxState) (x : Item)
      → transmit_one n num_workers s x ≡ some s'
      → owned b s' ≡ owned b s + count b (n.buf_idx x.frame.buf_ptr ∷ [])
  unfolding transmit_one
  transmit_one-owned b s s' x h = elim (Option-cases (handle_flags n num_workers s x)) [
    | inl e ↦ absurd (ground (arith, e))
    | inr ((s1, f), e) ↦
        let (buf, rings, free) = handle_flags-Same s s1 x f e in
        let same : owned b s1 ≡ owned b s = rw (rings, free) refl in
        elim (Bool-cases (has_flag 15 f)) [
          | inl discard ↦
              let r : owned b s'
                  ≡ port_count b s1.tx_rings + count b (n.buf_idx f.buf_ptr ∷ s1.free_bufs) =
                ground (arith, e, discard) in
              rw (← buf) omega
                (arith, r, same, count-append b (n.buf_idx f.buf_ptr ∷ []) s1.free_bufs)
          | inr keep ↦
              let r : send n num_workers s1 f ≡ some s' = ground (arith, e, keep) in
              rw (← buf) omega (arith, same, send-owned b s1 s' f r)
        ]
  ]

  -- A batch that is handled to its end gains exactly the buffers of the frames that it dequeues:
  -- every one of them, sent, answered, held back or dropped, ends in a slot of a transmit ring
  -- or among the free buffers, once, and no buffer that was there before gets lost.
  pub transmit_conserves :
      (b : ℕ) (s s' : TxState) (xs : List Item)
      → transmit n num_workers s xs ≡ some s'
      → owned b s' ≡ owned b s + count b (map (λ x. n.buf_idx x.frame.buf_ptr) xs)
  unfolding transmit count
  transmit_conserves b s s' [] h = ground arith
  transmit_conserves b s s' (x ∷ xs) h = elim (Option-cases (transmit_one n num_workers s x)) [
    | inl e ↦ absurd (ground (arith, e))
    | inr (s1, e) ↦
        omega
          (arith, transmit_one-owned b s s1 x e, transmit_conserves b s1 s' xs (ground (arith, e)))
  ]
