-- ===== src/Manager/Rings.antt =====
-- The choice of the transmit ring in src/manager.cpp, `Manager::process`.
use ariadne.Base.{
  ℕ, ◌+◌, ◌^◌, ◌<◌, ◌≡◌, ◌==◌, refl, sym, ◌∙◌, arith, List, [], ◌∷◌, length, get_elem?, get_or, set,
  some, none, Option-cases, Bool-cases, inl, inr, true, false, All, All-get, subst, All-set,
  get_elem?-eq-get_or, get_elem?-ge, length-set,
}
use ariadne.Frame.{Frame, port}
use ariadne.Netmap.{Netmap, NetmapLaws, Ring, Slot}
use ariadne.Manager.Transmit.{
  TxState, Item, handle_flags, send, sent, dropped, transmit_one, transmit, filled, next_ring_id,
  has_flag, reclaim,
}

module _ (n : Netmap) (num_workers : ℕ) where
  -- The rings of one port: one for each worker and the host ring, each with its head inside.
  abbrev pub IsReadyPort : List Ring → Type 0
  IsReadyPort rings = (length rings ≡ num_workers + 1) × All (λ r. r.head < length r.slots) rings

  -- What `initNetmap` and the start of `process` establish.
  pub record IsReady (s : TxState) : Type 0 where
    pub ports : All IsReadyPort s.tx_rings
    pub in_turn : s.ring_id < num_workers
    pub narrow : num_workers + 1 < 2 ^ 32

  -- A frame that a worker has routed to a port that exists.
  pub record IsForwarded (ports : ℕ) (f : Frame) : Type 0 where
    pub no_host : has_flag 14 f ≡ false
    pub no_arp : has_flag 13 f ≡ false
    pub no_request : has_flag 12 f ≡ false
    pub bound : port f < ports

  next_ring_id-IsTurn : (s : TxState) → IsReady s → next_ring_id n num_workers s < num_workers
  next_ring_id-IsTurn s ok = let in_turn = ok.in_turn in let narrow = ok.narrow in ground arith

  abbrev no_ring : Ring
  no_ring = record { slots = []; head = 0; cur = 0; tail = 0 }

  -- A step that `send` makes keeps the rings ready.
  sent-IsReady :
      NetmapLaws n
      → (s : TxState) (f : Frame) (rings : List Ring) (ring : Ring) (slot : Slot) → IsReady s
      → IsReadyPort rings
      → ring.head < length ring.slots
      → IsReady (sent n num_workers s f rings ring slot)
  sent-IsReady laws s f rings ring slot ok port_ok h =
      let ring' = filled n num_workers ring slot f in
      let id = next_ring_id n num_workers s in
      let inside : ring'.head < length ring'.slots =
        rw (length-set) (laws.next_in_ring ring ring.head h) in
      record {
        ports = All-set IsReadyPort s.tx_rings (port f) (set rings id ring') ok.ports (
          length-set rings id ring' ∙ port_ok.0,
          All-set (λ r. r.head < length r.slots) rings id ring' port_ok.1 inside,
        );
        in_turn = next_ring_id-IsTurn s ok;
        narrow = ok.narrow;
      }

  -- What a step for a forwarded frame gives: the next state, ready for the next frame.
  abbrev Goes : TxState → Item → Type 0
  Goes s x =
      (s' : TxState) × (transmit_one n num_workers s x ≡ some s')
      × IsReady s'
      × (length s'.tx_rings ≡ length s.tx_rings)

  module _ (s : TxState) (f : Frame) (rings : List Ring) (ring : Ring) where
    send_full :
        get_elem? s.tx_rings (port f) ≡ some rings
        → get_elem? rings (next_ring_id n num_workers s) ≡ some ring
        → (n.ring_space ring == 0) ≡ true
        → send n num_workers s f ≡ some (dropped n num_workers s f)
    unfolding send
    send_full e e' full = rw (e, send) (rw (e', send) (rw (full, send)))

    send_room :
        (slot : Slot)
        → get_elem? s.tx_rings (port f) ≡ some rings
        → get_elem? rings (next_ring_id n num_workers s) ≡ some ring
        → (n.ring_space ring == 0) ≡ false
        → get_elem? ring.slots ring.head ≡ some slot
        → send n num_workers s f ≡ some (sent n num_workers s f rings ring slot)
    unfolding send
    send_room slot e e' room e'' = rw (e, send) (rw (e', send) (rw (room, send) (rw (e'', send))))

  send-Goes :
      NetmapLaws n
      → (s : TxState) (f : Frame) → IsReady s
      → port f < length s.tx_rings
      → (s' : TxState) × (send n num_workers s f ≡ some s')
        × IsReady s'
        × (length s'.tx_rings ≡ length s.tx_rings)
  send-Goes laws s f ok bound =
      let id = next_ring_id n num_workers s in
      let rings = get_or s.tx_rings (port f) [] in
      let e = get_elem?-eq-get_or s.tx_rings (port f) [] bound in
      let port_ok = All-get IsReadyPort s.tx_rings (port f) rings ok.ports e in
      let ring = get_or rings id no_ring in
      let e' =
        get_elem?-eq-get_or rings id no_ring (omega (arith, port_ok.0, next_ring_id-IsTurn s ok)) in
      let h = All-get (λ r. r.head < length r.slots) rings id ring port_ok.1 e' in
      let slot = get_or ring.slots ring.head (record { buf_idx = 0; len = 0; flags = 0 }) in
      let e'' =
        get_elem?-eq-get_or ring.slots ring.head (record { buf_idx = 0; len = 0; flags = 0 }) h in
      elim (Bool-cases (n.ring_space ring == 0)) [
        | inl full ↦ (
          dropped n num_workers s f,
          send_full s f rings ring e e' full,
          record { ports = ok.ports; in_turn = next_ring_id-IsTurn s ok; narrow = ok.narrow },
          refl,
        )
        | inr room ↦ (
          sent n num_workers s f rings ring slot,
          send_room s f rings ring slot e e' room e'',
          sent-IsReady laws s f rings ring slot ok port_ok h,
          length-set s.tx_rings (port f) (set rings id (filled n num_workers ring slot f)),
        )
      ]

  transmit_one-Goes :
      NetmapLaws n
      → (s : TxState) (x : Item) → IsReady s
      → IsForwarded (length s.tx_rings) x.frame
      → Goes s x
  unfolding transmit_one handle_flags
  transmit_one-Goes laws s x ok fwd =
      let f = x.frame in
      let same : handle_flags n num_workers s x ≡ some (s, f) =
        ground (arith, fwd.no_host, fwd.no_arp, fwd.no_request) in
      elim (Bool-cases (has_flag 15 f)) [
        | inl discard ↦ (
          reclaim n num_workers s f,
          ground (arith, same, discard),
          record { ports = ok.ports; in_turn = ok.in_turn; narrow = ok.narrow },
          refl,
        )
        | inr keep ↦
            let (s', e, ok', len) = send-Goes laws s f ok fwd.bound in
            (s', ground (arith, same, keep, e), ok', len)
      ]

  -- A batch of frames that the workers have routed to existing ports, or discarded, is handled to
  -- its end, without an access out of range, when every port has a ring for each worker and a host
  -- ring, with its head inside, and the current ring is a worker's. The rings stay so, at as many ports.
  pub forwarded_ends :
      NetmapLaws n
      → (s : TxState) (xs : List Item) → IsReady s
      → All (λ x. IsForwarded (length s.tx_rings) x.frame) xs
      → (s' : TxState) × (transmit n num_workers s xs ≡ some s')
        × IsReady s'
        × (length s'.tx_rings ≡ length s.tx_rings)
  unfolding transmit
  forwarded_ends laws s [] ok fwd = (s, refl, ok, refl)
  forwarded_ends laws s (x ∷ xs) ok fwd =
      let (s1, e, ok1, len) = transmit_one-Goes laws s x ok fwd.0 in
      let fwd1 = subst (λ k. All (λ x. IsForwarded k x.frame) xs) (sym len) fwd.1 in
      let (s', e', ok', len') = forwarded_ends laws s1 xs ok1 fwd1 in
      (s', rw (e, transmit) e', ok', len' ∙ len)

  send_out_of_range :
      (s : TxState) (f : Frame)
      → All IsReadyPort s.tx_rings
      → num_workers < next_ring_id n num_workers s
      → send n num_workers s f ≡ none
  unfolding send
  send_out_of_range s f ports h = elim (Option-cases (get_elem? s.tx_rings (port f))) [
    | inl e ↦ ground (arith, e)
    | inr (rings, e) ↦
        let ok = All-get IsReadyPort s.tx_rings (port f) rings ports e in
        rw (e, send)
          (rw (get_elem?-ge rings (next_ring_id n num_workers s) (omega (arith, ok.0, h)), send)
            refl)
  ]

  -- When every port has a ring for each worker and a host ring, a frame for the host, not
  -- discarded, is an access beyond the end of the port's rings.
  pub host_frame_faults :
      (s : TxState) (x : Item)
      → All IsReadyPort s.tx_rings
      → num_workers + 1 < 2 ^ 32
      → has_flag 14 x.frame ≡ true
      → has_flag 15 x.frame ≡ false
      → transmit_one n num_workers s x ≡ none
  unfolding transmit_one handle_flags
  host_frame_faults s x ports narrow host keep =
      let s1 = record s { ring_id = num_workers } in
      let e : handle_flags n num_workers s x ≡ some (s1, x.frame) = ground (arith, host) in
      let past : num_workers < next_ring_id n num_workers s1 = ground arith in
      ground (arith, e, keep, send_out_of_range s1 x.frame ports past)
