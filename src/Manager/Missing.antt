-- ===== src/Manager/Missing.antt =====
-- The branch of `IFACE_NOMAC` in src/manager.cpp, `Manager::process`: one ARP request per address
-- and half second.
use ariadne.Base.{
  ℕ, ◌+◌, ◌-◌, ◌<◌, ◌≡◌, ◌≢◌, refl, ap, ◌∙◌, ==_refl, arith, bit_or, bit_or-IsSet, some, none,
  Option-cases, Bool-cases, inl, inr, true, false,
}
use ariadne.Util.{u32}
use ariadne.AddressMap.{find, find-assign}
use ariadne.Frame.{Frame, port, iface_discard}
use ariadne.Netmap.{Netmap}
use ariadne.Manager.Transmit.{
  TxState, MacRequest, Item, handle_flags, send, ask_for_mac, ask, recorded, has_flag, transmit_one,
  reclaim, half_second,
}

-- The address that a frame waits for.
abbrev pub wanted : TxState → Frame → ℕ
wanted s f = (s.memory f.buf_ptr).ipv4.d_ip

-- A frame that a worker has marked `IFACE_NOMAC`, and nothing before it in the dispatch.
pub record IsWaiting (f : Frame) : Type 0 where
  pub no_host : has_flag 14 f ≡ false
  pub no_arp : has_flag 13 f ≡ false
  pub waits : has_flag 12 f ≡ true

abbrev pub held : Frame → Frame
held f = record f { iface = bit_or f.iface iface_discard }

held-IsDiscarded : (f : Frame) → has_flag 15 (held f) ≡ true
held-IsDiscarded f = ground (arith, bit_or-IsSet 15 f.iface)

-- The state after a frame that has to wait: the frame is counted and its buffer is free again.
abbrev pub held_back : Netmap → ℕ → TxState → Frame → TxState
held_back n num_workers s f =
    reclaim n num_workers (record s { num_dropped_no_mac = u32 (s.num_dropped_no_mac + 1) })
      (held f)

ask-missing :
    (s s' : TxState) (f f' : Frame) (ip : ℕ)
    → ask s f ip ≡ some (s', f')
    → s'.missing_macs ≡ s.missing_macs
unfolding ask
ask-missing s s' f f' ip h = ground arith

module _ (n : Netmap) (num_workers : ℕ) where
  send-missing :
      (s s' : TxState) (f : Frame)
      → send n num_workers s f ≡ some s'
      → s'.missing_macs ≡ s.missing_macs
  unfolding send
  send-missing s s' f h = ground arith

  waits :
      (s : TxState) (x : Item)
      → IsWaiting x.frame
      → handle_flags n num_workers s x ≡ ask_for_mac s x
  unfolding handle_flags
  waits s x w = ground (arith, w.no_host, w.no_arp, w.waits)

  faults :
      (s : TxState) (x : Item)
      → handle_flags n num_workers s x ≡ none
      → (s' : TxState) → transmit_one n num_workers s x ≢ some s'
  unfolding transmit_one
  faults s x e s' h = ground (arith, e)

  -- A frame whose request is less than half a second old.
  soon-held_back :
      (s : TxState) (y : Item) (mr : MacRequest)
      → IsWaiting y.frame
      → find s.missing_macs (wanted s y.frame) ≡ some mr
      → y.now - mr.time < half_second
      → transmit_one n num_workers s y ≡ some (held_back n num_workers s y.frame)
  unfolding transmit_one ask_for_mac
  soon-held_back s y mr w known recent =
      let e : ask_for_mac s y
          ≡ some (record s { num_dropped_no_mac = u32 (s.num_dropped_no_mac + 1) }, held y.frame) =
        rw (known, ask_for_mac) (ground (arith, recent)) in
      ground (arith, waits s y w, e, held-IsDiscarded y.frame)

  after-missing :
      (s s2 s' : TxState) (x : Item) (f2 : Frame)
      → handle_flags n num_workers s x ≡ some (s2, f2)
      → transmit_one n num_workers s x ≡ some s'
      → s'.missing_macs ≡ s2.missing_macs
  unfolding transmit_one
  after-missing s s2 s' x f2 e h = elim (Bool-cases (has_flag 15 f2)) [
    | inl discard ↦ ground (arith, e, discard)
    | inr keep ↦ send-missing s2 s' f2 (ground (arith, e, keep))
  ]

  -- The first frame for an address leaves the time of its request.
  first-recorded :
      (s s' : TxState) (x : Item)
      → IsWaiting x.frame
      → find s.missing_macs (wanted s x.frame) ≡ none
      → transmit_one n num_workers s x ≡ some s'
      → find s'.missing_macs (wanted s x.frame)
        ≡ some (record { ip = wanted s x.frame; iface = port x.frame; time = x.now })
  unfolding ask_for_mac
  first-recorded s s' x w unknown h =
      let ip = wanted s x.frame in
      let s1 = recorded s ip (port x.frame) x.now in
      let f1 = record x.frame { iface = port x.frame } in
      let e : handle_flags n num_workers s x ≡ ask s1 f1 ip =
        waits s x w ∙ rw (unknown, ask_for_mac) refl in
      elim (Option-cases (ask s1 f1 ip)) [
        | inl a ↦ absurd (faults s x (e ∙ a) s' h)
        | inr ((s2, f2), a) ↦
            rw
              (
                after-missing s s2 s' x f2 (e ∙ a) h,
                ask-missing s1 s2 f1 f2 ip a,
                find-assign ip ip (record { ip = ip; iface = port x.frame; time = x.now })
                    s.missing_macs,
                ==_refl ip,
              )
              refl
      ]

  -- When the first waiting frame for an address has been handled, and its request recorded, the
  -- next waiting frame for that address, less than half a second later, is dropped, counted, and its
  -- buffer reclaimed; no packet, ring or ARP state changes.
  pub asked_once :
      (s s' : TxState) (x y : Item)
      → IsWaiting x.frame
      → find s.missing_macs (wanted s x.frame) ≡ none
      → transmit_one n num_workers s x ≡ some s'
      → IsWaiting y.frame
      → wanted s' y.frame ≡ wanted s x.frame
      → y.now - x.now < half_second
      → transmit_one n num_workers s' y ≡ some (held_back n num_workers s' y.frame)
  asked_once s s' x y wx unknown h wy same recent =
      soon-held_back s' y (record { ip = wanted s x.frame; iface = port x.frame; time = x.now }) wy
        (ap (find s'.missing_macs) same ∙ first-recorded s s' x wx unknown h) recent
