-- ===== src/System/Answer.antt =====
-- From an ARP reply, which src/manager.cpp hands to src/arpTable.cpp, to the next packet for that
-- next hop in src/worker.cpp.
use ariadne.Base.{
  ℕ, ◌^◌, ◌<◌, ◌≡◌, ◌≢◌, refl, sym, ap, ◌∙◌, arith, true, false, bit_or, some, get_elem?,
  Bool-cases, inl, inr, ne→==,
}
use ariadne.Util.{ntohl, uint16_t_max}
use ariadne.Interface.{Interface, mac_eq, invalid_mac}
use ariadne.Frame.{Frame, Packet, port, iface_nomac, store}
use ariadne.Headers.{op_reply}
use ariadne.RoutingTable.{NhAbstract}
use ariadne.ArpTable.{ArpTable, NextHop, find_registered, is_valid_next_hop}
use ariadne.ArpTable.Learn.{IsArp, sender, add_hop, handle_reply_registered}
use ariadne.Netmap.{Netmap}
use ariadne.Manager.Transmit.{TxState, Item, has_flag, handle_flags, transmit_one, send, reclaim}
use ariadne.BasicTrie.{Trie}
use ariadne.BasicTrie
use ariadne.Checksum.Forward.{forward}
use ariadne.Worker.{Tables, ok, process_frame, next_hop, send_to}
use ariadne.Worker.Route.{IsTransit, transit_step}
use ariadne.Worker.Hops.{low_index}
use ariadne.Worker.Pipeline.{worker_tables, route_packet_runs}

-- A frame with a reply from the next hop `r`, whose entry in the current table is `h`.
pub record IsReply (t : ArpTable) (f : Frame) (p : Packet) (r : NhAbstract) (h : NextHop)
    : Type 0 where
  pub no_host : has_flag 14 f ≡ false
  pub arp : has_flag 13 f ≡ true
  pub reply : IsArp p op_reply
  pub registered :
      find_registered t.interfaces t.next_hop_mapping (sender p) (port f) ≡ some (some r)
  pub entry : get_elem? t.next_hops r.index ≡ some h
  pub some_port : h.netmap_interface ≢ uint16_t_max
  pub some_mac : mac_eq p.arp.s_hw_addr invalid_mac ≡ false

send-arp_table :
    (n : Netmap) (num_workers : ℕ) (s s' : TxState) (f : Frame)
    → send n num_workers s f ≡ some s'
    → s'.arp_table ≡ s.arp_table
unfolding send
send-arp_table n num_workers s s' f h = ground arith

-- The manager's state after the reply `p` in the buffer of `f` was learnt from.
abbrev pub taught : TxState → Frame → NhAbstract → NextHop → TxState
taught s f r h =
    let p = s.memory f.buf_ptr in
    record s {
      arp_table = add_hop s.arp_table (f, p) r.index h;
      memory = store s.memory f.buf_ptr p;
    }

module _ (n : Netmap) (num_workers : ℕ) (s : TxState) (x : Item) (r : NhAbstract) (h : NextHop)
    (is : IsReply s.arp_table x.frame (s.memory x.frame.buf_ptr) r h) where
  reply_handled : handle_flags n num_workers s x ≡ some (taught s x.frame r h, x.frame)
  unfolding handle_flags
  reply_handled =
      let f = x.frame in
      let e =
        (handle_reply_registered s.arp_table f (s.memory f.buf_ptr) r h is.reply is.registered
          is.entry).0 in
      ground (arith, is.no_host, is.arp, e)

  -- A reply from a next hop whose frame has no discard flag is learnt from and then sent like a
  -- forwarded frame: it goes out again on the port that it came in on.
  reply_sent_back :
      has_flag 15 x.frame ≡ false
      → transmit_one n num_workers s x ≡ send n num_workers (taught s x.frame r h) x.frame
  unfolding transmit_one
  reply_sent_back keep = rw (reply_handled, transmit_one) (rw (keep, transmit_one) refl)

  learns :
      (s' : TxState)
      → transmit_one n num_workers s x ≡ some s'
      → s'.arp_table ≡ (taught s x.frame r h).arp_table
  unfolding transmit_one
  learns s' run = elim (Bool-cases (has_flag 15 x.frame)) [
    | inl discard ↦
        let e : reclaim n num_workers (taught s x.frame r h) x.frame ≡ s' =
          ground (arith, reply_handled, discard) in
        rw (← e) refl
    | inr keep ↦
        send-arp_table n num_workers (taught s x.frame r h) s' x.frame
          (sym (reply_sent_back keep) ∙ run)
  ]

-- The look-up of a next hop with a small index is the entry of the current table.
next_hop-entry :
    (t : Tables) (index d_ip : ℕ) (nh : NextHop)
    → index < 2 ^ 15
    → get_elem? t.next_hops index ≡ some nh
    → next_hop t index d_ip ≡ ok nh
unfolding next_hop
next_hop-entry t index d_ip nh small e = rw (low_index index small, e) refl

-- What a worker makes of a transit packet whose route names the next hop `nh` by a small index.
transit_hop :
    (shifted_out : ℕ → ℕ) (t : Tables) (g : Frame) (q : Packet) (i : Interface) (index : ℕ)
    (nh : NextHop)
    → IsTransit t.interfaces g q i
    → BasicTrie.route shifted_out t.lpm (ntohl q.ipv4.d_ip) ≡ index
    → index < 2 ^ 15
    → get_elem? t.next_hops index ≡ some nh
    → process_frame shifted_out t g q ≡ send_to i nh g (record q { ipv4 = forward q.ipv4 })
transit_hop shifted_out t g q i index nh transit e small at_index =
    transit_step shifted_out t g q i transit
    ∙ route_packet_runs shifted_out t i g q nh index e (λ z. omega arith)
        (next_hop-entry t index (ntohl q.ipv4.d_ip) nh small at_index)

send_to-known :
    (i : Interface) (nh : NextHop) (g : Frame) (q : Packet)
    → mac_eq nh.mac invalid_mac ≡ false
    → nh.netmap_interface ≢ uint16_t_max
    → send_to i nh g q
      ≡ ok (record {
        frame = record g { iface = nh.netmap_interface };
        packet = record q { ether = record (q.ether) { d_mac = nh.mac; s_mac = i.mac } };
        enqueued = true;
      })
unfolding send_to is_valid_next_hop
send_to-known i nh g q m p =
    let port_known = ne→== nh.netmap_interface uint16_t_max p in ground (arith, m, port_known)

send_to-unknown :
    (i : Interface) (nh : NextHop) (g : Frame) (q : Packet)
    → mac_eq nh.mac invalid_mac ≡ true
    → nh.netmap_interface ≢ uint16_t_max
    → send_to i nh g q
      ≡ ok (record {
        frame = record g { iface = bit_or nh.netmap_interface iface_nomac };
        packet = q;
        enqueued = true;
      })
unfolding send_to is_valid_next_hop
send_to-unknown i nh g q m p =
    let port_known = ne→== nh.netmap_interface uint16_t_max p in ground (arith, m, port_known)

-- Let the manager handle, without a fault, a reply with a MAC address that is not zero from a next
-- hop that has an interface and no known MAC address. A transit packet that the trie routes to that
-- next hop, with an index below 2 ^ 15, leaves for the address of the reply if a worker processes it
-- after that; before, a worker would have marked it for an ARP request.
pub next_packet_leaves :
    (n : Netmap) (num_workers : ℕ) (shifted_out : ℕ → ℕ) (u : Trie) (s s' : TxState) (x : Item)
    (r : NhAbstract) (h : NextHop) (g : Frame) (q : Packet) (i : Interface)
    → IsReply s.arp_table x.frame (s.memory x.frame.buf_ptr) r h
    → transmit_one n num_workers s x ≡ some s'
    → IsTransit s.arp_table.interfaces g q i
    → BasicTrie.route shifted_out u (ntohl q.ipv4.d_ip) ≡ r.index
    → r.index < 2 ^ 15
    → mac_eq h.mac invalid_mac ≡ true
    → (process_frame shifted_out (worker_tables u s.arp_table) g q
        ≡ ok (record {
          frame = record g { iface = bit_or h.netmap_interface iface_nomac };
          packet = record q { ipv4 = forward q.ipv4 };
          enqueued = true;
        }))
      × (process_frame shifted_out (worker_tables u s'.arp_table) g q
          ≡ ok (record {
            frame = record g { iface = h.netmap_interface };
            packet = record q {
              ether = record (q.ether) {
                d_mac = (s.memory x.frame.buf_ptr).arp.s_hw_addr;
                s_mac = i.mac;
              };
              ipv4 = forward q.ipv4;
            };
            enqueued = true;
          }))
next_packet_leaves n num_workers shifted_out u s s' x r h g q i is run transit e small unknown =
    let f = x.frame in
    let p = s.memory f.buf_ptr in
    let fq : Packet = record q { ipv4 = forward q.ipv4 } in
    let at_index =
      (handle_reply_registered s.arp_table f p r h is.reply is.registered is.entry).1 in
    let after = add_hop s.arp_table (f, p) r.index h in
    let nh : NextHop = record h { mac = p.arp.s_hw_addr } in
    let sent =
      transit_hop shifted_out (worker_tables u after) g q i r.index nh transit e small at_index
      ∙ send_to-known i nh g fq is.some_mac is.some_port in
    (
      transit_hop shifted_out (worker_tables u s.arp_table) g q i r.index h transit e small is.entry
          ∙ send_to-unknown i h g fq unknown is.some_port,
      ap (λ t. process_frame shifted_out (worker_tables u t) g q)
            (learns n num_workers s x r h is s' run)
          ∙ sent,
    )
