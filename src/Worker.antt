-- ===== src/Worker.antt =====
-- include/worker.hpp and src/worker.cpp: the packet processing of one worker thread.
pub mod Route
pub mod Host
pub mod Batch
pub mod Hops
pub mod Pipeline
pub mod Thread
pub mod Lifetime
use ariadne.Base.{
  ℕ, zero, suc, ◌+◌, ◌-◌, ◌*◌, ◌^◌, ◌%◌, ◌==◌, ltb, if◌then◌else◌, bit_and, bit_or, bit_xor, Bool,
  true, false, List, [], ◌∷◌, ◌++◌, Option, some, none, get_elem?, length, ◌≡◌, refl, ◌⊎◌, inl, inr,
}
use ariadne.Util.{u16, u32, htons, ntohs, htonl, ntohl, uint16_t_max}
use ariadne.Interface.{Heap, Interface, Mac, invalid_mac, find_by_netmap, has_ip}
use ariadne.RoutingTable.{nh_invalid, nh_directly_connected}
use ariadne.Headers.{Ether, Ipv4, ihl, version}
use ariadne.AddressMap.{AddressMap, find}
use ariadne.Frame.{
  Frame, Packet, Memory, store, port, iface_nomac, iface_arp, iface_host, iface_discard,
}
use ariadne.Checksum.{ipv4_hdr_checksum}
use ariadne.Checksum.Forward.{forward}
use ariadne.ArpTable.{NextHop, is_valid_next_hop}
use ariadne.BasicTrie.{Trie}
use ariadne.BasicTrie

-- `IPv4HdrVerification`.
unfoldable pub ipv4_hdr_verification : Ipv4 → ℕ → Bool
ipv4_hdr_verification h f_len =
    if ltb f_len 20
    then false
    else (if ipv4_hdr_checksum h == h.checksum
        then (if version h == 4
            then (if ltb (ihl h) 5
                then false
                else (if ltb (ntohs h.total_length) (ihl h * 4)
                    then false
                    else (if ltb 1 h.ttl then true else false)))
            else false)
        else false)

-- Why the program ends: no interface has the frame's number; the address has no route; the next
-- hop has no interface; or `nextHops[index]` is beyond the end of the vector, which is undefined.
pub data Reason : Type 0 where
  no_interface no_route no_port out_of_range : Reason

pub data Outcome (A : Type 0) : Type 0 where
  ok : A → Outcome A
  stop : Reason → Outcome A

pub Outcome-cases :
    {A : Type 0} (o : Outcome A) → ((a : A) × (o ≡ ok a)) ⊎ ((r : Reason) × (o ≡ stop r))
Outcome-cases (ok a) = inl (a, refl)
Outcome-cases (stop r) = inr (r, refl)

-- What a worker reads: the trie, the current ARP table and the interfaces. The map of directly
-- connected hosts is the live map of the `ARPTable`.
pub record Tables : Type 0 where
  pub lpm : Trie
  pub next_hops : List NextHop
  pub directly_connected : AddressMap NextHop
  pub interfaces : Heap

-- The look-up of the next hop by its index, for the destination `d_ip` in host order.
unfoldable pub next_hop : Tables → ℕ → ℕ → Outcome NextHop
next_hop t index d_ip =
    if bit_and index (1 * 2 ^ 15) == 0
    then (elim (get_elem? t.next_hops index) [ none ↦ stop out_of_range | some nh ↦ ok nh ])
    else (elim (find t.directly_connected d_ip) [
      | some nh ↦ ok nh
      | none ↦ ok (record { mac = invalid_mac; netmap_interface = bit_xor index (1 * 2 ^ 15) })
    ])

-- A frame after its processing, its packet, and whether it is handed to the egress queue.
pub record Processed : Type 0 where
  pub frame : Frame
  pub packet : Packet
  pub enqueued : Bool

-- The end of the IPv4 branch: the next hop decides on the frame's interface and addresses.
unfoldable pub send_to : Interface → NextHop → Frame → Packet → Outcome Processed
unfolding is_valid_next_hop
send_to i nh f p =
    if is_valid_next_hop nh
    then ok (record {
      frame = record f { iface = nh.netmap_interface };
      packet = record p { ether = record (p.ether) { d_mac = nh.mac; s_mac = i.mac } };
      enqueued = true;
    })
    else (if nh.netmap_interface == uint16_t_max
        then stop no_port
        else ok (record {
          frame = record f { iface = bit_or nh.netmap_interface iface_nomac };
          packet = p;
          enqueued = true;
        }))

module _ (shifted_out : ℕ → ℕ) where
  -- The packet is for another host: `ttl--`, `checksum++`, and the route.
  unfoldable pub route_packet : Tables → Interface → Frame → Packet → Outcome Processed
  route_packet t i f p =
      let q : Packet = record p { ipv4 = forward p.ipv4 } in
      let d_ip = ntohl p.ipv4.d_ip in
      let index = BasicTrie.route shifted_out t.lpm d_ip in
      if index == nh_invalid
      then stop no_route
      else (elim (next_hop t index d_ip) [ stop r ↦ stop r | ok nh ↦ send_to i nh f q ])

  -- The body of the loop over the frames of a batch.
  unfoldable pub process_frame : Tables → Frame → Packet → Outcome Processed
  process_frame t f p = elim (find_by_netmap t.interfaces (port f)) [
    | none ↦ stop no_interface
    | some i ↦
        if p.ether.ethertype == htons 0x0800
        then (if ipv4_hdr_verification p.ipv4 f.len
            then (if has_ip p.ipv4.d_ip i.ips
                then ok (record {
                  frame = record f { iface = bit_or f.iface iface_host };
                  packet = p;
                  enqueued = false;
                })
                else route_packet t i f p)
            else ok (record {
              frame = record f { iface = iface_discard };
              packet = p;
              enqueued = false;
            }))
        else (if p.ether.ethertype == htons 0x0806
            then ok (record {
              frame = record f { iface = bit_or f.iface iface_arp };
              packet = p;
              enqueued = true;
            })
            else ok (record {
              frame = record f { iface = iface_discard };
              packet = p;
              enqueued = true;
            }))
  ]

-- The counters, which wrap at 32 bits.
pub record Stats : Type 0 where
  pub num_batches : ℕ
  pub num_frames : ℕ
  pub num_bytes : ℕ

-- `printAndClearStats`, without the printing.
abbrev pub cleared : Stats
cleared = record { num_batches = 0; num_frames = 0; num_bytes = 0 }

-- What `process` changes: the buffers, the counters, and the frames that it has handed to
-- `egressQ->try_enqueue`, in order.
pub record State : Type 0 where
  pub memory : Memory
  pub stats : Stats
  pub egress : List Frame

abbrev pub next_state : State → Frame → Processed → State
next_state s f done = record {
  memory = store s.memory f.buf_ptr done.packet;
  stats = record (s.stats) { num_bytes = u32 (s.stats.num_bytes + f.len) };
  egress = if done.enqueued then s.egress ++ done.frame ∷ [] else s.egress;
}

module _ (shifted_out : ℕ → ℕ) where
  unfoldable pub process_frames : Tables → List Frame → State → Outcome State
  process_frames t [] s = ok s
  process_frames t (f ∷ fs) s = elim (process_frame shifted_out t f (s.memory f.buf_ptr)) [
    | stop r ↦ stop r
    | ok done ↦ process_frames t fs (next_state s f done)
  ]

  -- `process`: `batches` are the results of the successive calls of `try_dequeue_bulk`; an empty
  -- one ends the loop, as does the end of the list.
  unfoldable pub process : Tables → List (List Frame) → State → Outcome State
  process t [] s = ok s
  process t ([] ∷ rest) s = ok s
  process t ((f ∷ fs) ∷ rest) s =
      elim (process_frames t (f ∷ fs) (record s {
        stats = record (s.stats) {
          num_batches = u32 (s.stats.num_batches + 1);
          num_frames = u32 (s.stats.num_frames + length (f ∷ fs));
        };
      })) [ stop r ↦ stop r | ok s' ↦ process t rest s' ]
