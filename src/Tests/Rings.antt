-- ===== src/Tests/Rings.antt =====
-- The manager's rings, with a concrete netmap: buffer `i` has the address 2048 * i, and a ring of
-- n slots hands `tail` - `head` slots (modulo n) to the program.
use ariadne.Base.{
  ℕ, ◌+◌, ◌-◌, ◌*◌, ◌/◌, ◌%◌, ◌<◌, ◌≡◌, refl, arith, Bool, true, some, none, List, [], ◌∷◌, length,
  ◌==◌, if◌then◌else◌, All,
}
use ariadne.Interface.{find_by_netmap}
use ariadne.AddressMap.{find}
use ariadne.Frame.{Frame}
use ariadne.Netmap.{Netmap, NetmapLaws, Ring, Slot, count}
use ariadne.Manager.Receive.{RxState, done, receive, num_frames, take_slots}
use ariadne.Manager.ReceiveLaws.{receive_ends, receive_conserves}
use ariadne.Manager.ReceiveLaws
use ariadne.Manager.Transmit.{
  TxState, Item, transmit, transmit_one, handle_flags, send, ask_for_mac, ask,
}
use ariadne.Manager.Conserve.{owned, transmit_conserves}
use ariadne.Manager.Rings.{IsReady, IsForwarded, forwarded_ends, host_frame_faults}
use ariadne.Manager.Missing.{IsWaiting, wanted, held_back, asked_once}
use ariadne.ArpTable.{prepare_request}
use ariadne.Tests.Data.{arp_table, ipv4_packet, ipv4_header}

abbrev pub small_netmap : Netmap
small_netmap = record {
  ring_space = λ r. (r.tail + length r.slots - r.head) % length r.slots;
  ring_next = λ r i. if i + 1 == length r.slots then 0 else i + 1;
  buf = λ i. 2048 * i;
  buf_idx = λ p. p / 2048;
}

pub small_netmap-Laws : NetmapLaws small_netmap
small_netmap-Laws = record { next_in_ring = λ r i h. ground arith; buf_idx-buf = λ i. omega arith }

abbrev pub slot : ℕ → Slot
slot b = record { buf_idx = b; len = 60; flags = 0 }

-- Two of three slots have a frame; three buffers are free.
abbrev rx_start : RxState
rx_start = record {
  ring = record { slots = slot 1 ∷ slot 2 ∷ slot 3 ∷ []; head = 2; cur = 2; tail = 1 };
  free_bufs = 10 ∷ 11 ∷ 12 ∷ [];
  queue = [];
  num_recv = 0;
}

abbrev pub has_room : List Frame → List Frame → Bool
has_room q fs = true

head_inside : rx_start.ring.head < length rx_start.ring.slots
head_inside = omega arith

receive_ends_example :
    (s' : RxState) × (receive small_netmap has_room 1 4 rx_start ≡ done s')
    × (num_frames small_netmap has_room 1 s' ≡ 0)
    × (length s'.ring.slots ≡ 3)
    × (s'.ring.head < length s'.ring.slots)
receive_ends_example =
    receive_ends small_netmap small_netmap-Laws has_room 1 4 rx_start (omega arith) head_inside

abbrev received : RxState
received = record {
  ring = record {
    slots =
        record { buf_idx = 11; len = 60; flags = 1 }
        ∷ slot 2
        ∷ record { buf_idx = 10; len = 60; flags = 1 }
        ∷ [];
    head = 1;
    cur = 1;
    tail = 1;
  };
  free_bufs = 12 ∷ [];
  queue =
      record { buf_ptr = 6144; len = 60; iface = 1; vlan = 0 }
      ∷ record { buf_ptr = 2048; len = 60; iface = 1; vlan = 0 }
      ∷ [];
  num_recv = 2;
}

receives : receive small_netmap has_room 1 4 rx_start ≡ done received
unfolding receive take_slots
receives = refl

receive_conserves_example :
    ReceiveLaws.owned small_netmap small_netmap-Laws 3 received
    ≡ ReceiveLaws.owned small_netmap small_netmap-Laws 3 rx_start
receive_conserves_example =
    receive_conserves small_netmap small_netmap-Laws has_room 1 (λ q fs. refl) 4 rx_start received 3
      head_inside receives

-- One worker, so two rings at each of two ports; buffers 21 to 28 are in their slots.
abbrev tx_ring : ℕ → Ring
tx_ring b = record { slots = slot b ∷ slot (b + 1) ∷ []; head = 0; cur = 0; tail = 1 }

abbrev pub tx_start : TxState
tx_start = record {
  tx_rings = (tx_ring 21 ∷ tx_ring 23 ∷ []) ∷ (tx_ring 25 ∷ tx_ring 27 ∷ []) ∷ [];
  free_bufs = 12 ∷ [];
  arp_table = arp_table;
  missing_macs = [];
  memory = λ ptr. ipv4_packet ipv4_header;
  ring_id = 0;
  num_dropped = 0;
  num_dropped_ring_space = 0;
  num_dropped_no_mac = 0;
  num_transmitted = 0;
}

abbrev pub item : ℕ → ℕ → ℕ → Item
item buffer iface now = record {
  frame = record { buf_ptr = 2048 * buffer; len = 42; iface = iface; vlan = 0 };
  now = now;
  later = now + 10;
}

-- Two frames for port 1, of which the second finds the ring full, and a discarded one.
abbrev items : List Item
items = item 1 1 5 ∷ item 2 1 6 ∷ item 3 0x8000 7 ∷ []

abbrev tx_done : TxState
tx_done = record tx_start {
  tx_rings =
      (tx_ring 21 ∷ tx_ring 23 ∷ [])
      ∷ (record {
        slots = record { buf_idx = 1; len = 60; flags = 1 } ∷ slot 26 ∷ [];
        head = 1;
        cur = 1;
        tail = 1;
      }
          ∷ tx_ring 27
          ∷ [])
      ∷ [];
  free_bufs = 3 ∷ 2 ∷ 25 ∷ 12 ∷ [];
  num_dropped = 1;
  num_dropped_ring_space = 1;
  num_transmitted = 1;
}

transmits : transmit small_netmap 1 tx_start items ≡ some tx_done
unfolding transmit transmit_one handle_flags send
transmits = refl

transmit_conserves_example : owned 25 tx_done ≡ owned 25 tx_start + count 25 (1 ∷ 2 ∷ 3 ∷ [])
transmit_conserves_example = transmit_conserves small_netmap 1 25 tx_start tx_done items transmits

ready : IsReady small_netmap 1 tx_start
ready = record {
  ports = (
    (refl, ((omega arith), ((omega arith), tt))),
    ((refl, ((omega arith), ((omega arith), tt))), tt),
  );
  in_turn = omega arith;
  narrow = omega arith;
}

goes : (buffer now : ℕ) → IsForwarded small_netmap 1 2 (item buffer 1 now).frame
goes buffer now = record { no_host = refl; no_arp = refl; no_request = refl; bound = omega arith }

items-IsForwarded : All (λ x. IsForwarded small_netmap 1 2 x.frame) (item 1 1 5 ∷ item 2 1 6 ∷ [])
items-IsForwarded = (goes 1 5, (goes 2 6, tt))

forwarded_ends_example :
    (s' : TxState) × (transmit small_netmap 1 tx_start (item 1 1 5 ∷ item 2 1 6 ∷ []) ≡ some s')
    × IsReady small_netmap 1 s'
    × (length s'.tx_rings ≡ 2)
forwarded_ends_example =
    forwarded_ends small_netmap 1 small_netmap-Laws tx_start (item 1 1 5 ∷ item 2 1 6 ∷ []) ready
      items-IsForwarded

-- A frame from port 0 for the host.
host_frame_faults_example : transmit_one small_netmap 1 tx_start (item 1 0x4000 5) ≡ none
host_frame_faults_example =
    host_frame_faults small_netmap 1 tx_start (item 1 0x4000 5) ready.ports (omega arith) refl refl

-- Two frames for 192.168.1.7 out of port 1, 1000 nanoseconds apart.
abbrev waiting : ℕ → ℕ → Item
waiting buffer now = item buffer 0x1001 now

waiting-IsWaiting : (buffer now : ℕ) → IsWaiting (waiting buffer now).frame
waiting-IsWaiting buffer now = record { no_host = refl; no_arp = refl; waits = refl }

asks_first :
    (s' : TxState) × (transmit_one small_netmap 1 tx_start (waiting 1 5) ≡ some s')
    × (wanted s' (waiting 2 1005).frame ≡ wanted tx_start (waiting 1 5).frame)
unfolding transmit_one handle_flags send ask_for_mac ask prepare_request find find_by_netmap
asks_first = (_, refl, refl)

unknown : find tx_start.missing_macs (wanted tx_start (waiting 1 5).frame) ≡ none
unfolding find
unknown = refl

asked_once_example :
    transmit_one small_netmap 1 asks_first.0 (waiting 2 1005)
    ≡ some (held_back small_netmap 1 asks_first.0 (waiting 2 1005).frame)
asked_once_example =
    asked_once small_netmap 1 tx_start asks_first.0 (waiting 1 5) (waiting 2 1005)
      (waiting-IsWaiting 1 5) unknown asks_first.1 (waiting-IsWaiting 2 1005) asks_first.2
      (omega arith)
