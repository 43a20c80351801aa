-- ===== src/Manager/FirstPackets.antt =====
-- What a worker of src/worker.cpp does with a packet while the ARP table is as new, as src/manager.cpp
-- makes it.
use ariadne.Base.{ℕ, ◌≤◌, ◌≡◌, refl, arith, true, false, bit_or, ◌<◌, inl, inr, ◌∙◌, ap}
use ariadne.Interface.{invalid_mac, Heap, Interface}
use ariadne.AddressMap.{find}
use ariadne.Frame.{Frame, Packet, iface_nomac}
use ariadne.RoutingTable.{Entries, Route}
use ariadne.ArpTable.{NextHop, is_valid_next_hop}
use ariadne.Checksum.Forward.{forward}
use ariadne.Lpm.Longest.{In, Matches, NoMatch, level}
use ariadne.Worker.Hops.{LeadsTo, Meant}
use ariadne.Worker.{Outcome, Processed, ok, stop, no_route}
use ariadne.Worker.Route.{Leaves}
use ariadne.Worker.Pipeline
use ariadne.Worker.Pipeline.{forwards, Verdict, worker_tables, pipeline}
use ariadne.Manager.Init.{new_arp_table}

-- What becomes of the first packets, for `d_ip`: without a matching route the program ends; else the
-- frame is handed to the manager with a forwarded header, marked for an ARP request on the interface
-- that a longest matching route leads out of.
pub data FirstVerdict (tbl : Entries) (heap : Heap) (d_ip : ℕ) (f : Frame) (p : Packet)
    (o : Outcome Processed) : Type 0 where
  ends :
      ((k : ℕ) → k ≤ 32 → NoMatch k d_ip (level tbl k))
      → o ≡ stop no_route
      → FirstVerdict tbl heap d_ip f p o
  asks :
      (len : ℕ) (r : Route) (i : Interface)
      → len ≤ 32
      → In r (level tbl len)
      → Matches len d_ip r
      → ((k : ℕ) → len < k → k ≤ 32 → NoMatch k d_ip (level tbl k))
      → LeadsTo tbl heap r i
      → o
        ≡ ok (record {
          frame = record f { iface = bit_or i.netmap_index iface_nomac };
          packet = record p { ipv4 = forward p.ipv4 };
          enqueued = true;
        })
      → FirstVerdict tbl heap d_ip f p o

invalid_next_hop : (nh : NextHop) → nh.mac ≡ invalid_mac → is_valid_next_hop nh ≡ false
unfolding is_valid_next_hop
invalid_next_hop nh e = rw e refl

-- With the maps of a new ARP table, no MAC address is known.
nothing_known :
    (tbl : Entries) (heap : Heap) (d_ip : ℕ) (r : Route) (nh : NextHop)
    → Meant tbl (new_arp_table heap) d_ip r nh
    → (i : Interface) × LeadsTo tbl heap r i
      × (nh.netmap_interface ≡ i.netmap_index)
      × (nh.mac ≡ invalid_mac)
unfolding find
nothing_known tbl heap d_ip r nh (i, leads, inl (n, port, inl (_, mac))) = (i, leads, port, mac)
nothing_known tbl heap d_ip r nh (i, leads, inl (n, port, inr (known, e, _))) =
    absurd (ground arith)
nothing_known tbl heap d_ip r nh (i, leads, inr (z, e)) =
    (i, leads, ap (λ x. x.netmap_interface) e, ap (λ x. x.mac) e)

marked :
    (i : Interface) (nh : NextHop) (f : Frame) (p : Packet) (port : ℕ) (out : Processed)
    → nh.netmap_interface ≡ port
    → nh.mac ≡ invalid_mac
    → out.enqueued ≡ true
    → Leaves i nh f p out
    → out ≡ record {
      frame = record f { iface = bit_or port iface_nomac };
      packet = record p { ipv4 = forward p.ipv4 };
      enqueued = true;
    }
marked i nh f p port out at_port mac queued (inl (valid, _, _)) =
    absurd (ground (arith, invalid_next_hop nh mac))
marked i nh f p port out at_port mac queued (inr (_, _, frame, packet)) =
    ground (arith, at_port, queued, frame, packet)

pub first_verdict :
    (tbl : Entries) (heap : Heap) (d_ip : ℕ) (i : Interface) (f : Frame) (p : Packet)
    (o : Outcome Processed)
    → Verdict tbl (new_arp_table heap) d_ip i f p o
    → FirstVerdict tbl heap d_ip f p o
first_verdict tbl heap d_ip i f p o (Pipeline.ends none_at e) = ends none_at e
first_verdict tbl heap d_ip i f p o
      (forwards len r nh out small at_len m longer meant e queued leaves) =
    let (j, leads, port, mac) = nothing_known tbl heap d_ip r nh meant in
    asks len r j small at_len m longer leads
      (e ∙ ap ok (marked i nh f p j.netmap_index out port mac queued leaves))
