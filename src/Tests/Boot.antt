-- ===== src/Tests/Boot.antt =====
-- The router with one worker on eth0 and eth1, from the kernel's messages on.
use ariadne.Base.{
  ◌≤◌, ◌≡◌, refl, arith, some, List, [], ◌∷◌, ◌++◌, replicate, length, All, passes_below,
}
use ariadne.RoutingTable.{Entries, nh_invalid}
use ariadne.RoutingTable.Runs.{HasPort, num_routes}
use ariadne.RoutingTable.Aggregate.{aggregate_level, sort, insert_sorted, merge_level, are_siblings}
use ariadne.RoutingTable.Aggregate.Whole.{aggregate, aggregated, aggregate_from}
use ariadne.LinuxTable.{
  update_info, collect, data_cb_new, parse_attrs, find_by_netlink, map_levels, map_level,
  map_interface,
}
use ariadne.AddressMap.{find, assign}
use ariadne.Lpm.Indexed.{IsTable}
use ariadne.ArpTable.{ArpTable}
use ariadne.Worker.{process_frame}
use ariadne.Worker.Thread.{Thread}
use ariadne.Manager.Init.{
  Setup, Started, prepare_all, prepare, push_bufs, rings_from, number_interface, nothing_set_up,
  init_netmap, start_worker_threads,
}
use ariadne.Manager.Boot.{boot_forwards}
use ariadne.Manager.FirstPackets.{FirstVerdict}
use ariadne.Tests.Sound.{IsTable-sound, All-skip, All-empty}
use ariadne.Tests.Data.{eth0, eth1, route_via, first_frame}
use ariadne.Tests.Lookup.{seven}
use ariadne.Tests.Kernel.{unbound_ports, messages}
use ariadne.Tests.Startup.{host}
use ariadne.Tests.Forwarding.{transit_packet, packet-IsTransit}

abbrev told : Entries
told =
    (route_via 0 0 0x0a0000fe 0 nh_invalid ∷ [])
    ∷ (replicate 15 [] ++ (route_via 0x0a010000 16 0 1 nh_invalid ∷ []) ∷ replicate 16 [])

tells : update_info unbound_ports messages ≡ some told
unfolding update_info data_cb_new parse_attrs find_by_netlink find assign map_levels map_level
    map_interface collect
tells = refl

merges : aggregate told ≡ aggregated told
unfolding aggregate aggregate_from aggregate_level sort insert_sorted merge_level are_siblings
merges = refl

told-IsTable : IsTable told
unfolding passes_below
told-IsTable = IsTable-sound told refl refl

prepared :
    (s : Setup) × (prepare_all host 1 ("eth0" ∷ "eth1" ∷ []) (nothing_set_up unbound_ports)
      ≡ some s)
unfolding prepare_all prepare push_bufs rings_from number_interface
prepared = (_, refl)

told-HasPort : All (All (HasPort prepared.0.heap)) told
unfolding prepared prepare_all prepare push_bufs rings_from number_interface
told-HasPort = (
  ((eth0, refl, omega arith), tt),
  All-skip (HasPort prepared.0.heap) 15
      ((route_via 0x0a010000 16 0 1 nh_invalid ∷ []) ∷ replicate 16 [])
      (((eth1, refl, omega arith), tt), All-empty (HasPort prepared.0.heap) 16),
)

few_told : num_routes told ≤ 0x8000
few_told = omega arith

boot_forwards_example :
    (st : Started) × (arp : ArpTable) × (threads : List Thread) × (init_netmap seven host 1 messages
        ("eth0" ∷ "eth1" ∷ [])
        unbound_ports
      ≡ some st)
    × (start_worker_threads 1 st ≡ some (arp, threads))
    × (length threads ≡ 1)
    × All
        (λ w.
          FirstVerdict st.routing_table.entries prepared.0.heap 0xc0a80107 first_frame
            transit_packet
            (process_frame seven w.current first_frame transit_packet))
        threads
unfolding prepared prepare_all prepare push_bufs rings_from number_interface
boot_forwards_example =
    boot_forwards seven host 1 messages ("eth0" ∷ "eth1" ∷ []) unbound_ports told told prepared.0
      first_frame transit_packet eth0 refl tells merges told-IsTable prepared.1 told-HasPort
      few_told packet-IsTransit
