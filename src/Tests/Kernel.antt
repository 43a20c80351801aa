-- ===== src/Tests/Kernel.antt =====
-- Messages of the kernel, and the merge of prefixes.
use ariadne.Base.{
  ℕ, zero, suc, ◌^◌, ◌<◌, ◌≡◌, inl, inr, refl, arith, true, List, [], ◌∷◌, get_elem?, some, All,
}
use ariadne.Util.{htonl, uint32_t_max}
use ariadne.Interface.{Interface, Heap}
use ariadne.AddressMap.{find, assign}
use ariadne.RoutingTable.{Route, Entries, route_lt, nh_invalid}
use ariadne.RoutingTable.Aggregate.{
  sort, are_siblings, beyond_end, aggregate_level, lone_siblings_fault,
}
use ariadne.LinuxTable.{Attr, RouteMessage, update_info, parse_attrs, find_by_netlink}
use ariadne.LinuxTable.Collect.{IsSound, routes_of}
use ariadne.LinuxTable.Update.{IsApart, update_info-IsTable}
use ariadne.Lpm.Longest.{level}
use ariadne.Lpm.Indexed.{IsTable}
use ariadne.Netlink.{LinkAttr, LinkMessage, get_all_interfaces, read_ip_attrs, read_link_attrs}
use ariadne.Netlink.Distinct.{IsDistinct, get_all_interfaces-IsDistinct}
use ariadne.RoutingTable.Runs.{num_routes}
use ariadne.RoutingTable.Aggregate.Whole.{Outcome, aggregate, aggregate_ends}
use ariadne.Tests.Data.{eth0, eth1, route_via, fresh_table}

abbrev pub attr : ℕ → ℕ → Attr
attr t w = record { type = t; type_valid = true; size_valid = true; payload = w }

-- The two ports before netmap has numbered them, and the routes 10.1.0.0/16 and 0.0.0.0/0.
abbrev pub unbound_ports : Heap
unbound_ports =
    record eth0 { netmap_index = uint32_t_max } ∷ record eth1 { netmap_index = uint32_t_max } ∷ []

abbrev pub messages : List RouteMessage
messages =
    record { rtm_type = 1; rtm_dst_len = 16; attrs = attr 1 (htonl 0x0a010000) ∷ attr 4 3 ∷ [] }
    ∷ record { rtm_type = 3; rtm_dst_len = 8; attrs = [] }
    ∷ record { rtm_type = 1; rtm_dst_len = 0; attrs = attr 5 (htonl 0x0a0000fe) ∷ attr 4 2 ∷ [] }
    ∷ []

messages-IsSound : All (IsSound unbound_ports) messages
unfolding parse_attrs find find_by_netlink assign
messages-IsSound = (
  inr (
    omega arith,
    (omega arith, refl),
    (1, record eth1 { netmap_index = uint32_t_max }, refl, refl),
  ),
  (
    inl (λ e. omega arith),
    (
      inr (
        omega arith,
        (omega arith, refl),
        (0, record eth0 { netmap_index = uint32_t_max }, refl, refl),
      ),
      tt,
    ),
  ),
)

ports-IsApart :
    (p : ℕ) (i : Interface) → get_elem? unbound_ports p ≡ some i → IsApart unbound_ports i
ports-IsApart zero i h = ((λ e. ground arith), ((λ e. ground arith), tt))
ports-IsApart (suc zero) i h = ((λ e. ground arith), ((λ e. ground arith), tt))
ports-IsApart (suc (suc p)) i h = absurd (ground arith)

update_info-IsTable_example :
    (tbl : Entries) × (update_info unbound_ports messages ≡ some tbl)
    × IsTable tbl
    × ((len : ℕ) → level tbl len ≡ routes_of unbound_ports len messages)
update_info-IsTable_example =
    update_info-IsTable unbound_ports messages messages-IsSound ports-IsApart

-- 10.0.0.0/24 and 10.0.1.0/24 by one next hop, and with 10.0.3.0/24 in the place of the second.
abbrev even : Route
even = route_via 0x0a000000 24 0x0a0000fe 0 nh_invalid

abbrev odd : Route
odd = route_via 0x0a000100 24 0x0a0000fe 0 nh_invalid

abbrev far : Route
far = route_via 0x0a000300 24 0x0a0000fe 0 nh_invalid

in_order : route_lt even odd ≡ true
unfolding route_lt
in_order = refl

siblings : are_siblings 24 even odd ≡ true
unfolding are_siblings
siblings = refl

lone_siblings_fault_example : aggregate_level 2 24 (even ∷ odd ∷ []) [] ≡ beyond_end
lone_siblings_fault_example = lone_siblings_fault 0 24 even odd [] in_order siblings

sorted : sort (far ∷ even ∷ []) ≡ even ∷ far ∷ []
unfolding sort
sorted = refl

-- Two addresses of one interface, and its link.
abbrev link_attr : ℕ → ℕ → LinkAttr
link_attr t w = record {
  type = t;
  type_valid = true;
  payload_valid = true;
  word = w;
  bytes = eth0.mac;
  text = "eth0";
}

abbrev found : Heap
found =
    record {
      mac = eth0.mac;
      netlink_index = 2;
      netmap_index = uint32_t_max;
      ips = 0x0a000001 ∷ 0x0a000002 ∷ [];
      name = "eth0";
    }
    ∷ []

abbrev addresses : List LinkMessage
addresses =
    record { index = 2; attrs = link_attr 1 (htonl 0x0a000001) ∷ link_attr 3 0 ∷ [] }
    ∷ record { index = 2; attrs = link_attr 1 (htonl 0x0a000002) ∷ [] }
    ∷ []

abbrev links : List LinkMessage
links = record { index = 2; attrs = link_attr 1 0 ∷ [] } ∷ []

finds : get_all_interfaces addresses links ≡ some found
unfolding get_all_interfaces read_ip_attrs read_link_attrs
finds = refl

get_all_interfaces-IsDistinct_example : IsDistinct found
get_all_interfaces-IsDistinct_example = get_all_interfaces-IsDistinct addresses links found finds

few_routes : num_routes fresh_table.entries < 2 ^ 32
few_routes = omega arith

aggregate_ends_example : Outcome fresh_table.entries (aggregate fresh_table.entries)
aggregate_ends_example = aggregate_ends fresh_table.entries refl few_routes
