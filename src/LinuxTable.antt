-- ===== src/LinuxTable.antt =====
-- src/linuxTable.cpp: the routes of the kernel, from the netlink messages that libmnl delivers.
-- `none` is a call of `fatal`, an access beyond the end of a vector, or a read through a null
-- pointer.
pub mod Collect
pub mod Update
use ariadne.Base.{
  ℕ, zero, suc, ◌+◌, ◌==◌, ◌||◌, if◌then◌else◌, Bool, true, false, List, [], ◌∷◌, ◌++◌, replicate,
  get_elem?, set, Option, some, none,
}
use ariadne.Util.{ntohl}
use ariadne.Interface.{Interface, InterfacePtr, Heap, deref}
use ariadne.AddressMap.{AddressMap, find, assign}
use ariadne.RoutingTable.{Route, Entries, nh_invalid}

-- A netlink attribute: its type, whether libmnl knows the type, whether the payload has the size
-- that `mnl_attr_validate` asks for, and the payload as a 32-bit load.
pub record Attr : Type 0 where
  pub type : ℕ
  pub type_valid : Bool
  pub size_valid : Bool
  pub payload : ℕ

-- The attribute types of linux/rtnetlink.h.
abbrev pub rta_dst : ℕ
rta_dst = 1

abbrev pub rta_oif : ℕ
rta_oif = 4

abbrev pub rta_gateway : ℕ
rta_gateway = 5

-- The types with a case in the switch: DST, SRC, OIF, GATEWAY, PRIORITY, PREFSRC, METRICS, FLOW
-- and TABLE.
abbrev pub is_validated : ℕ → Bool
is_validated t =
    (t == 1)
    || (t == 2)
    || (t == 4)
    || (t == 5)
    || (t == 6)
    || (t == 7)
    || (t == 8)
    || (t == 11)
    || (t == 15)

-- `mnl_attr_parse` with `data_ipv4_attr_cb`, which stops at the first error; the caller ignores
-- that. The table maps types to payloads.
unfoldable pub parse_attrs : List Attr → AddressMap ℕ → AddressMap ℕ
parse_attrs [] tb = tb
parse_attrs (a ∷ attrs) tb =
    let skipped = parse_attrs attrs tb in
    let entered = parse_attrs attrs (assign a.type a.payload tb) in
    if a.type_valid
    then (if is_validated a.type then (if a.size_valid then entered else tb) else entered)
    else skipped

pub record RouteMessage : Type 0 where
  pub rtm_type : ℕ
  pub rtm_dst_len : ℕ
  pub attrs : List Attr

-- The loop over the interfaces, which has no break: the last one with the index counts. `p` is
-- the address of the first of `is`.
unfoldable pub find_by_netlink : List Interface → ℕ → ℕ → InterfacePtr → InterfacePtr
find_by_netlink [] p n found = found
find_by_netlink (i ∷ is) p n found =
    find_by_netlink is (suc p) n (if i.netlink_index == n then some p else found)

abbrev pub address_or_zero : Option ℕ → ℕ
address_or_zero none = 0
address_or_zero (some a) = ntohl a

-- `new_route` as the message fills it, on a given interface.
abbrev pub described : RouteMessage → InterfacePtr → Route
described m interface = record {
  base = address_or_zero (find (parse_attrs m.attrs []) rta_dst);
  next_hop = address_or_zero (find (parse_attrs m.attrs []) rta_gateway);
  prefix_length = m.rtm_dst_len;
  interface = interface;
  index = nh_invalid;
}

-- `data_cb_new`.
unfoldable pub data_cb_new : Heap → Entries → RouteMessage → Option Entries
unfolding parse_attrs find_by_netlink
data_cb_new interfaces routes m =
    if m.rtm_type == 1
    then (elim (find (parse_attrs m.attrs []) rta_oif) [
      | none ↦ none
      | some oif ↦ elim (get_elem? routes m.rtm_dst_len) [
        | none ↦ none
        | some rs ↦ some (
            set routes m.rtm_dst_len
              (rs ++ described m (find_by_netlink interfaces 0 oif none) ∷ []))
      ]
    ])
    else some routes

-- The calls of the callback, message by message.
unfoldable pub collect : Heap → List RouteMessage → Entries → Option Entries
collect interfaces [] routes = some routes
collect interfaces (m ∷ ms) routes = elim (data_cb_new interfaces routes m) [
  | none ↦ none
  | some routes' ↦ collect interfaces ms routes'
]

-- "Map to the correct ifaces": `is` are the interfaces that are left, from address `p` on.
unfoldable pub map_interface : Heap → List Interface → ℕ → Route → Option Route
map_interface heap [] p r = some r
map_interface heap (i ∷ is) p r =
    let later = map_interface heap is (suc p) r in
    elim (deref heap r.interface) [
      | none ↦ none
      | some j ↦
          if j.netlink_index == i.netmap_index
          then some (record r { interface = some p })
          else later
    ]

unfoldable pub map_level : Heap → List Route → Option (List Route)
map_level heap [] = some []
map_level heap (r ∷ rs) = elim (map_interface heap heap 0 r) [
  | none ↦ none
  | some r' ↦ elim (map_level heap rs) [ none ↦ none | some rs' ↦ some (r' ∷ rs') ]
]

unfoldable pub map_levels : Heap → Entries → Option Entries
map_levels heap [] = some []
map_levels heap (rs ∷ es) = elim (map_level heap rs) [
  | none ↦ none
  | some rs' ↦ elim (map_levels heap es) [ none ↦ none | some es' ↦ some (rs' ∷ es') ]
]

-- `updateInfo`, on the messages that the socket yields.
unfoldable pub update_info : Heap → List RouteMessage → Option Entries
unfolding collect map_interface map_level map_levels
update_info heap ms = elim (collect heap ms (replicate 33 [])) [
  | none ↦ none
  | some routes ↦ map_levels heap routes
]
