-- ===== src/RoutingTable.antt =====
-- include/routingTable.hpp and src/routingTable.cpp: routes and next hops.
-- `entries` holds one vector of routes for each prefix length.
pub mod NextHops
pub mod Rebuild
pub mod Indices
pub mod Levels
pub mod Runs
pub mod Total
pub mod Again
pub mod Gateways
pub mod Aggregate
use Prim.Native.String.{String}
use ariadne.Base.{
  ℕ, Bool, true, false, ◌<◌, ltb, ◌==◌, if◌then◌else◌, List, [], ◌∷◌, Option, some, none,
}
use ariadne.Util.{uint16_t_max, uint32_t_max}
use ariadne.Interface.{InterfacePtr}

abbrev pub nh_invalid : ℕ
nh_invalid = uint16_t_max

abbrev pub nh_directly_connected : ℕ
nh_directly_connected = 0x8000

pub record Route : Type 0 where
  pub base : ℕ
  pub next_hop : ℕ
  pub prefix_length : ℕ
  pub interface : InterfacePtr
  pub index : ℕ

-- The default constructor, which is also `invalidRoute`.
abbrev pub new_route : Route
new_route = record {
  base = uint32_t_max;
  next_hop = uint32_t_max;
  prefix_length = uint32_t_max;
  interface = none;
  index = nh_invalid;
}

-- `operator bool`.
unfoldable pub is_valid_route : Route → Bool
is_valid_route r = if r.base == uint32_t_max then false else true

-- `operator<`.
unfoldable pub route_lt : Route → Route → Bool
route_lt a b =
    if ltb a.prefix_length b.prefix_length
    then true
    else (if ltb a.base b.base then true else false)

pub record NhAbstract : Type 0 where
  pub nh_ip : ℕ
  pub interface : InterfacePtr
  pub index : ℕ

abbrev pub Entries : Type 0
Entries = List (List Route)

pub record RoutingTable : Type 0 where
  pub entries : Entries
  pub next_hop_mapping : List NhAbstract
