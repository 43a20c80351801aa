-- ===== src/Interface.antt =====
-- include/interface.hpp: one network interface, and the heap of interfaces that the
-- `shared_ptr<Interface>` values of routes and next hops point into. Assigning a netmap index
-- after the routes were read is seen through every pointer.
use Prim.Native.String.{String}
use ariadne.Base.{
  ℕ, ◌==◌, ◌&&◌, Bool, true, false, List, [], ◌∷◌, Option, some, none, get_elem?, if◌then◌else◌,
}
use ariadne.Util.{uint32_t_max}

-- std::array<uint8_t, 6>.
abbrev pub Mac : Type 0
Mac = List ℕ

abbrev pub invalid_mac : Mac
invalid_mac = 0 ∷ 0 ∷ 0 ∷ 0 ∷ 0 ∷ 0 ∷ []

abbrev pub mac_eq : Mac → Mac → Bool
mac_eq [] [] = true
mac_eq [] (b ∷ bs) = false
mac_eq (a ∷ as') [] = false
mac_eq (a ∷ as') (b ∷ bs) = a == b && mac_eq as' bs

pub record Interface : Type 0 where
  pub mac : Mac
  pub netlink_index : ℕ
  pub netmap_index : ℕ
  pub ips : List ℕ
  pub name : String

-- The values of the member initialisers.
abbrev pub new_interface : Interface
new_interface = record {
  mac = invalid_mac;
  netlink_index = uint32_t_max;
  netmap_index = uint32_t_max;
  ips = [];
  name = "noname";
}

-- A `shared_ptr<Interface>`: `none` is the null pointer, `some p` an address of the heap.
abbrev pub InterfacePtr : Type 0
InterfacePtr = Option ℕ

abbrev pub Heap : Type 0
Heap = List Interface

-- `*ptr`; `none` is the read through a null pointer.
abbrev pub deref : Heap → InterfacePtr → Option Interface
deref heap none = none
deref heap (some p) = get_elem? heap p

-- The loops `for(auto i : interfaces) if(i->netmapIndex == n) { iface_ptr = i; break; }`.
unfoldable pub find_by_netmap : List Interface → ℕ → Option Interface
find_by_netmap [] n = none
find_by_netmap (i ∷ is) n = if i.netmap_index == n then some i else find_by_netmap is n

-- `count(ips.begin(), ips.end(), ip)` as a condition.
unfoldable pub has_ip : ℕ → List ℕ → Bool
has_ip ip [] = false
has_ip ip (x ∷ xs) = if x == ip then true else has_ip ip xs
