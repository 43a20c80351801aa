-- ===== src/Netlink.antt =====
-- src/netlink.cpp: the interfaces of the kernel, from the netlink messages that libmnl delivers.
-- `none` is an error of a callback, after which `getAllInterfaces` calls `fatal`.
pub mod Distinct
use Prim.Native.String.{String}
use ariadne.Base.{
  ℕ, zero, suc, ◌+◌, ◌==◌, if◌then◌else◌, Bool, true, false, List, [], ◌∷◌, ◌++◌, length, get_elem?,
  set, Option, some, none,
}
use ariadne.Util.{htonl}
use ariadne.Interface.{Interface, Mac, Heap, new_interface}
use ariadne.LinuxTable.{find_by_netlink}

-- An attribute: its type, whether libmnl knows the type, whether the payload passes
-- `mnl_attr_validate`, and the payload as a 32-bit load, as six bytes and as a string.
pub record LinkAttr : Type 0 where
  pub type : ℕ
  pub type_valid : Bool
  pub payload_valid : Bool
  pub word : ℕ
  pub bytes : Mac
  pub text : String

-- IFA_ADDRESS, which is IFLA_ADDRESS, and IFA_LABEL of linux/if_addr.h.
abbrev pub ifa_address : ℕ
ifa_address = 1

abbrev pub ifa_label : ℕ
ifa_label = 3

pub record LinkMessage : Type 0 where
  pub index : ℕ
  pub attrs : List LinkAttr

-- The interface with the index, or a new one at the end: the heap, and the address in it.
unfoldable pub interface_for : Heap → ℕ → Heap × ℕ
unfolding find_by_netlink
interface_for interfaces index = elim (find_by_netlink interfaces 0 index none) [
  | some p ↦ (interfaces, p)
  | none ↦ (interfaces ++ record new_interface { netlink_index = index } ∷ [], length interfaces)
]

-- The loop over the attributes of `data_cb_ip`.
unfoldable pub read_ip_attrs : List LinkAttr → Interface → Option Interface
read_ip_attrs [] i = some i
read_ip_attrs (a ∷ attrs) i =
    let unchanged = read_ip_attrs attrs i in
    let addressed = read_ip_attrs attrs (record i { ips = i.ips ++ htonl a.word ∷ [] }) in
    let labelled = read_ip_attrs attrs (record i { name = a.text }) in
    if a.type_valid
    then (if a.type == ifa_address
        then (if a.payload_valid then addressed else none)
        else (if a.type == ifa_label
            then (if a.payload_valid then labelled else none)
            else unchanged))
    else unchanged

-- The loop over the attributes of `data_cb_link`.
unfoldable pub read_link_attrs : List LinkAttr → Interface → Option Interface
read_link_attrs [] i = some i
read_link_attrs (a ∷ attrs) i =
    let unchanged = read_link_attrs attrs i in
    let addressed = read_link_attrs attrs (record i { mac = a.bytes }) in
    let labelled = read_link_attrs attrs (record i { name = a.text }) in
    if a.type_valid
    then (if a.type == ifa_address
        then addressed
        else (if a.type == ifa_label
            then (if a.payload_valid then labelled else none)
            else unchanged))
    else unchanged

-- What both callbacks do around their loops, given as `read`.
unfoldable pub with_interface :
    (List LinkAttr → Interface → Option Interface) → Heap → LinkMessage → Option Heap
unfolding interface_for
with_interface read interfaces m =
    let (heap, p) = interface_for interfaces m.index in
    elim (get_elem? heap p) [
      | none ↦ none
      | some i ↦ elim (read m.attrs i) [ none ↦ none | some i' ↦ some (set heap p i') ]
    ]

unfoldable pub data_cb_ip : Heap → LinkMessage → Option Heap
unfolding with_interface
data_cb_ip = with_interface read_ip_attrs

unfoldable pub data_cb_link : Heap → LinkMessage → Option Heap
unfolding with_interface
data_cb_link = with_interface read_link_attrs

-- `mnl_cb_run` over the messages of one request.
unfoldable pub each_message :
    (Heap → LinkMessage → Option Heap) → List LinkMessage → Heap → Option Heap
each_message callback [] heap = some heap
each_message callback (m ∷ ms) heap = elim (callback heap m) [
  | none ↦ none
  | some heap' ↦ each_message callback ms heap'
]

-- `getAllInterfaces`, on the messages with the addresses and those with the links.
unfoldable pub get_all_interfaces : List LinkMessage → List LinkMessage → Option Heap
unfolding each_message data_cb_ip data_cb_link
get_all_interfaces addresses links = elim (each_message data_cb_ip addresses []) [
  | none ↦ none
  | some interfaces ↦ each_message data_cb_link links interfaces
]
