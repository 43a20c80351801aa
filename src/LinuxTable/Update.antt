-- ===== src/LinuxTable/Update.antt =====
-- src/linuxTable.cpp, `LinuxTable::updateInfo`: the collected routes keep their interfaces.

use ariadne.Base.{
  ℕ, suc, ◌≡◌, ◌≢◌, refl, sym, ap, ◌∙◌, subst, ◌==◌, ne→==, ==_iff, Bool-cases, inl, inr, List, [],
  ◌∷◌, ◌++◌, replicate, length-replicate, get_elem?, some, none, All, All-get_or, get_or-replicate,
  All-get_or, get_or-replicate,
}
use ariadne.Interface.{Interface, Heap, deref}
use ariadne.RoutingTable.{Route, Entries}
use ariadne.Lpm.Longest.{level}
use ariadne.Lpm.Indexed.{IsTable, IsPrefix}
use ariadne.LinuxTable.{RouteMessage, described, map_interface, map_level, map_levels, update_info}
use ariadne.LinuxTable.Collect.{named, routes_of, IsSound, sound_route, collect-level}

-- No interface has the netlink index of one as its netmap index.
abbrev pub IsApart : Heap → Interface → Type 0
IsApart heap i = All (λ j. j.netmap_index ≢ i.netlink_index) heap

-- The pointer leads to an interface whose netlink index is no netmap index.
abbrev pub Stays : Heap → Route → Type 0
Stays heap r = (i : Interface) × (deref heap r.interface ≡ some i) × IsApart heap i

map_interface-same :
    (heap : Heap) (is : List Interface) (p : ℕ) (r : Route) (j : Interface)
    → deref heap r.interface ≡ some j
    → All (λ i. i.netmap_index ≢ j.netlink_index) is
    → map_interface heap is p r ≡ some r
unfolding map_interface
map_interface-same heap [] p r j e apart = refl
map_interface-same heap (i ∷ is) p r j e apart =
    rw (e, map_interface)
      (rw (ne→== j.netlink_index i.netmap_index (λ q. apart.0 (sym q)))
        (map_interface-same heap is (suc p) r j e apart.1))

map_level-same : (heap : Heap) (rs : List Route) → All (Stays heap) rs → map_level heap rs ≡ some rs
unfolding map_level
map_level-same heap [] h = refl
map_level-same heap (r ∷ rs) ((j, e, apart), h) =
    rw (map_interface-same heap heap 0 r j e apart, map_level)
      (rw (map_level-same heap rs h, map_level) refl)

map_levels-same :
    (heap : Heap) (es : Entries) → All (All (Stays heap)) es → map_levels heap es ≡ some es
unfolding map_levels
map_levels-same heap [] h = refl
map_levels-same heap (rs ∷ es) (h, hs) =
    rw (map_level-same heap rs h, map_levels) (rw (map_levels-same heap es hs, map_levels) refl)

-- What a sound message gives: a prefix of its length, on an interface that stays.
routes_of-All :
    (heap : Heap) (len : ℕ) (ms : List RouteMessage) (P : Route → Type 0)
    → ((m : RouteMessage)
        → IsSound heap m
        → m.rtm_type ≡ 1
        → m.rtm_dst_len ≡ len
        → P (described m (named heap m)))
    → All (IsSound heap) ms
    → All P (routes_of heap len ms)
unfolding routes_of
routes_of-All heap len [] P f h = tt
routes_of-All heap len (m ∷ ms) P f h = elim (Bool-cases (m.rtm_type == 1)) [
  | inr other ↦ rw other (routes_of-All heap len ms P f h.1)
  | inl unicast ↦ elim (Bool-cases (m.rtm_dst_len == len)) [
    | inr other ↦ rw (unicast, other) (routes_of-All heap len ms P f h.1)
    | inl here ↦
        rw (unicast, here)
          (
            f m h.0 ((==_iff m.rtm_type 1).0 unicast) ((==_iff m.rtm_dst_len len).0 here),
            routes_of-All heap len ms P f h.1,
          )
  ]
]

sound-IsPrefix :
    (heap : Heap) (len : ℕ) (m : RouteMessage)
    → IsSound heap m
    → m.rtm_type ≡ 1
    → m.rtm_dst_len ≡ len
    → IsPrefix len (described m (named heap m))
sound-IsPrefix heap len m sound unicast here =
    let (_, prefix, _) = sound_route heap m sound unicast in
    subst (λ k. IsPrefix k (described m none)) here prefix

sound-Stays :
    (heap : Heap) (len : ℕ)
    → ((p : ℕ) (i : Interface) → get_elem? heap p ≡ some i → IsApart heap i)
    → (m : RouteMessage) → IsSound heap m
    → m.rtm_type ≡ 1
    → m.rtm_dst_len ≡ len
    → Stays heap (described m (named heap m))
sound-Stays heap len apart m sound unicast here =
    let (_, _, (p, i, at_p, at_i)) = sound_route heap m sound unicast in
    (i, ap (deref heap) at_p ∙ at_i, apart p i at_i)

-- If every unicast message has a prefix and an interface of the router, and no netlink index is
-- the netmap index of an interface, as before netmap has numbered any, `updateInfo` returns: the
-- table has, for each prefix length, the routes of that length in the order of their messages.
pub update_info-IsTable :
    (heap : Heap) (ms : List RouteMessage)
    → All (IsSound heap) ms
    → ((p : ℕ) (i : Interface) → get_elem? heap p ≡ some i → IsApart heap i)
    → (tbl : Entries) × (update_info heap ms ≡ some tbl)
      × IsTable tbl
      × ((len : ℕ) → level tbl len ≡ routes_of heap len ms)
unfolding update_info
update_info-IsTable heap ms sound apart =
    let (tbl, run, size, levels) =
      collect-level heap ms (replicate 33 []) (length-replicate {A = List Route} 33 []) sound in
    let exact : (len : ℕ) → level tbl len ≡ routes_of heap len ms =
      λ len. levels len ∙ ap (λ t. t ++ routes_of heap len ms) (get_or-replicate 33 len []) in
    let stays : All (All (Stays heap)) tbl = All-get_or (All (Stays heap)) tbl [] (λ len b.
      subst (All (Stays heap)) (sym (exact len))
        (routes_of-All heap len ms (Stays heap) (sound-Stays heap len apart) sound)) in
    (
      tbl,
      rw (run, update_info) (map_levels-same heap tbl stays),
      record {
        levels = size;
        prefixes = λ len b.
            subst (All (IsPrefix len)) (sym (exact len))
              (routes_of-All heap len ms (IsPrefix len) (sound-IsPrefix heap len) sound);
      },
      exact,
    )
