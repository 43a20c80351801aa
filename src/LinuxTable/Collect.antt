-- ===== src/LinuxTable/Collect.antt =====
-- What src/linuxTable.cpp, `LinuxTable::updateInfo`, makes of well-formed messages.
use mathlib.Core.List.{append-nil, append_assoc}
use ariadne.Base.{
  ℕ, ◌≤◌, ◌<◌, ◌≡◌, ◌≢◌, ◌⊎◌, refl, sym, ap, ◌∙◌, subst, arith, ◌==◌, if◌then◌else◌, ==_iff,
  Bool-cases, inl, inr, Option-cases, List, [], ◌∷◌, ◌++◌, length, length-set, get_elem?,
  get_or-set_self, get_or-set_ne, true, get_elem?-eq-get_or, set, some, none, All,
}
use ariadne.Interface.{Interface, InterfacePtr, Heap}
use ariadne.AddressMap.{find}
use ariadne.RoutingTable.{Route, Entries}
use ariadne.Lpm.Longest.{level}
use ariadne.Lpm.Indexed.{IsPrefix}
use ariadne.LinuxTable.{
  RouteMessage, parse_attrs, find_by_netlink, described, data_cb_new, collect, rta_oif,
}

-- The address of the interface that a message names, if it names one.
abbrev pub named : Heap → RouteMessage → InterfacePtr
named heap m = elim (find (parse_attrs m.attrs []) rta_oif) [
  | none ↦ none
  | some oif ↦ find_by_netlink heap 0 oif none
]

-- The unicast routes of one prefix length, in the order of the messages.
unfoldable pub routes_of : Heap → ℕ → List RouteMessage → List Route
routes_of heap len [] = []
routes_of heap len (m ∷ ms) =
    let rest = routes_of heap len ms in
    if m.rtm_type == 1
    then (if m.rtm_dst_len == len then described m (named heap m) ∷ rest else rest)
    else rest

-- A message is of another kind, or has a prefix with no bit behind its length and an interface
-- that the router knows.
abbrev pub HasRoute : Heap → RouteMessage → Type 0
HasRoute heap m =
    (m.rtm_dst_len ≤ 32)
    × IsPrefix m.rtm_dst_len (described m none)
    × ((p : ℕ) × (i : Interface) × (named heap m ≡ some p) × (get_elem? heap p ≡ some i))

abbrev pub IsSound : Heap → RouteMessage → Type 0
IsSound heap m = (m.rtm_type ≢ 1) ⊎ HasRoute heap m

pub sound_route :
    (heap : Heap) (m : RouteMessage) → IsSound heap m → m.rtm_type ≡ 1 → HasRoute heap m
sound_route heap m (inl other) unicast = absurd (other unicast)
sound_route heap m (inr route) unicast = route

-- A route at the end of one level.
push-level :
    (routes : Entries) (len0 len : ℕ) (r : Route)
    → len0 < length routes
    → level (set routes len0 (level routes len0 ++ r ∷ [])) len
      ≡ level routes len ++ (if len0 == len then r ∷ [] else [])
push-level routes len0 len r h = elim (Bool-cases (len0 == len)) [
  | inl t ↦
      let same : len0 ≡ len = (==_iff len0 len).0 t in
      rw (t) (
        subst
          (λ k. level (set routes len0 (level routes len0 ++ r ∷ [])) k ≡ level routes k ++ r ∷ [])
          same (get_or-set_self routes len0 (level routes len0 ++ r ∷ []) [] h))
  | inr f ↦ rw (f) (
      get_or-set_ne routes len0 len (level routes len0 ++ r ∷ []) [] (λ e. ground (arith, f))
      ∙ sym (append-nil (level routes len)))
]

one_route :
    (heap : Heap) (len : ℕ) (m : RouteMessage)
    → (m.rtm_type == 1) ≡ true
    → routes_of heap len (m ∷ [])
      ≡ (if m.rtm_dst_len == len then described m (named heap m) ∷ [] else [])
unfolding routes_of
one_route heap len m t = rw (t) refl

-- One callback: a unicast route goes to the end of its level.
data_cb_new-level :
    (heap : Heap) (routes : Entries) (m : RouteMessage)
    → length routes ≡ 33
    → IsSound heap m
    → (tbl : Entries) × (data_cb_new heap routes m ≡ some tbl)
      × (length tbl ≡ 33)
      × ((len : ℕ) → level tbl len ≡ level routes len ++ routes_of heap len (m ∷ []))
unfolding data_cb_new routes_of
data_cb_new-level heap routes m size sound = elim (Bool-cases (m.rtm_type == 1)) [
  | inr other ↦
      (routes, rw other refl, size, (λ len. rw other (sym (append-nil (level routes len)))))
  | inl unicast ↦
      let (small, _, (p, i, at_p, at_i)) = sound_route heap m sound ((==_iff _ _).0 unicast) in
      elim (Option-cases (find (parse_attrs m.attrs []) rta_oif)) [
        | inl e ↦ absurd (no_name heap m p e at_p)
        | inr (oif, e) ↦
            let at_len = get_elem?-eq-get_or routes m.rtm_dst_len [] (omega (arith, size, small)) in
            let r = described m (find_by_netlink heap 0 oif none) in
            let rs = level routes m.rtm_dst_len ++ r ∷ [] in
            (
              set routes m.rtm_dst_len rs,
              rw (unicast, data_cb_new) (rw (e, data_cb_new) (rw (at_len, data_cb_new) refl)),
              length-set routes m.rtm_dst_len rs ∙ size,
              λ len.
                  push-level routes m.rtm_dst_len len r (omega (arith, size, small))
                  ∙ ap
                      (λ t.
                        level routes len
                        ++ (if m.rtm_dst_len == len then described m t ∷ [] else []))
                      (sym (names heap m oif e))
                  ∙ ap (λ t. level routes len ++ t) (sym (one_route heap len m unicast)),
            )
      ]
]
  where
    names :
        (heap : Heap) (m : RouteMessage) (oif : ℕ)
        → find (parse_attrs m.attrs []) rta_oif ≡ some oif
        → named heap m ≡ find_by_netlink heap 0 oif none
    names heap m oif e = rw (e, named) refl

    no_name :
        (heap : Heap) (m : RouteMessage) (p : ℕ)
        → find (parse_attrs m.attrs []) rta_oif ≡ none
        → named heap m ≢ some p
    no_name heap m p e h = ground (arith, e)

routes_of-append :
    (heap : Heap) (len : ℕ) (m : RouteMessage) (ms : List RouteMessage)
    → routes_of heap len (m ∷ []) ++ routes_of heap len ms ≡ routes_of heap len (m ∷ ms)
unfolding routes_of
routes_of-append heap len m ms = ground arith

-- All the callbacks.
pub collect-level :
    (heap : Heap) (ms : List RouteMessage) (routes : Entries)
    → length routes ≡ 33
    → All (IsSound heap) ms
    → (tbl : Entries) × (collect heap ms routes ≡ some tbl)
      × (length tbl ≡ 33)
      × ((len : ℕ) → level tbl len ≡ level routes len ++ routes_of heap len ms)
unfolding collect routes_of
collect-level heap [] routes size sound =
    (routes, refl, size, (λ len. sym (append-nil (level routes len))))
collect-level heap (m ∷ ms) routes size sound =
    let (t1, e1, n1, h1) = data_cb_new-level heap routes m size sound.0 in
    let (t2, e2, n2, h2) = collect-level heap ms t1 n1 sound.1 in
    (
      t2,
      rw (e1, collect) e2,
      n2,
      λ len.
          h2 len
          ∙ ap (λ t. t ++ routes_of heap len ms) (h1 len)
          ∙ append_assoc (level routes len) (routes_of heap len (m ∷ [])) (routes_of heap len ms)
          ∙ ap (λ t. level routes len ++ t) (routes_of-append heap len m ms),
    )
