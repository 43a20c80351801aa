-- ===== src/Netlink/Distinct.antt =====
-- The interfaces that src/netlink.cpp, `getAllInterfaces`, finds.
use ariadne.Base.{
  ℕ, zero, suc, ◌+◌, ◌≡◌, ◌≢◌, ◌⊎◌, inl, inr, refl, sym, ap, ◌∙◌, subst, arith, ◌==◌, false,
  Bool-cases, ==_iff, Option-cases, List, [], ◌∷◌, ◌++◌, length, get_elem?, get_elem?-lt,
  get_elem?-append_cases, get_elem?-append_last, get_elem?-set_self, get_elem?-set_ne, set, Option,
  some, none,
}
use ariadne.Util.{uint32_t_max, htonl}
use ariadne.Interface.{Interface, Heap, InterfacePtr, new_interface}
use ariadne.LinuxTable.{find_by_netlink}
use ariadne.Netlink.{
  LinkAttr, LinkMessage, interface_for, read_ip_attrs, read_link_attrs, with_interface, data_cb_ip,
  data_cb_link, each_message, get_all_interfaces,
}

-- No two interfaces share a netlink index, and netmap has numbered none of them.
pub record IsDistinct (heap : Heap) : Type 0 where
  pub apart :
      (p q : ℕ) (i j : Interface)
      → get_elem? heap p ≡ some i
      → get_elem? heap q ≡ some j
      → i.netlink_index ≡ j.netlink_index
      → p ≡ q
  pub unbound : (p : ℕ) (i : Interface) → get_elem? heap p ≡ some i → i.netmap_index ≡ uint32_t_max

-- The search for an index finds the default where there is none, else an address from `p` on.
find_by_netlink-cases :
    (is : List Interface) (p n : ℕ) (found : InterfacePtr)
    → ((find_by_netlink is p n found ≡ found)
        × ((k : ℕ) (i : Interface) → get_elem? is k ≡ some i → i.netlink_index ≢ n))
      ⊎ ((k : ℕ) × (i : Interface) × (find_by_netlink is p n found ≡ some (p + k))
          × (get_elem? is k ≡ some i)
          × (i.netlink_index ≡ n))
unfolding find_by_netlink
find_by_netlink-cases [] p n found = inl (refl, (λ k i h e. ground arith))
find_by_netlink-cases (x ∷ is) p n found = elim (Bool-cases (x.netlink_index == n)) [
  | inl t ↦ elim (find_by_netlink-cases is (suc p) n (some p)) [
    | inl (e, _) ↦ inr (0, x, rw t (e ∙ ap some (omega arith)), refl, (==_iff _ _).0 t)
    | inr (k, i, e, at_k, h) ↦ inr (suc k, i, rw t (e ∙ ap some (omega arith)), at_k, h)
  ]
  | inr f ↦ elim (find_by_netlink-cases is (suc p) n found) [
    | inl (e, none_has) ↦ inl (rw f e, elsewhere x is n f none_has)
    | inr (k, i, e, at_k, h) ↦ inr (suc k, i, rw f (e ∙ ap some (omega arith)), at_k, h)
  ]
]
  where
    elsewhere :
        (x : Interface) (is : List Interface) (n : ℕ)
        → (x.netlink_index == n) ≡ false
        → ((k : ℕ) (i : Interface) → get_elem? is k ≡ some i → i.netlink_index ≢ n)
        → (k : ℕ) (i : Interface) → get_elem? (x ∷ is) k ≡ some i
        → i.netlink_index ≢ n
    elsewhere x is n f h zero i e q = ground arith
    elsewhere x is n f h (suc k) i e q = h k i e q

IsDistinct-append :
    (heap : Heap) (new : Interface)
    → ((k : ℕ) (i : Interface) → get_elem? heap k ≡ some i → i.netlink_index ≢ new.netlink_index)
    → new.netmap_index ≡ uint32_t_max
    → IsDistinct heap
    → IsDistinct (heap ++ new ∷ [])
IsDistinct-append heap new fresh z d = record {
  apart = λ p q i j a b e. elim (get_elem?-append_cases heap new p i a) [
    | inl a' ↦ elim (get_elem?-append_cases heap new q j b) [
      | inl b' ↦ d.apart p q i j a' b' e
      | inr (_, same) ↦ absurd (fresh p i a' (e ∙ ap (λ x. x.netlink_index) same))
    ]
    | inr (at_end, same) ↦ elim (get_elem?-append_cases heap new q j b) [
      | inl b' ↦ absurd (fresh q j b' (sym e ∙ ap (λ x. x.netlink_index) same))
      | inr (at_end', _) ↦ at_end ∙ sym at_end'
    ]
  ];
  unbound = λ p i a. elim (get_elem?-append_cases heap new p i a) [
    | inl a' ↦ d.unbound p i a'
    | inr (_, same) ↦ ap (λ x. x.netmap_index) same ∙ z
  ];
}

-- The interface for a message is there, with its index, in a heap that is distinct.
abbrev Provided : ℕ → Heap × ℕ → Type 0
Provided n (heap, p) =
    (i : Interface) × (get_elem? heap p ≡ some i) × (i.netlink_index ≡ n) × IsDistinct heap

interface_for-Provided : (heap : Heap) (n : ℕ) → IsDistinct heap → Provided n (interface_for heap n)
unfolding interface_for
interface_for-Provided heap n d = elim (find_by_netlink-cases heap 0 n none) [
  | inr (k, i, e, at_k, h) ↦
      let r : interface_for heap n ≡ (heap, k) =
        rw (e, interface_for) (ap (λ x. (heap, x)) (omega arith)) in
      subst (Provided n) (sym r) (i, at_k, h, d)
  | inl (e, none_has) ↦
      let new : Interface = record new_interface { netlink_index = n } in
      let r : interface_for heap n ≡ (heap ++ new ∷ [], length heap) = rw (e, interface_for) refl in
      subst (Provided n) (sym r)
        (new, get_elem?-append_last heap new, refl, IsDistinct-append heap new none_has refl d)
]

-- A write that keeps both indices.
module _ (heap : Heap) (p : ℕ) (i i' : Interface) (e : get_elem? heap p ≡ some i)
    (a : i'.netlink_index ≡ i.netlink_index) (b : i'.netmap_index ≡ i.netmap_index) where
  before :
      (q : ℕ) (j : Interface)
      → get_elem? (set heap p i') q ≡ some j
      → (j0 : Interface) × (get_elem? heap q ≡ some j0)
        × (j.netlink_index ≡ j0.netlink_index)
        × (j.netmap_index ≡ j0.netmap_index)
  before q j h = elim (Bool-cases (p == q)) [
    | inl t ↦
        let here : p ≡ q = (==_iff p q).0 t in
        let new : get_elem? (set heap p i') q ≡ some i' =
          ap (get_elem? (set heap p i')) (sym here)
          ∙ get_elem?-set_self heap p i' (get_elem?-lt heap p i e) in
        let same : j ≡ i' = ground (arith, h, new) in
        (
          i,
          ap (get_elem? heap) (sym here) ∙ e,
          ap (λ x. x.netlink_index) same ∙ a,
          ap (λ x. x.netmap_index) same ∙ b,
        )
    | inr f ↦ (j, sym (get_elem?-set_ne heap p q i' (λ z. ground (arith, f))) ∙ h, refl, refl)
  ]

  set-IsDistinct : IsDistinct heap → IsDistinct (set heap p i')
  set-IsDistinct d = record {
    apart = λ x y j k hj hk same.
        let (j0, at_j, ej, _) = before x j hj in
        let (k0, at_k, ek, _) = before y k hk in d.apart x y j0 k0 at_j at_k (sym ej ∙ same ∙ ek);
    unbound = λ x j h. let (j0, at_j, _, ej) = before x j h in ej ∙ d.unbound x j0 at_j;
  }

-- The loops over the attributes leave both indices.
abbrev Keeps : (List LinkAttr → Interface → Option Interface) → Type 0
Keeps read =
    (attrs : List LinkAttr) (i i' : Interface)
    → read attrs i ≡ some i'
    → (i'.netlink_index ≡ i.netlink_index) × (i'.netmap_index ≡ i.netmap_index)

read_ip_attrs-Keeps : Keeps read_ip_attrs
unfolding read_ip_attrs
read_ip_attrs-Keeps [] i i' h = ground arith
read_ip_attrs-Keeps (a ∷ attrs) i i' h = ground (
  arith,
  read_ip_attrs-Keeps attrs i i',
  read_ip_attrs-Keeps attrs (record i { ips = i.ips ++ htonl a.word ∷ [] }) i',
  read_ip_attrs-Keeps attrs (record i { name = a.text }) i',
)

read_link_attrs-Keeps : Keeps read_link_attrs
unfolding read_link_attrs
read_link_attrs-Keeps [] i i' h = ground arith
read_link_attrs-Keeps (a ∷ attrs) i i' h = ground (
  arith,
  read_link_attrs-Keeps attrs i i',
  read_link_attrs-Keeps attrs (record i { mac = a.bytes }) i',
  read_link_attrs-Keeps attrs (record i { name = a.text }) i',
)

with_interface-IsDistinct :
    (read : List LinkAttr → Interface → Option Interface) (heap heap' : Heap) (m : LinkMessage)
    → Keeps read
    → IsDistinct heap
    → with_interface read heap m ≡ some heap'
    → IsDistinct heap'
unfolding with_interface
with_interface-IsDistinct read heap heap' m keeps d h =
    let (i, at_p, _, d') = interface_for-Provided heap m.index d in
    elim (Option-cases (read m.attrs i)) [
      | inl e ↦ absurd (ground (arith, at_p, e))
      | inr (i', e) ↦
          let (a, b) = keeps m.attrs i i' e in
          let done : set (interface_for heap m.index).0 (interface_for heap m.index).1 i' ≡ heap' =
            ground (arith, at_p, e) in
          subst IsDistinct done (
            set-IsDistinct (interface_for heap m.index).0 (interface_for heap m.index).1 i i' at_p a
              b d')
    ]

each_message-IsDistinct :
    (callback : Heap → LinkMessage → Option Heap)
    → ((heap heap' : Heap) (m : LinkMessage)
        → IsDistinct heap
        → callback heap m ≡ some heap'
        → IsDistinct heap')
    → (ms : List LinkMessage) (heap heap' : Heap) → IsDistinct heap
    → each_message callback ms heap ≡ some heap'
    → IsDistinct heap'
unfolding each_message
each_message-IsDistinct callback step [] heap heap' d h =
    let same : heap ≡ heap' = ground arith in subst IsDistinct same d
each_message-IsDistinct callback step (m ∷ ms) heap heap' d h =
    elim (Option-cases (callback heap m)) [
      | inl e ↦ absurd (ground (arith, e))
      | inr (heap1, e) ↦
          each_message-IsDistinct callback step ms heap1 heap' (step heap heap1 m d e)
            (ground (arith, e))
    ]

-- Whatever messages come, in whatever order: if no callback refuses one, the interfaces have
-- distinct netlink indices, and none has a netmap index yet.
pub get_all_interfaces-IsDistinct :
    (addresses links : List LinkMessage) (interfaces : Heap)
    → get_all_interfaces addresses links ≡ some interfaces
    → IsDistinct interfaces
unfolding get_all_interfaces data_cb_ip data_cb_link
get_all_interfaces-IsDistinct addresses links interfaces h =
    elim (Option-cases (each_message data_cb_ip addresses [])) [
      | inl e ↦ absurd (ground (arith, e))
      | inr (found, e) ↦
          let d0 : IsDistinct [] = record {
            apart = λ p q i j a. absurd (ground arith);
            unbound = λ p i a. absurd (ground arith);
          } in
          let d1 =
            each_message-IsDistinct data_cb_ip
              (λ a b m. with_interface-IsDistinct read_ip_attrs a b m read_ip_attrs-Keeps) addresses
              [] found d0 e in
          each_message-IsDistinct data_cb_link
            (λ a b m. with_interface-IsDistinct read_link_attrs a b m read_link_attrs-Keeps) links
            found interfaces d1 (ground (arith, e))
    ]
