-- ===== src/Netmap.antt =====
-- What src/manager.cpp uses of netmap, which is no part of the repository: rings of slots that
-- hold buffer indices. The functions of net/netmap_user.h are the fields of an interface.
use ariadne.Base.{
  ℕ, zero, suc, ◌+◌, ◌<◌, ◌≡◌, ◌==◌, if◌then◌else◌, List, [], ◌∷◌, ◌++◌, map, length, get_elem?,
  set, some, arith,
}

pub record Slot : Type 0 where
  pub buf_idx : ℕ
  pub len : ℕ
  pub flags : ℕ

pub record Ring : Type 0 where
  pub slots : List Slot
  pub head : ℕ
  pub cur : ℕ
  pub tail : ℕ

abbrev pub ns_buf_changed : ℕ
ns_buf_changed = 1

-- `nm_ring_space`, `nm_ring_next`, `NETMAP_BUF` and `NETMAP_BUF_IDX` (of the one memory region).
pub record Netmap : Type 0 where
  pub ring_space : Ring → ℕ
  pub ring_next : Ring → ℕ → ℕ
  pub buf : ℕ → ℕ
  pub buf_idx : ℕ → ℕ

-- The documented behaviour: the next slot of a slot of a ring is a slot of it, and the two
-- conversions between indices and addresses are inverse.
pub record NetmapLaws (n : Netmap) : Type 0 where
  pub next_in_ring : (r : Ring) (i : ℕ) → i < length r.slots → n.ring_next r i < length r.slots
  pub buf_idx-buf : (i : ℕ) → n.buf_idx (n.buf i) ≡ i

-- How often a buffer occurs in a list of buffer indices.
unfoldable pub count : ℕ → List ℕ → ℕ
count b [] = 0
count b (x ∷ xs) = (if x == b then 1 else 0) + count b xs

pub count-append : (b : ℕ) (xs ys : List ℕ) → count b (xs ++ ys) ≡ count b xs + count b ys
unfolding count
count-append b [] ys = omega arith
count-append b (x ∷ xs) ys = omega (arith, count-append b xs ys)

abbrev pub slot_bufs : List Slot → List ℕ
slot_bufs = map (λ s. s.buf_idx)

-- A write to one slot exchanges one buffer.
pub count-set :
    (b : ℕ) (slots : List Slot) (i : ℕ) (old new : Slot)
    → get_elem? slots i ≡ some old
    → count b (slot_bufs (set slots i new)) + count b (old.buf_idx ∷ [])
      ≡ count b (slot_bufs slots) + count b (new.buf_idx ∷ [])
unfolding count
count-set b [] i old new h = cc
count-set b (s ∷ slots) zero old new h = ground arith
count-set b (s ∷ slots) (suc i) old new h = omega (arith, count-set b slots i old new h)
