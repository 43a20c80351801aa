-- ===== src/AddressMap.antt =====
-- std::unordered_map with IPv4 addresses as keys, as an association list.
use ariadne.Base.{ℕ, ◌==◌, if◌then◌else◌, List, [], ◌∷◌, Option, some, none, ◌≡◌, arith}

abbrev pub AddressMap : Type 0 → Type 0
AddressMap A = List (ℕ × A)

-- The value that was there, else the new one.
abbrev pub kept : {A : Type 0} → Option A → A → A
kept none a = a
kept (some b) a = b

module _ {A : Type 0} where
  unfoldable pub find : AddressMap A → ℕ → Option A
  find [] k = none
  find ((j, a) ∷ m) k = if j == k then some a else find m k

  -- `insert({k, a})` leaves an entry that is there.
  unfoldable pub insert : ℕ → A → AddressMap A → AddressMap A
  insert k a [] = (k, a) ∷ []
  insert k a ((j, b) ∷ m) = if j == k then (j, b) ∷ m else (j, b) ∷ insert k a m

  -- `m[k] = a`.
  unfoldable pub assign : ℕ → A → AddressMap A → AddressMap A
  assign k a [] = (k, a) ∷ []
  assign k a ((j, b) ∷ m) = if j == k then (j, a) ∷ m else (j, b) ∷ assign k a m

  pub find-insert :
      (k j : ℕ) (a : A) (m : AddressMap A)
      → find (insert k a m) j ≡ (if j == k then some (kept (find m k) a) else find m j)
  unfolding find insert
  find-insert k j a [] = ground arith
  find-insert k j a ((i, b) ∷ m) = ground (arith, find-insert k j a m)

  pub find-assign :
      (k j : ℕ) (a : A) (m : AddressMap A)
      → find (assign k a m) j ≡ (if j == k then some a else find m j)
  unfolding find assign
  find-assign k j a [] = ground arith
  find-assign k j a ((i, b) ∷ m) = ground (arith, find-assign k j a m)
