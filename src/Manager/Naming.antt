-- ===== src/Manager/Naming.antt =====
-- The numbering of the interfaces by their names in src/manager.cpp, `initNetmap`.
use Prim.Native.String.{String}
use ariadne.Base.{
  ℕ, ◌≡◌, refl, sym, ap, ◌∙◌, arith, true, false, List, [], ◌∷◌, Option, some, none, Bool-cases,
  inl, inr, same_text, same_text_iff, All,
}
use ariadne.Interface.{Heap, Interface}
use ariadne.Manager.Init.{number_interface}

abbrev pub find_by_name : String → Heap → Option Interface
find_by_name name [] = none
find_by_name name (i ∷ is) = elim (same_text name i.name) [
  | true ↦ some i
  | false ↦ find_by_name name is
]

abbrev later_or : String → Interface → Option Interface → Option Interface
later_or name i found = elim (same_text name i.name) [ true ↦ some i | false ↦ found ]

abbrev with_number : ℕ → Interface → Option Interface
with_number k i = some (record i { netmap_index = k })

-- The interface with the name gets the number; the others are as before.
pub record Numbers (name : String) (k : ℕ) (heap heap' : Heap) (i : Interface) : Type 0 where
  pub numbers : number_interface name k heap ≡ some heap'
  pub numbered : find_by_name name heap' ≡ some (record i { netmap_index = k })
  pub others :
      (other : String)
      → same_text other name ≡ false
      → find_by_name other heap' ≡ find_by_name other heap

pub number_interface-Numbers :
    (name : String) (k : ℕ) (heap : Heap) (i : Interface)
    → find_by_name name heap ≡ some i
    → (heap' : Heap) × Numbers name k heap heap' i
unfolding number_interface
number_interface-Numbers name k [] i h = cc
number_interface-Numbers name k (j ∷ js) i h = elim (Bool-cases (same_text name j.name)) [
  | inl e ↦
      let hit : j ≡ i = ground (arith, e) in
      (
        record j { netmap_index = k } ∷ js,
        record {
          numbers = rw (e, number_interface) refl;
          numbered = rw (e, find_by_name) (ap (with_number k) hit);
          others = λ other n.
              let apart : same_text other j.name ≡ false =
                rw (← (same_text_iff name j.name).0 e) n in
              rw (apart, find_by_name) refl;
        },
      )
  | inr e ↦
      let later : find_by_name name js ≡ some i = ground (arith, e) in
      let (js', r) = number_interface-Numbers name k js i later in
      (
        j ∷ js',
        record {
          numbers = rw (e, number_interface) (rw (r.numbers, number_interface) refl);
          numbered = rw (e, find_by_name) r.numbered;
          others = λ other n. ap (later_or other j) (r.others other n);
        },
      )
]

-- No two names are the same.
abbrev pub Distinct : List String → Type 0
Distinct [] = Unit
Distinct (name ∷ names) = All (λ x. same_text x name ≡ false) names × Distinct names

abbrev pub IsKnown : Heap → String → Type 0
IsKnown heap name = (i : Interface) × (find_by_name name heap ≡ some i)

pub same_text_comm : (a b : String) → same_text a b ≡ false → same_text b a ≡ false
same_text_comm a b h = elim (Bool-cases (same_text b a)) [
  | inr e ↦ e
  | inl e ↦
      let back = (same_text_iff a b).1 (sym ((same_text_iff b a).0 e)) in
      absurd (ground (arith, back))
]

pub All-IsKnown :
    (name : String) (heap heap' : Heap) (names : List String)
    → ((other : String)
        → same_text other name ≡ false
        → find_by_name other heap' ≡ find_by_name other heap)
    → All (λ x. same_text x name ≡ false) names
    → All (IsKnown heap) names
    → All (IsKnown heap') names
All-IsKnown name heap heap' [] same apart known = tt
All-IsKnown name heap heap' (x ∷ names) same apart known =
    let (i, e) = known.0 in
    ((i, same x apart.0 ∙ e), All-IsKnown name heap heap' names same apart.1 known.1)
