-- ===== src/CostHistory/Instants.antt =====
-- Lists of instants in app/engine/cost-history.ts: duplicates dropped and sorted, as its breakpoints are.
use my_meridian.Base.{
  ◌≤◌, ◌≡◌, sym, inl, inr, true, false, List, [], ◌∷◌, ◌==◌, leb, arith, Bool-cases, All, All-imp,
  ==_iff,
}
use my_meridian.Base.Sort.{sort, insert_sorted, insert_sorted-All}
use my_meridian.CostHistory.{Instant, contains, distinct}
use mathlib.Core.Path.{subst}

module _ (P : Instant → Type 0) where
  insert_sorted-All_inv :
      (a : Instant) (xs : List Instant) → All P (insert_sorted leb a xs) → P a × All P xs
  insert_sorted-All_inv a [] h = h
  insert_sorted-All_inv a (x ∷ xs) h = elim (Bool-cases (leb a x)) [
    | inl first ↦ rw first at h
    | inr later ↦
        let h' : All P (x ∷ insert_sorted leb a xs) = rw later at h in
        let (p, q) = insert_sorted-All_inv a xs h'.1 in (p, (h'.0, q))
  ]

  pub sort-All_inv : (xs : List Instant) → All P (sort leb xs) → All P xs
  sort-All_inv [] h = tt
  sort-All_inv (x ∷ xs) h =
      let (p, q) = insert_sorted-All_inv x (sort leb xs) h in (p, sort-All_inv xs q)

  contains-All : (t : Instant) (xs : List Instant) → contains t xs ≡ true → All P xs → P t
  contains-All t [] h a = absurd (false-ne-true h)
    where
      false-ne-true : false ≡ true → ⊥
      false-ne-true e = cc
  contains-All t (x ∷ xs) h a = elim (Bool-cases (t == x)) [
    | inl same ↦ subst P (sym ((==_iff t x).0 same)) a.0
    | inr other ↦ contains-All t xs (rw other at h) a.1
  ]

  pub distinct-All_inv : (seen xs : List Instant) → All P (distinct seen xs) → All P seen → All P xs
  unfolding distinct
  distinct-All_inv seen [] h s = tt
  distinct-All_inv seen (x ∷ xs) h s = elim (Bool-cases (contains x seen)) [
    | inl old ↦ (contains-All x seen old s, distinct-All_inv seen xs (rw old at h) s)
    | inr new ↦
        let h' : All P (x ∷ distinct (x ∷ seen) xs) = rw new at h in
        (h'.0, distinct-All_inv (x ∷ seen) xs h'.1 (h'.0, s))
  ]

abbrev pub Sorted : List Instant → Type 0
Sorted [] = Unit
Sorted (x ∷ xs) = All (λ (y : Instant). x ≤ y) xs × Sorted xs

insert_sorted-Sorted :
    (a : Instant) (xs : List Instant) → Sorted xs → Sorted (insert_sorted leb a xs)
insert_sorted-Sorted a [] s = (tt, tt)
insert_sorted-Sorted a (x ∷ xs) s = elim (Bool-cases (leb a x)) [
  | inl first ↦
      let le : a ≤ x = ground arith in
      rw first (
        (le, All-imp (λ (y : Instant). x ≤ y) (λ (y : Instant). a ≤ y) xs (λ y h. omega arith) s.0),
        s,
      )
  | inr later ↦
      let le : x ≤ a = ground arith in
      rw later
        (insert_sorted-All leb (λ (y : Instant). x ≤ y) a xs le s.0, insert_sorted-Sorted a xs s.1)
]

pub sort-Sorted : (xs : List Instant) → Sorted (sort leb xs)
sort-Sorted [] = tt
sort-Sorted (x ∷ xs) = insert_sorted-Sorted x (sort leb xs) (sort-Sorted xs)
