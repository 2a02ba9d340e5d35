-- ===== src/Base/Give.antt =====
-- Handing out single units: `out[i] += step` for each of a list of places.
use my_meridian.Base.Tests.{if◌then◌else◌, ◌==◌}
use my_meridian.Base.Lists.{length, get_or, take, All}
use my_meridian.Base.Int.{ℤ, pos, ◌+ℤ◌, sum, int_laws}
use Prim.Native.Nat.add
use native.Mathlib.Nat.{zero-add}
use Prim.Native.Nat.{ℕ, zero, suc, ◌+◌, ◌≤◌, ◌<◌}
use mathlib.Core.Path.{◌≡◌, refl, ap, ◌∙◌}
use mathlib.Core.List.{List, [], ◌∷◌}
use native.Mathlib.Omega.{arith}

-- `out[i] = (out[i] ?? 0) + s`, at an index that is there.
abbrev pub bump : ℕ → ℤ → List ℤ → List ℤ
bump i s [] = []
bump zero s (x ∷ xs) = (x +ℤ s) ∷ xs
bump (suc i) s (x ∷ xs) = x ∷ bump i s xs

abbrev pub give : List ℕ → ℤ → List ℤ → List ℤ
give [] s out = out
give (t ∷ ts) s out = give ts s (bump t s out)

abbrev pub count : ℕ → List ℕ → ℕ
count j [] = 0
count j (t ∷ ts) = (if t == j then 1 else 0) + count j ts

-- n copies of s, added up.
abbrev pub times : ℕ → ℤ → ℤ
times zero s = pos 0
times (suc n) s = s +ℤ times n s

pub length-bump : (i : ℕ) (s : ℤ) (xs : List ℤ) → length (bump i s xs) ≡ length xs
length-bump zero s [] = refl
length-bump (suc i) s [] = refl
length-bump zero s (x ∷ xs) = refl
length-bump (suc i) s (x ∷ xs) = ap suc (length-bump i s xs)

pub sum-bump : (i : ℕ) (s : ℤ) (xs : List ℤ) → i < length xs → sum (bump i s xs) ≡ sum xs +ℤ s
sum-bump i s [] h = elim h [ ]
sum-bump zero s (x ∷ xs) h = omega int_laws
sum-bump (suc i) s (x ∷ xs) h = rw (sum-bump i s xs (omega arith)) (omega int_laws)

pub length-give : (ts : List ℕ) (s : ℤ) (xs : List ℤ) → length (give ts s xs) ≡ length xs
length-give [] s xs = refl
length-give (t ∷ ts) s xs = length-give ts s (bump t s xs) ∙ length-bump t s xs

-- Each unit that is handed out arrives.
pub sum-give :
    (ts : List ℕ) (s : ℤ) (xs : List ℤ)
    → All (λ t. t < length xs) ts
    → sum (give ts s xs) ≡ sum xs +ℤ times (length ts) s
sum-give [] s xs h = omega int_laws
sum-give (t ∷ ts) s xs (h, hs) =
    let hs' : All (λ i. i < length (bump t s xs)) ts = rw (length-bump t s xs) hs in
    rw (sum-give ts s (bump t s xs) hs', sum-bump t s xs h) (omega int_laws)

+ℤ_zero : (s : ℤ) → s +ℤ pos 0 ≡ s
+ℤ_zero s = omega int_laws

==-suc : (i j : ℕ) → (suc i == suc j) ≡ (i == j)
==-suc i j = ground arith

get_or-bump :
    (i j : ℕ) (s : ℤ) (xs : List ℤ)
    → j < length xs
    → get_or (bump i s xs) j (pos 0) ≡ get_or xs j (pos 0) +ℤ times (if i == j then 1 else 0) s
get_or-bump i j s [] h = elim h [ ]
get_or-bump zero zero s (x ∷ xs) h = rw (+ℤ_zero s)
get_or-bump zero (suc j) s (x ∷ xs) h = grind int_laws
get_or-bump (suc i) zero s (x ∷ xs) h = grind int_laws
get_or-bump (suc i) (suc j) s (x ∷ xs) h = rw (get_or-bump i j s xs (omega arith)) (rw (==-suc i j))

times-suc : (m n : ℕ) (s : ℤ) → times (suc m + n) s ≡ s +ℤ times (m + n) s
times-suc m n s = rw (add.suc m n)

pub times-add : (m n : ℕ) (s : ℤ) → times (m + n) s ≡ times m s +ℤ times n s
times-add zero n s = rw zero-add (omega int_laws)
times-add (suc m) n s = rw (times-suc m n s, times-add m n s) (omega int_laws)

-- A place receives as many units as it is named times.
pub get_or-give :
    (ts : List ℕ) (j : ℕ) (s : ℤ) (xs : List ℤ)
    → j < length xs
    → get_or (give ts s xs) j (pos 0) ≡ get_or xs j (pos 0) +ℤ times (count j ts) s
get_or-give [] j s xs h = omega int_laws
get_or-give (t ∷ ts) j s xs h =
    rw
      (
        get_or-give ts j s (bump t s xs) (rw (length-bump t s xs) h),
        get_or-bump t j s xs h,
        times-add (if t == j then 1 else 0) (count j ts) s,
      )
      (omega int_laws)

pub count-take-le : (n j : ℕ) (ts : List ℕ) → count j (take n ts) ≤ count j ts
count-take-le zero j ts = omega arith
count-take-le (suc n) j [] = omega arith
count-take-le (suc n) j (t ∷ ts) = omega (arith, count-take-le n j ts)
