-- ===== src/TaxText/Digits.antt =====
-- Decimal digits are written by `String` and read again by `Number` (app/engine/tax.ts, money.ts).
use my_meridian.Base.{
  ℕ, zero, suc, ◌+◌, ◌/◌, ◌%◌, ◌≤◌, ◌<◌, ◌≡◌, ◌≢◌, refl, ap, ◌∙◌, false, ◌==◌, some, [], ◌∷◌, ◌++◌,
  All, All-imp, arith, true-ne-false, ltb, ltb→lt, Bool-cases, inl, inr,
}
use my_meridian.Base.Int.{pos}
use my_meridian.Base.Text.{
  Text, is_space, is_empty, trim, trim_start, trim_end, split, pad_start, digits_before, decimal,
  read_digits, number,
}

abbrev pub IsDigit : ℕ → Type 0
IsDigit c = (48 ≤ c) × (c ≤ 57)

abbrev pub NotSpace : ℕ → Type 0
NotSpace c = is_space c ≡ false

pub digit-NotSpace : (c : ℕ) → IsDigit c → NotSpace c
unfolding is_space
digit-NotSpace c h = ground arith

-- Reading the digits of n before a text is reading that text behind n.
read_digits-digits_before :
    (fuel n : ℕ) (out : Text)
    → n ≤ fuel
    → read_digits (digits_before fuel n out) 0 ≡ read_digits out n
unfolding digits_before read_digits
read_digits-digits_before zero n out h = ground arith
read_digits-digits_before (suc fuel) n out h =
    ground (arith, read_digits-digits_before fuel (n / 10) ((48 + n % 10) ∷ out))

digits_before-digits :
    (fuel n : ℕ) (out : Text) → All IsDigit out → All IsDigit (digits_before fuel n out)
unfolding digits_before
digits_before-digits zero n out h = h
digits_before-digits (suc fuel) n out h = elim (Bool-cases (n == 0)) [
  | inl done ↦ rw done h
  | inr more ↦
      rw more
        (digits_before-digits fuel (n / 10) ((48 + n % 10) ∷ out) ((omega arith, omega arith), h))
]

pub decimal-digits : (n : ℕ) → All IsDigit (decimal n)
unfolding decimal
decimal-digits n = elim (Bool-cases (n == 0)) [
  | inl z ↦ rw z ((omega arith, omega arith), tt)
  | inr more ↦ rw more (digits_before-digits n n [] tt)
]

pub read_digits-decimal : (n : ℕ) → read_digits (decimal n) 0 ≡ some n
unfolding decimal read_digits
read_digits-decimal n = ground (arith, read_digits-digits_before n n [])

digits_before-nonempty :
    (fuel n : ℕ) (out : Text) → is_empty out ≡ false → is_empty (digits_before fuel n out) ≡ false
unfolding digits_before
digits_before-nonempty zero n out h = h
digits_before-nonempty (suc fuel) n out h = elim (Bool-cases (n == 0)) [
  | inl done ↦ rw done h
  | inr more ↦ rw more (digits_before-nonempty fuel (n / 10) ((48 + n % 10) ∷ out) refl)
]

digits_before_some :
    (fuel n : ℕ) (out : Text) → n ≢ 0 → n ≤ fuel → is_empty (digits_before fuel n out) ≡ false
unfolding digits_before
digits_before_some zero n out h f = absurd (h (omega arith))
digits_before_some (suc fuel) n out h f =
    let more : (n == 0) ≡ false = ground arith in
    rw more (digits_before-nonempty fuel (n / 10) ((48 + n % 10) ∷ out) refl)

pub decimal-nonempty : (n : ℕ) → is_empty (decimal n) ≡ false
unfolding decimal
decimal-nonempty n = elim (Bool-cases (n == 0)) [
  | inl z ↦ rw z refl
  | inr more ↦ rw more (digits_before_some n n [] (ground arith) (omega arith))
]

trim_start-kept : (s : Text) → All NotSpace s → trim_start s ≡ s
unfolding trim_start
trim_start-kept [] h = refl
trim_start-kept (c ∷ s) (h, hs) = rw h refl

trim_end-kept : (s : Text) → All NotSpace s → trim_end s ≡ s
unfolding trim_end
trim_end-kept [] h = refl
trim_end-kept (c ∷ s) (h, hs) = rw (h, trim_end-kept s hs) refl

-- A text with no white space is not trimmed.
pub trim-kept : (s : Text) → All NotSpace s → trim s ≡ s
unfolding trim
trim-kept s h = rw (trim_start-kept s h, trim_end-kept s h) refl

pub number-digits :
    (s : Text) (n : ℕ)
    → All IsDigit s
    → is_empty s ≡ false
    → read_digits s 0 ≡ some n
    → number s ≡ some (pos n)
unfolding number
number-digits [] n h e r = absurd (true-ne-false e)
number-digits (c ∷ s) n h e r =
    let plain = All-imp IsDigit NotSpace (c ∷ s) digit-NotSpace h in
    let minus : (c == 45) ≡ false = ground (arith, h) in
    let plus : (c == 43) ≡ false = ground (arith, h) in
    rw (trim-kept (c ∷ s) plain) (rw (minus, plus, r) refl)

-- `Number(String(n))`
pub number-decimal : (n : ℕ) → number (decimal n) ≡ some (pos n)
number-decimal n =
    number-digits (decimal n) n (decimal-digits n) (decimal-nonempty n) (read_digits-decimal n)

digits_before-zero : (fuel : ℕ) (out : Text) → digits_before fuel 0 out ≡ out
unfolding digits_before
digits_before-zero zero out = refl
digits_before-zero (suc fuel) out = refl

digits_before-step :
    (fuel n : ℕ) (out : Text)
    → n ≢ 0
    → digits_before (suc fuel) n out ≡ digits_before fuel (n / 10) ((48 + n % 10) ∷ out)
unfolding digits_before
digits_before-step fuel n out h = let more : (n == 0) ≡ false = ground arith in rw more refl

one_digit :
    (fuel n : ℕ) (out : Text)
    → n ≢ 0
    → n ≤ fuel
    → n < 10
    → digits_before fuel n out ≡ (48 + n % 10) ∷ out
one_digit zero n out h f small = absurd (h (omega arith))
one_digit (suc fuel) n out h f small =
    let none_left : n / 10 ≡ 0 = omega arith in
    digits_before-step fuel n out h ∙ rw none_left (digits_before-zero fuel ((48 + n % 10) ∷ out))

two_digits :
    (fuel n : ℕ)
    → n ≤ fuel
    → 10 ≤ n
    → n < 100
    → digits_before fuel n [] ≡ (48 + n / 10) ∷ (48 + n % 10) ∷ []
two_digits zero n f large h = absurd (omega arith)
two_digits (suc fuel) n f large h =
    let tens : n / 10 % 10 ≡ n / 10 = omega arith in
    digits_before-step fuel n [] (omega arith)
    ∙ one_digit fuel (n / 10) ((48 + n % 10) ∷ []) (omega arith) (omega arith) (omega arith)
    ∙ rw tens refl

decimal-positive : (n : ℕ) → n ≢ 0 → decimal n ≡ digits_before n n []
unfolding decimal
decimal-positive n h = let more : (n == 0) ≡ false = ground arith in rw more refl

-- Two digits, for a number below a hundred.
pub pad_start-decimal :
    (r : ℕ) → r < 100 → pad_start 2 (decimal r) ≡ (48 + r / 10) ∷ (48 + r % 10) ∷ []
unfolding decimal
pad_start-decimal zero h = refl
pad_start-decimal (suc k) h =
    let n = suc k in
    let written = decimal-positive n (omega arith) in
    elim (Bool-cases (ltb n 10)) [
      | inl small ↦
          let below = ltb→lt n 10 small in
          let tens : 0 ≡ n / 10 = omega arith in
          ap (pad_start 2) (written ∙ one_digit n n [] (omega arith) (omega arith) below)
          ∙ ap (λ t. (48 + t) ∷ (48 + n % 10) ∷ []) tens
      | inr large ↦ ap (pad_start 2) (written ∙ two_digits n n (omega arith) (ground arith) h)
    ]

split_kept : (s : Text) → All IsDigit s → split 46 s ≡ s ∷ []
split_kept [] h = refl
split_kept (c ∷ s) (h, hs) =
    let other : (c == 46) ≡ false = ground (arith, h) in rw (other, split_kept s hs) refl

pub split-point :
    (s t : Text) → All IsDigit s → All IsDigit t → split 46 (s ++ (46 ∷ t)) ≡ s ∷ t ∷ []
split-point [] t h ht = rw (split_kept t ht) refl
split-point (c ∷ s) t (h, hs) ht =
    let other : (c == 46) ≡ false = ground (arith, h) in rw (other, split-point s t hs ht) refl
