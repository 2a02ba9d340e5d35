-- ===== src/Base/Text.antt =====
-- Texts as lists of UTF-16 code units, and what the code uses of JavaScript's strings: `trim`,
-- `split`, `slice`, `padStart`, `includes`, a word of a pattern, `String` and `Number` of integers.
use my_meridian.Base.Tests.{if◌then◌else◌, leb, ◌==◌}
use my_meridian.Base.Lists.{length, replicate}
use my_meridian.Base.Int.{ℤ, pos, ◌-ℤ◌}
use my_meridian.Base.Keys.{Eq}
use Prim.Native.Nat.{ℕ, zero, suc, ◌+◌, ◌-◌, ◌*◌, ◌/◌, ◌%◌}
use Prim.Native.Char.{code}
use Prim.Native.String.{String}
use mathlib.Core.Path.{◌≡◌}
use mathlib.Core.Logic.{◌↔◌}
use mathlib.Core.Bool.{Bool, true, false, not, ◌&&◌, ◌||◌}
use mathlib.Core.Option.{Option, none, some}
use mathlib.Core.List.{List, [], ◌∷◌, ◌++◌}
use native.Mathlib.Omega.{arith}

abbrev pub Text : Type 0
Text = List ℕ

-- The code units of a literal, which is ASCII.
abbrev pub codes : String → Text
codes String.[] = []
codes (String.◌∷◌ c s) = code c ∷ codes s

abbrev pub text_beq : Text → Text → Bool
text_beq [] [] = true
text_beq [] (b ∷ t) = false
text_beq (a ∷ s) [] = false
text_beq (a ∷ s) (b ∷ t) = (a == b) && text_beq s t

pub text_beq_iff : (s t : Text) → (text_beq s t ≡ true) ↔ (s ≡ t)
text_beq_iff [] [] = ground arith
text_beq_iff [] (b ∷ t) = ground arith
text_beq_iff (a ∷ s) [] = ground arith
text_beq_iff (a ∷ s) (b ∷ t) = ground (arith, text_beq_iff s t)

instance abbrev pub text_eq : Eq Text
text_eq = record { beq = text_beq; beq_iff = text_beq_iff }

abbrev pub is_empty : Text → Bool
is_empty [] = true
is_empty (c ∷ s) = false

-- White space and line ends, as `trim` and `Number` strip them.
unfoldable pub is_space : ℕ → Bool
is_space c =
    (leb 9 c && leb c 13)
    || c == 32
    || c == 160
    || c == 5760
    || (leb 8192 c && leb c 8202)
    || c == 8232
    || c == 8233
    || c == 8239
    || c == 8287
    || c == 12288
    || c == 65279

abbrev pub is_digit : ℕ → Bool
is_digit c = leb 48 c && leb c 57

-- `\w`
abbrev pub is_word : ℕ → Bool
is_word c = is_digit c || (leb 65 c && leb c 90) || c == 95 || (leb 97 c && leb c 122)

unfoldable pub trim_start : Text → Text
unfolding is_space
trim_start [] = []
trim_start (c ∷ s) = let rest = trim_start s in if is_space c then rest else c ∷ s

unfoldable pub trim_end : Text → Text
unfolding is_space
trim_end [] = []
trim_end (c ∷ s) = let rest = trim_end s in if is_space c && is_empty rest then [] else c ∷ rest

unfoldable pub trim : Text → Text
unfolding trim_start trim_end
trim s = trim_end (trim_start s)

abbrev pub push_first : ℕ → List Text → List Text
push_first c [] = (c ∷ []) ∷ []
push_first c (p ∷ ps) = (c ∷ p) ∷ ps

-- `s.split(c)`, at a single character
abbrev pub split : ℕ → Text → List Text
split c [] = [] ∷ []
split c (d ∷ s) = let rest = split c s in if d == c then [] ∷ rest else push_first d rest

-- `parts[i] ?? d`
abbrev pub piece : List Text → ℕ → Text → Text
piece [] i d = d
piece (p ∷ ps) zero d = p
piece (p ∷ ps) (suc i) d = piece ps i d

-- `s.padEnd(n, "0")`, and `s.padStart(n, "0")`
abbrev pub pad_end : ℕ → Text → Text
pad_end n s = s ++ replicate (n - length s) 48

abbrev pub pad_start : ℕ → Text → Text
pad_start n s = replicate (n - length s) 48 ++ s

abbrev pub starts_with : Text → Text → Bool
starts_with s [] = true
starts_with [] (p ∷ ps) = false
starts_with (c ∷ s) (p ∷ ps) = (c == p) && starts_with s ps

abbrev pub drop : ℕ → Text → Text
drop zero s = s
drop (suc n) [] = []
drop (suc n) (c ∷ s) = drop n s

-- `s.includes(p)`, or a search for the pattern p of plain characters.
abbrev pub includes : Text → Text → Bool
includes p [] = is_empty p
includes p (c ∷ s) = starts_with (c ∷ s) p || includes p s

abbrev pub starts_word : Text → Bool
starts_word [] = false
starts_word (c ∷ s) = is_word c

-- The pattern `\bw\b` of a word w, from a place whose character before is a word's or not.
abbrev pub has_word_from : Bool → Text → Text → Bool
has_word_from inside w [] = false
has_word_from inside w (c ∷ s) =
    (not inside && starts_with (c ∷ s) w && not (starts_word (drop (length w) (c ∷ s))))
    || has_word_from (is_word c) w s

abbrev pub has_word : Text → Text → Bool
has_word = has_word_from false

-- The decimal digits of n before a text, on fuel that n bounds.
unfoldable pub digits_before : ℕ → ℕ → Text → Text
digits_before zero n out = out
digits_before (suc fuel) n out =
    let rest = digits_before fuel (n / 10) ((48 + n % 10) ∷ out) in if n == 0 then out else rest

-- `String(n)`, for an integer n that is not negative.
unfoldable pub decimal : ℕ → Text
unfolding digits_before
decimal n = if n == 0 then 48 ∷ [] else digits_before n n []

-- Digits up to the end, behind a number that was read; anything else is not a number.
unfoldable pub read_digits : Text → ℕ → Option ℕ
read_digits [] n = some n
read_digits (c ∷ s) n =
    let rest = read_digits s (n * 10 + (c - 48)) in if is_digit c then rest else none

-- One digit or more.
unfoldable pub read_natural : Text → Option ℕ
unfolding read_digits
read_natural [] = none
read_natural (c ∷ s) = read_digits (c ∷ s) 0

unfoldable pub read_signed : Text → Option ℤ
unfolding read_natural
read_signed [] = some (pos 0)
read_signed (c ∷ s) =
    if c == 45
    then elim (read_natural s) [ none ↦ none | some n ↦ some (pos 0 -ℤ pos n) ]
    else if c == 43
    then elim (read_natural s) [ none ↦ none | some n ↦ some (pos n) ]
    else elim (read_natural (c ∷ s)) [ none ↦ none | some n ↦ some (pos n) ]

-- `Number(s)` of a text that spells an integer, or is empty; `none` for NaN and the infinities.
unfoldable pub number : Text → Option ℤ
unfolding trim read_signed
number s = read_signed (trim s)
