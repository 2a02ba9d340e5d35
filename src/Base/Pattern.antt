-- ===== src/Base/Pattern.antt =====
-- The regular expressions of the code, matched as `RegExp.prototype.exec` does: from the leftmost
-- place where there is a match, greedily, with backtracking, and with one group.
use my_meridian.Base.Tests.{if◌then◌else◌, leb, ◌==◌}
use my_meridian.Base.Lists.{length, take}
use my_meridian.Base.Text.{Text, is_word}
use Prim.Native.Nat.{ℕ, ◌+◌, ◌-◌}
use mathlib.Core.Bool.{Bool, true, false, not, ◌&&◌, ◌||◌}
use mathlib.Core.Option.{Option, none, some}
use mathlib.Core.List.{[], ◌∷◌}

pub data Pattern : Type 0 where
  one : (ℕ → Bool) → Pattern
  many : (ℕ → Bool) → Pattern
  any : (ℕ → Bool) → Pattern
  optional : (ℕ → Bool) → Pattern
  then_ : Pattern → Pattern → Pattern
  either_ : Pattern → Pattern → Pattern
  group : Pattern → Pattern
  at_end : Pattern
  boundary : Pattern

-- What is left of the text after a match, and what its group took.
pub record Matched : Type 0 where
  pub left_over : Text
  pub taken : Option Text

-- How the rest of a pattern goes on: after a character that is a word's or not, on a text.
abbrev pub Goes : Type 0
Goes = Bool → Text → Option Text → Option Matched

abbrev pub first_of : Option Matched → Option Matched → Option Matched
first_of none other = other
first_of (some m) other = some m

-- As many characters of a class as go on.
unfoldable pub run_many : (ℕ → Bool) → Goes → Bool → Text → Option Text → Option Matched
run_many p k inside [] taken = k inside [] taken
run_many p k inside (c ∷ s) taken =
    let longer = run_many p k (is_word c) s taken in
    let here = k inside (c ∷ s) taken in if p c then first_of longer here else here

unfoldable pub run_one : (ℕ → Bool) → Goes → Goes
run_one p k inside [] taken = none
run_one p k inside (c ∷ s) taken = if p c then k (is_word c) s taken else none

abbrev pub starts_inside : Text → Bool
starts_inside [] = false
starts_inside (c ∷ s) = is_word c

abbrev pub differ : Bool → Bool → Bool
differ true b = not b
differ false b = b

unfoldable pub run : Pattern → Goes → Goes
unfolding run_many run_one
run (one p) k = run_one p k
run (many p) k = λ inside s taken. run_one p (run_many p k) inside s taken
run (any p) k = run_many p k
run (optional p) k = λ inside s taken. first_of (run_one p k inside s taken) (k inside s taken)
run (then_ a b) k = run a (run b k)
run (either_ a b) k = λ inside s taken. first_of (run a k inside s taken) (run b k inside s taken)
run (group a) k = λ inside s taken.
    run a (λ after t _. k after t (some (take (length s - length t) s))) inside s taken
run at_end k = λ inside s taken. at_end_of s (k inside s taken)
  where
    at_end_of : Text → Option Matched → Option Matched
    at_end_of [] m = m
    at_end_of (c ∷ s) m = none
run boundary k =
    λ inside s taken. if differ inside (starts_inside s) then k inside s taken else none

-- `found.index`, `found[0]` and `found[1]`
pub record Found : Type 0 where
  pub found_index : ℕ
  pub found_text : Text
  pub found_group : Option Text

abbrev pub ends_here : Goes
ends_here inside s taken = some (record { left_over = s; taken = taken })

abbrev pub found_at : ℕ → Text → Option Matched → Option Found → Option Found
found_at i s none later = later
found_at i s (some m) later = some (record {
  found_index = i;
  found_text = take (length s - length m.left_over) s;
  found_group = m.taken;
})

unfoldable pub exec_from : Pattern → ℕ → Bool → Text → Option Found
unfolding run
exec_from p i inside [] = found_at i [] (run p ends_here inside [] none) none
exec_from p i inside (c ∷ s) =
    found_at i (c ∷ s) (run p ends_here inside (c ∷ s) none) (exec_from p (i + 1) (is_word c) s)

-- `pattern.exec(s)`
unfoldable pub exec : Pattern → Text → Option Found
unfolding exec_from
exec p s = exec_from p 0 false s

-- A letter of either case, by its capital; a text of such letters; and a set of characters.
abbrev pub letter : ℕ → ℕ → Bool
letter capital c = c == capital || (leb 65 capital && leb capital 90 && c == capital + 32)

abbrev pub word : Text → Pattern → Pattern
word [] rest = rest
word (c ∷ s) rest = then_ (one (letter c)) (word s rest)

abbrev pub one_of : Text → ℕ → Bool
one_of [] c = false
one_of (d ∷ s) c = c == d || one_of s c
