-- ===== src/Prelude/Text.antt =====
-- Texts: formatted strings, decimal numbers, and the string methods of Python that the code uses.
use Prim.Native.Nat.{ℕ, zero, suc, ◌-◌, ◌/◌, ◌%◌}
use Prim.Native.String.{String}
use Prim.Native.String
use mathlib.Core.Path.{◌≡◌, refl, sym, subst}
use mathlib.Core.Logic.{inl, inr}
use mathlib.Core.Bool.{Bool, true, false, ◌||◌}
use mathlib.Core.List.{List, [], ◌∷◌}
use mathlib.Core.Option.{none, some}
use text.Mathlib.Text.{◌==◌, find?}
use sc_tpcrs.Prelude.Tests.{ltb, nat_eq, if◌then◌else◌, Bool-cases, str_eq_of}
use sc_tpcrs.Prelude.Lists.{All}

-- The parts of an f-string, joined.
abbrev pub fstring : List String → String
fstring [] = ""
fstring (s ∷ parts) = String.◌++◌ s (fstring parts)

abbrev digit : ℕ → String
digit n =
    if nat_eq n 0
    then "0"
    else if nat_eq n 1
    then "1"
    else if nat_eq n 2
    then "2"
    else if nat_eq n 3
    then "3"
    else if nat_eq n 4
    then "4"
    else if nat_eq n 5
    then "5"
    else if nat_eq n 6
    then "6"
    else if nat_eq n 7
    then "7"
    else if nat_eq n 8
    then "8"
    else "9"

-- A number has fewer digits than its successor, so that is fuel enough.
decimal_fuel : ℕ → ℕ → String
decimal_fuel zero n = ""
decimal_fuel (suc f) n =
    let longer = String.◌++◌ (decimal_fuel f (n / 10)) (digit (n % 10)) in
    if ltb n 10 then digit n else longer

-- `str(n)`.
unfoldable pub decimal : ℕ → String
unfolding decimal_fuel
decimal n = decimal_fuel (suc n) n

zeros : ℕ → String
zeros zero = ""
zeros (suc n) = String.◌++◌ "0" (zeros n)

-- `f"{n:0{width}d}"`.
unfoldable pub zero_padded : ℕ → ℕ → String
unfolding zeros decimal
zero_padded width n = String.◌++◌ (zeros (width - String.len (decimal n))) (decimal n)

-- `a or b` on texts: the empty text is falsy.
abbrev pub text_or : String → String → String
text_or a b = if a == "" then b else a

-- `t in s`.
abbrev pub contains_text : String → String → Bool
contains_text s t = elim (find? s t) [ none ↦ false | some _ ↦ true ]

-- `s.endswith(t)`.
abbrev pub ends_with : String → String → Bool
ends_with s t = String.slice s (String.len s - String.len t) (String.len s) == t

ends_with_example : ends_with "cve.alerts" "alerts" ≡ true
ends_with_example = refl

ends_with_longer : ends_with "alerts" "cve.alerts" ≡ false
ends_with_longer = refl

pad_example : zero_padded 6 42 ≡ "000042"
unfolding zero_padded
pad_example = refl

decimal_example : decimal 1700000000 ≡ "1700000000"
unfolding decimal
decimal_example = refl

-- `s in (t₁, t₂, …)`.
abbrev pub one_of : String → List String → Bool
one_of s [] = false
one_of s (t ∷ ts) = s == t || one_of s ts

-- A predicate that holds of each text of a list holds of every text that the list has.
pub one_of-All {κ} :
    (P : String → Type κ) (s : String) (ts : List String) → All P ts → one_of s ts ≡ true → P s
one_of-All P s [] h e = cc
one_of-All P s (t ∷ ts) h e = elim (Bool-cases (s == t)) [
  | inl same ↦ subst P (sym (str_eq_of s t same)) h.0
  | inr other ↦ one_of-All P s ts h.1 (rw other at e)
]
