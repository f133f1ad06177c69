-- ===== src/Prelude/Text.antt =====
-- `str(n)`: the decimal text of a number.
use Prim.Native.Nat.{ℕ, zero, suc, ◌+◌, ◌/◌, ◌%◌}
use Prim.Native.Char.{code}
use Prim.Native.String.{String, ◌++◌}
use mathlib.Core.List.{List}
use mathlib.Core.Option.{Option, none, some}
use mathlib.Core.Bool.{Bool, true, false}
use wakey.Prelude.Tests.{eqb, ltb, if◌then◌else◌}

digit : ℕ → String
digit d =
    if eqb d 0
    then "0"
    else if eqb d 1
    then "1"
    else if eqb d 2
    then "2"
    else if eqb d 3
    then "3"
    else if eqb d 4
    then "4"
    else if eqb d 5
    then "5"
    else if eqb d 6
    then "6"
    else if eqb d 7
    then "7"
    else if eqb d 8
    then "8"
    else "9"

-- The fuel is above the number of digits: each round divides by ten.
digits : ℕ → ℕ → String
digits zero n = ""
digits (suc fuel) n =
    let more = digits fuel (n / 10) ++ digit (n % 10) in if ltb n 10 then digit n else more

unfoldable pub str : ℕ → String
unfolding digits digit
str n = digits (n + 1) n

-- `s[:n]`
unfoldable pub take_chars : ℕ → String → String
take_chars zero s = String.[]
take_chars (suc n) String.[] = String.[]
take_chars (suc n) (String.◌∷◌ c s) = String.◌∷◌ c (take_chars n s)

-- the rest of a text behind a prefix
unfoldable pub strip : String → String → Option String
strip String.[] s = some s
strip (String.◌∷◌ c p) String.[] = none
strip (String.◌∷◌ c p) (String.◌∷◌ d s) = if eqb (code c) (code d) then strip p s else none

abbrev is_some : {A : Type 0} → Option A → Bool
is_some none = false
is_some (some a) = true

-- `s.removeprefix(p)`
unfoldable pub remove_prefix : String → String → String
unfolding strip
remove_prefix p s = elim (strip p s) [ none ↦ s | some rest ↦ rest ]

-- `separator.join(pieces)`
unfoldable pub join : String → List String → String
join separator List.[] = ""
join separator (List.◌∷◌ s List.[]) = s
join separator (List.◌∷◌ s (List.◌∷◌ t ts)) = s ++ (separator ++ join separator (List.◌∷◌ t ts))

-- `p in s`
unfoldable pub contains : String → String → Bool
unfolding strip
contains p String.[] = is_some (strip p String.[])
contains p (String.◌∷◌ c s) =
    let rest = contains p s in if is_some (strip p (String.◌∷◌ c s)) then true else rest
