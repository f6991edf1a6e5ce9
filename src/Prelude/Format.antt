-- ===== src/Prelude/Format.antt =====
-- What the source uses of the packages `fmt` and `strings`: `%d`, `%s`, `%v` of a list of texts,
-- and `strings.Join`.
use Prim.Native.Nat.{ℕ, zero, suc, ◌-◌, ◌/◌, ◌%◌, ◌^◌}
use Prim.Native.String.{String, ◌++◌ as str_append}
use mathlib.Core.List.{List, [], ◌∷◌}
use node_readiness_controlle.Prelude.Tests.{ltb, nat_eq, if◌then◌else◌}

-- Texts one after the other, as a format string lays them out.
unfoldable pub concat : List String → String
concat [] = ""
concat (s ∷ r) = str_append s (concat r)

-- `strings.Join`
unfoldable pub join : String → List String → String
join sep [] = ""
join sep (s ∷ []) = s
join sep (s ∷ t ∷ r) = str_append s (str_append sep (join sep (t ∷ r)))

-- `%v` of a slice of texts
unfoldable pub show_texts : List String → String
unfolding concat join
show_texts xs = concat ("[" ∷ join " " xs ∷ "]" ∷ [])

abbrev digit : ℕ → String
digit n =
    if nat_eq n 0
    then "0"
    else if nat_eq n 1
    then "1"
    else if nat_eq n 2
    then "2"
    else if nat_eq n 3
    then "3"
    else if nat_eq n 4
    then "4"
    else if nat_eq n 5
    then "5"
    else if nat_eq n 6
    then "6"
    else if nat_eq n 7
    then "7"
    else if nat_eq n 8
    then "8"
    else "9"

-- The digits of a number below `10 ^ fuel`.
decimal_from : ℕ → ℕ → String
decimal_from zero n = ""
decimal_from (suc fuel) n =
    let more = str_append (decimal_from fuel (n / 10)) (digit (n % 10)) in
    if ltb n 10 then digit n else more

-- `%d` of an int32 given by its bit pattern: ten digits are enough below 2 ^ 32.
unfoldable pub show_int32 : ℕ → String
unfolding decimal_from
show_int32 n =
    if ltb n (2 ^ 31) then decimal_from 10 n else str_append "-" (decimal_from 10 (2 ^ 32 - n))
