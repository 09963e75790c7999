-- ===== src/Prelude/Texts.antt =====
-- Texts that the program builds: decimal numbers, joined lists, ends of texts.
use Prim.Native.Nat.{ℕ, zero, suc, ◌+◌, ◌/◌, ◌%◌}
use Prim.Native.String.{String, ◌++◌ as ◌<>◌}
use mathlib.Core.List.{List, [], ◌∷◌}
use Prim.Native.Char.{Char, code}
use mathlib.Core.Bool.{Bool, true, false, not, ◌&&◌, ◌||◌}
use ovn_fabric.Prelude.Tests.{◌==◌, ltb, leb, str_eq, if◌then◌else◌}

unfoldable pub digit : ℕ → String
digit n =
    if n == 0
    then "0"
    else if n == 1
    then "1"
    else if n == 2
    then "2"
    else if n == 3
    then "3"
    else if n == 4
    then "4"
    else if n == 5
    then "5"
    else if n == 6
    then "6"
    else if n == 7
    then "7"
    else if n == 8
    then "8"
    else "9"

-- `n + 1` digits are always enough.
unfoldable pub show_digits : ℕ → ℕ → String
unfolding digit
show_digits zero n = ""
show_digits (suc fuel) n =
    let rest = show_digits fuel (n / 10) in if ltb n 10 then digit n else rest <> digit (n % 10)

-- Python's `str(n)` of a number that is not negative.
unfoldable pub str : ℕ → String
unfolding show_digits
str n = show_digits (n + 1) n

-- `sep.join(texts)`
unfoldable pub join : String → List String → String
join sep [] = ""
join sep (s ∷ []) = s
join sep (s ∷ t ∷ rest) = s <> (sep <> join sep (t ∷ rest))

-- `s.endswith(end)`. `String` has constructors `[]` and `∷` of its own.
unfoldable pub ends_with : String → String → Bool
ends_with String.[] end = str_eq "" end
ends_with (String.◌∷◌ c s) end =
    let rest = ends_with s end in if str_eq (String.◌∷◌ c s) end then true else rest

is_digit : Char → Bool
is_digit c = leb b'0' (code c) && leb (code c) b'9'

-- `s.isdigit()` for ASCII text: not empty, and digits only.
unfoldable pub all_digits : String → Bool
unfolding is_digit
all_digits String.[] = true
all_digits (String.◌∷◌ c s) = is_digit c && all_digits s

-- `int(s) > 0` of a text of digits: one of them is not 0.
unfoldable pub some_nonzero : String → Bool
some_nonzero String.[] = false
some_nonzero (String.◌∷◌ c s) = not (code c == b'0') || some_nonzero s

-- `s + ("" if s.endswith("\n") else "\n")`
unfoldable pub with_newline : String → String
unfolding ends_with
with_newline s = if ends_with s "\n" then s else s <> "\n"
