-- ===== src/Prelude/Text.antt =====
-- Python's text tests: `str.isspace` of one character, the truth of `s.strip()`, of `s` and of an
-- optional text, `sep.join`, and the text of a number.
use Prim.Native.Nat.{ℕ, zero, suc, ◌/◌, ◌%◌}
use Prim.Native.Char.{code}
use Prim.Native.String.{String}
use Prim.Native.String
use mathlib.Core.Bool.{Bool, true, false, not, ◌&&◌, ◌||◌}
use mathlib.Core.Option.{Option, none, some}
use mathlib.Core.List.{List, [], ◌∷◌}
use text.Mathlib.Text.{◌==◌}
use walter.Prelude.Tests.{leb, ltb, ◌=ℕ=◌, if◌then◌else◌}

-- The code points that Python's `str.strip` removes.
is_space : ℕ → Bool
is_space c =
    (leb 9 c && leb c 13)
    || (leb 28 c && leb c 32)
    || c =ℕ= 0x85
    || c =ℕ= 0xa0
    || c =ℕ= 0x1680
    || (leb 0x2000 c && leb c 0x200a)
    || c =ℕ= 0x2028
    || c =ℕ= 0x2029
    || c =ℕ= 0x202f
    || c =ℕ= 0x205f
    || c =ℕ= 0x3000

-- `bool(s.strip())`: some character is not white space.
unfoldable pub is_substantive : String → Bool
unfolding is_space
is_substantive String.[] = false
is_substantive (String.◌∷◌ c s) = if is_space (code c) then is_substantive s else true

-- `bool(s)`, which is also the constraint `min_length=1` of a text field.
abbrev pub is_nonempty : String → Bool
is_nonempty s = not (s == "")

-- `bool(s)` for `s: str | None`.
abbrev pub is_given : Option String → Bool
is_given none = false
is_given (some s) = is_nonempty s

-- `s == t` for `s: str | None`.
abbrev pub opt_eq : Option String → Option String → Bool
opt_eq none none = true
opt_eq (some s) (some t) = s == t
opt_eq _ _ = false

infixr 65 ◌<>◌
-- Concatenation of texts.
abbrev pub ◌<>◌ : String → String → String
s <> t = String.◌++◌ s t

-- `sep.join(texts)`.
unfoldable pub join : String → List String → String
join sep [] = ""
join sep (s ∷ []) = s
join sep (s ∷ t ∷ rest) = s <> sep <> join sep (t ∷ rest)

digit : ℕ → String
digit n =
    if n =ℕ= 0
    then "0"
    else if n =ℕ= 1
    then "1"
    else if n =ℕ= 2
    then "2"
    else if n =ℕ= 3
    then "3"
    else if n =ℕ= 4
    then "4"
    else if n =ℕ= 5
    then "5"
    else if n =ℕ= 6
    then "6"
    else if n =ℕ= 7
    then "7"
    else if n =ℕ= 8
    then "8"
    else "9"

digits : ℕ → ℕ → String
unfolding digit
digits zero n = ""
digits (suc fuel) n =
    let front = digits fuel (n / 10) in if ltb n 10 then digit n else front <> digit (n % 10)

-- `str(n)`: a number has no more digits than its successor.
unfoldable pub decimal : ℕ → String
unfolding digits
decimal n = digits (suc n) n
