-- ===== src/Prelude/Texts.antt =====
-- The functions of Go's `strings`, `strconv` and `fmt` that the program calls, on the native texts.
pub mod Numerals
pub mod Splits
use Prim.Native.Nat.{ℕ, zero, suc, ◌+◌, ◌-◌, ◌*◌, ◌/◌, ◌%◌, ◌^◌}
use Prim.Native.Char.{Char, code}
use Prim.Native.String.{String, [], ◌∷◌}
use text.Mathlib.Text.{starts_with}
use mathlib.Core.Bool.{Bool, ◌&&◌, ◌||◌}
use mathlib.Core.List.{List}
use mathlib.Core.Option.{Option, none, some}
use mathlib.Core.Path.{◌≡◌, refl}
use ofcir.Prelude.Tests.{ltb, leb, ◌==◌, if◌then◌else◌}
use ofcir.Prelude.Int.{ℤ, pos, negsuc}

unfoldable pub digit : ℕ → Char
digit zero = "0"
digit (suc zero) = "1"
digit (suc (suc zero)) = "2"
digit (suc (suc (suc zero))) = "3"
digit (suc (suc (suc (suc zero)))) = "4"
digit (suc (suc (suc (suc (suc zero))))) = "5"
digit (suc (suc (suc (suc (suc (suc zero)))))) = "6"
digit (suc (suc (suc (suc (suc (suc (suc zero))))))) = "7"
digit (suc (suc (suc (suc (suc (suc (suc (suc zero)))))))) = "8"
digit (suc (suc (suc (suc (suc (suc (suc (suc (suc n))))))))) = "9"

-- the digits of `n` in front of `out`; the fuel `n + 1` covers every round
unfoldable pub digits : ℕ → ℕ → String → String
unfolding digit
digits zero n out = out
digits (suc fuel) n out =
    let rest = digits fuel (n / 10) (digit (n % 10) ∷ out) in if n == 0 then out else rest

-- `%d` of a number that is not negative
unfoldable pub decimal : ℕ → String
decimal n = if n == 0 then "0" else digits (suc n) n []

-- `%d`
unfoldable pub format_d : ℤ → String
format_d (pos n) = decimal n
format_d (negsuc n) = "-" ∷ decimal (suc n)

-- `s + t` of two texts
abbrev pub concat : String → String → String
concat [] t = t
concat (c ∷ s) t = c ∷ concat s t

abbrev pub size : String → ℕ
size [] = 0
size (c ∷ s) = suc (size s)

abbrev pub zeros : ℕ → String → String
zeros zero s = s
zeros (suc k) s = "0" ∷ zeros k s

-- `%04d`: at least four places, the sign included
unfoldable pub format_04d : ℤ → String
format_04d (pos n) = zeros (4 - size (decimal n)) (decimal n)
format_04d (negsuc n) = "-" ∷ zeros (3 - size (decimal (suc n))) (decimal (suc n))

-- the value of a run of decimal digits behind those that make `n`
unfoldable pub scan : String → ℕ → Option ℕ
scan [] n = some n
scan (c ∷ s) n =
    if leb b'0' (code c) && leb (code c) b'9' then scan s (n * 10 + (code c - b'0')) else none

pub unsigned : String → Option ℕ
unfolding scan
unsigned [] = none
unsigned (c ∷ s) = scan (c ∷ s) 0

abbrev in_int64 : Bool → Option ℕ → Option ℤ
in_int64 negative none = none
in_int64 negative (some n) =
    if negative
    then if leb n (2 ^ 63) then some (if n == 0 then pos 0 else negsuc (n - 1)) else none
    else if ltb n (2 ^ 63)
    then some (pos n)
    else none

-- `strconv.Atoi` where `int` has 64 bits; `none` is its error
unfoldable pub atoi : String → Option ℤ
unfolding unsigned
atoi [] = none
atoi (c ∷ s) =
    if code c == b'-'
    then in_int64 Bool.true (unsigned s)
    else if code c == b'+'
    then in_int64 Bool.false (unsigned s)
    else in_int64 Bool.false (unsigned (c ∷ s))

-- `s[strings.LastIndex(s, sep)+1:]`, or `none` where `LastIndex` is -1; `sep` is one ASCII character
unfoldable pub after_last : ℕ → String → Option String
after_last sep [] = none
after_last sep (c ∷ s) = elim (after_last sep s) [
  | some r ↦ some r
  | none ↦ if code c == sep then some s else none
]

abbrev push : Char → List String → List String
push c List.[] = List.◌∷◌ (c ∷ []) List.[]
push c (List.◌∷◌ w ws) = List.◌∷◌ (c ∷ w) ws

-- `strings.Split(s, sep)`; `sep` is one ASCII character
unfoldable pub split : ℕ → String → List String
split sep [] = List.◌∷◌ [] List.[]
split sep (c ∷ s) =
    let rest = split sep s in if code c == sep then List.◌∷◌ [] rest else push c rest

-- `unicode.IsSpace`
is_space : ℕ → Bool
is_space c =
    c == 32
    || (leb 9 c && leb c 13)
    || c == 0x85
    || c == 0xa0
    || c == 0x1680
    || (leb 0x2000 c && leb c 0x200a)
    || c == 0x2028
    || c == 0x2029
    || c == 0x202f
    || c == 0x205f
    || c == 0x3000

trim_left : String → String
unfolding is_space
trim_left [] = []
trim_left (c ∷ s) = if is_space (code c) then trim_left s else c ∷ s

abbrev trim_last : Char → String → String
unfolding is_space
trim_last c [] = if is_space (code c) then [] else c ∷ []
trim_last c (d ∷ s) = c ∷ d ∷ s

trim_right : String → String
unfolding trim_last
trim_right [] = []
trim_right (c ∷ s) = trim_last c (trim_right s)

-- `strings.TrimSpace`
unfoldable pub trim_space : String → String
unfolding trim_left trim_right
trim_space s = trim_right (trim_left s)

-- `strings.Contains(s, part)`
unfoldable pub contains_text : String → String → Bool
contains_text [] part = starts_with [] part
contains_text (c ∷ s) part = starts_with (c ∷ s) part || contains_text s part

-- `strings.Replace(s, "-", "", -1)`
unfoldable pub remove_dashes : String → String
remove_dashes [] = []
remove_dashes (c ∷ s) = let rest = remove_dashes s in if code c == b'-' then rest else c ∷ rest
