-- ===== src/Base/Text.antt =====
-- What the code uses of `str`: trimming, prefixes, the piece before a separator; and numbers in decimal.
pub mod Laws
use Prim.Native.Nat.{ℕ, zero, suc, ◌+◌, ◌-◌, ◌*◌, ◌/◌, ◌%◌}
use Prim.Native.Char.{Char, code}
use Prim.Native.String
use Prim.Native.String.{String}
use mathlib.Core.Bool.{Bool, true, false, ◌&&◌, ◌||◌}
use mathlib.Core.Option.{Option, none, some}
use mathlib.Core.List.{List, [], ◌∷◌}
use native.Mathlib.Omega.{arith}
use trust_registry_build_pip.Base.Defs.{
  PartialEq, ◌==◌, nat_eq, if◌then◌else◌, leb, ltb, contains, Result, ok, err,
}

-- `char::is_whitespace`: the code points with the property White_Space.
abbrev pub is_whitespace : ℕ → Bool
is_whitespace c =
    leb 9 c && leb c 13
    || contains (32 ∷ 133 ∷ 160 ∷ 5760 ∷ 8232 ∷ 8233 ∷ 8239 ∷ 8287 ∷ 12288 ∷ []) c
    || leb 8192 c && leb c 8202

abbrev pub is_empty : String → Bool
is_empty String.[] = true
is_empty (String.◌∷◌ c s) = false

-- `trim_start_matches` and `trim_end_matches`
unfoldable pub trim_start_matches : (ℕ → Bool) → String → String
trim_start_matches p String.[] = ""
trim_start_matches p (String.◌∷◌ c s) =
    let rest = trim_start_matches p s in if p (code c) then rest else String.◌∷◌ c s

unfoldable pub trim_end_matches : (ℕ → Bool) → String → String
trim_end_matches p String.[] = ""
trim_end_matches p (String.◌∷◌ c s) =
    let rest = trim_end_matches p s in if is_empty rest && p (code c) then "" else String.◌∷◌ c rest

abbrev pub trim : String → String
trim s = trim_end_matches is_whitespace (trim_start_matches is_whitespace s)

-- `strip_prefix`, with the prefix first
unfoldable pub strip_prefix : String → String → Option String
strip_prefix String.[] s = some s
strip_prefix (String.◌∷◌ c p) String.[] = none
strip_prefix (String.◌∷◌ c p) (String.◌∷◌ d s) =
    let rest = strip_prefix p s in if code c == code d then rest else none

-- The first piece of `split` at any of the separators.
unfoldable pub split_first : List ℕ → String → String
split_first separators String.[] = ""
split_first separators (String.◌∷◌ c s) =
    let rest = split_first separators s in
    if contains separators (code c) then "" else String.◌∷◌ c rest

abbrev nth : List String → ℕ → String
nth [] n = ""
nth (s ∷ ss) zero = s
nth (s ∷ ss) (suc n) = nth ss n

abbrev digit : ℕ → String
digit = nth ("0" ∷ "1" ∷ "2" ∷ "3" ∷ "4" ∷ "5" ∷ "6" ∷ "7" ∷ "8" ∷ "9" ∷ [])

-- `Display` of a number. The number itself is fuel enough, as each step divides it by ten.
abbrev decimal_from : ℕ → ℕ → String
decimal_from zero n = digit (n % 10)
decimal_from (suc fuel) n = elim (ltb n 10) [
  | true ↦ digit n
  | false ↦ String.◌++◌ (decimal_from fuel (n / 10)) (digit (n % 10))
]

unfoldable pub decimal : ℕ → String
decimal n = decimal_from n n

-- The character at the place in the second text at which it stands in the first.
abbrev swap_in : String → String → Char → Char
swap_in (String.◌∷◌ u us) (String.◌∷◌ l ls) c =
    let rest = swap_in us ls c in if code u == code c then l else rest
swap_in _ _ c = c

unfoldable pub to_ascii_lowercase : String → String
to_ascii_lowercase String.[] = ""
to_ascii_lowercase (String.◌∷◌ c s) =
    String.◌∷◌ (swap_in "ABCDEFGHIJKLMNOPQRSTUVWXYZ" "abcdefghijklmnopqrstuvwxyz" c)
      (to_ascii_lowercase s)

abbrev add_to_first : Char → List String → List String
add_to_first c [] = String.◌∷◌ c "" ∷ []
add_to_first c (piece ∷ pieces) = String.◌∷◌ c piece ∷ pieces

-- `split` at a character, and `join`
unfoldable pub split : ℕ → String → List String
split separator String.[] = "" ∷ []
split separator (String.◌∷◌ c s) =
    let rest = split separator s in if code c == separator then "" ∷ rest else add_to_first c rest

unfoldable pub join : String → List String → String
join separator [] = ""
join separator (s ∷ []) = s
join separator (s ∷ t ∷ ss) = String.◌++◌ s (String.◌++◌ separator (join separator (t ∷ ss)))

-- `parse` of an unsigned number up to a maximum, with the texts of its errors.
abbrev digits : ℕ → ℕ → String → Result String ℕ
digits maximum n String.[] = ok n
digits maximum n (String.◌∷◌ c s) =
    let next = n * 10 + (code c - b'0') in
    let rest = digits maximum next s in
    if ltb (code c) b'0' || ltb b'9' (code c)
    then err "invalid digit found in string"
    else if ltb maximum next
    then err "number too large to fit in target type"
    else rest

unfoldable pub parse_unsigned : ℕ → String → Result String ℕ
parse_unsigned maximum String.[] = err "cannot parse integer from empty string"
parse_unsigned maximum (String.◌∷◌ c String.[]) = digits maximum 0 (String.◌∷◌ c "")
parse_unsigned maximum (String.◌∷◌ c (String.◌∷◌ d s)) =
    if code c == b'+'
    then digits maximum 0 (String.◌∷◌ d s)
    else digits maximum 0 (String.◌∷◌ c (String.◌∷◌ d s))
