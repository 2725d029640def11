-- ===== src/Prelude/Texts.antt =====
-- Texts by their code points: the patterns that identities must match, joining, and sorting.
use Prim.Native.String.{String}
use Prim.Native.Char.{Char, code}
use Prim.Native.Nat.{ℕ, zero, suc, ◌/◌, ◌%◌}
use mathlib.Core.Path.{◌≡◌, refl}
use mathlib.Core.Logic.{◌≢◌, inl, inr}
use mathlib.Core.Bool.{Bool, true, false, ◌&&◌, ◌||◌, not}
use mathlib.Core.Option.{Option, none, some}
use mathlib.Core.List.{List, [], ◌∷◌}
use native.Mathlib.Omega.{arith}
use text.Mathlib.Text.{◌==◌ as str_eq}
use automated_trading_bot.Prelude.Tests.{Bool-cases, ltb, leb, ◌==◌, if◌then◌else◌}
use automated_trading_bot.Prelude.Lists.{length, all}

abbrev pub codes : (text : String) → List ℕ
codes (String.◌∷◌ letter rest) = code letter ∷ codes rest
codes String.[] = []

abbrev pub join : String → String → String
join String.[] t = t
join (String.◌∷◌ c s) t = String.◌∷◌ c (join s t)

-- [A-Za-z0-9]
pub is_alnum : ℕ → Bool
is_alnum c = leb b'0' c && leb c b'9' || leb b'A' c && leb c b'Z' || leb b'a' c && leb c b'z'

-- [A-Za-z0-9._:-]
pub is_name_char : ℕ → Bool
is_name_char c = is_alnum c || c == b'.' || c == b'_' || c == b':' || c == b'-'

-- What `str.strip` strips.
is_space : ℕ → Bool
is_space c =
    leb 9 c && leb c 13
    || leb 28 c && leb c 32
    || c == 0x85
    || c == 0xa0
    || c == 0x1680
    || leb 0x2000 c && leb c 0x200a
    || c == 0x2028
    || c == 0x2029
    || c == 0x202f
    || c == 0x205f
    || c == 0x3000

-- `not text.strip()`
unfoldable pub is_blank : String → Bool
unfolding is_space
is_blank s = all is_space (codes s)

last_is_space : List ℕ → Bool
last_is_space [] = false
last_is_space (c ∷ []) = is_space c
last_is_space (c ∷ d ∷ cs) = last_is_space (d ∷ cs)

first_is_space : List ℕ → Bool
first_is_space [] = false
first_is_space (c ∷ cs) = is_space c

-- `text == text.strip()`
unfoldable pub is_unpadded : String → Bool
unfolding is_space last_is_space first_is_space
is_unpadded s = not (first_is_space (codes s)) && not (last_is_space (codes s))

strip_prefix : List ℕ → List ℕ → Option (List ℕ)
strip_prefix [] cs = some cs
strip_prefix (p ∷ ps) [] = none
strip_prefix (p ∷ ps) (c ∷ cs) = let rest = strip_prefix ps cs in if p == c then rest else none

-- A text that is a prefix and from one to `limit` name characters.
unfoldable pub matches_identity : String → ℕ → String → Bool
unfolding strip_prefix is_name_char is_alnum
matches_identity prefix limit s = elim (strip_prefix (codes prefix) (codes s)) [
  | none ↦ false
  | some rest ↦ leb 1 (length rest) && leb (length rest) limit && all is_name_char rest
]

-- [A-Za-z0-9][A-Za-z0-9._:-]{0,63}
unfoldable pub is_stable_name : String → Bool
unfolding is_name_char is_alnum
is_stable_name String.[] = false
is_stable_name (String.◌∷◌ c s) =
    is_alnum (code c) && leb (length (codes s)) 63 && all is_name_char (codes s)

-- Order by code points, as Python sorts texts.
unfoldable pub ltb_codes : List ℕ → List ℕ → Bool
ltb_codes xs [] = false
ltb_codes [] (y ∷ ys) = true
ltb_codes (x ∷ xs) (y ∷ ys) = let rest = ltb_codes xs ys in ltb x y || x == y && rest

pub ltb_codes_asym : (xs ys : List ℕ) → ltb_codes xs ys ≡ true → ltb_codes ys xs ≡ false
unfolding ltb_codes
ltb_codes_asym xs [] h = cc
ltb_codes_asym [] (y ∷ ys) h = refl
ltb_codes_asym (x ∷ xs) (y ∷ ys) h = elim (Bool-cases (ltb_codes xs ys)) [
  | inl e ↦ ground (arith, h, e, ltb_codes_asym xs ys e)
  | inr e ↦ ground (arith, h, e)
]

-- Add a text to a sorted list, unless it is there.
insert_text : String → List String → List String
insert_text s [] = s ∷ []
insert_text s (t ∷ ts) =
    let rest = insert_text s ts in
    if str_eq s t then t ∷ ts else if ltb_codes (codes s) (codes t) then s ∷ t ∷ ts else t ∷ rest

-- `tuple(sorted(set(texts)))`
unfoldable pub canonical : List String → List String
unfolding insert_text ltb_codes
canonical [] = []
canonical (s ∷ ss) = insert_text s (canonical ss)

insert_text-ne-nil : (s : String) (ts : List String) → insert_text s ts ≢ []
unfolding insert_text
insert_text-ne-nil s [] = ground arith
insert_text-ne-nil s (t ∷ ts) = ground arith

-- Sorting a set of texts leaves nothing only of nothing.
pub canonical-eq-nil : (ss : List String) → canonical ss ≡ [] → ss ≡ []
unfolding canonical
canonical-eq-nil [] h = refl
canonical-eq-nil (s ∷ ss) h = absurd (insert_text-ne-nil s (canonical ss) h)

hex_digit : ℕ → Char
hex_digit n =
    if n == 0
    then "0"
    else if n == 1
    then "1"
    else if n == 2
    then "2"
    else if n == 3
    then "3"
    else if n == 4
    then "4"
    else if n == 5
    then "5"
    else if n == 6
    then "6"
    else if n == 7
    then "7"
    else if n == 8
    then "8"
    else if n == 9
    then "9"
    else if n == 10
    then "a"
    else if n == 11
    then "b"
    else if n == 12
    then "c"
    else if n == 13
    then "d"
    else if n == 14
    then "e"
    else "f"

hex_onto : ℕ → ℕ → String → String
hex_onto zero n s = s
hex_onto (suc k) n s = hex_onto k (n / 16) (String.◌∷◌ (hex_digit (n % 16)) s)

-- `UUID.hex`: the 32 hexadecimal digits of the 128-bit integer.
unfoldable pub hex : ℕ → String
unfolding hex_onto hex_digit
hex n = hex_onto 32 n String.[]

hex_example : hex 3735928559 ≡ "000000000000000000000000deadbeef"
unfolding hex
hex_example = refl

name_example : is_stable_name "order-router.v1" ≡ true
unfolding is_stable_name
name_example = refl
