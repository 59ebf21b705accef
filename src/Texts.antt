-- ===== src/Texts.antt =====
-- The standard library's bytes, strings and strconv, as far as the node uses them, on strings as
-- lists of bytes.
pub mod Laws
mod Tests
use tanlnode.Base.{
  ℕ, zero, suc, ◌+◌, ◌-◌, ◌*◌, ◌/◌, ◌%◌, ◌^◌, Bool, true, false, not, ◌&&◌, ◌||◌, Option, none,
  some, List, [], ◌∷◌, ◌++◌, ltb, leb, ◌==◌, if◌then◌else◌,
}
use tanlnode.Sqlgen.{Text, Int64}

-- The number of elements.
abbrev pub length {ℓ} : {A : Type ℓ} → List A → ℕ
length [] = 0
length (x ∷ xs) = suc (length xs)

-- The byte occurs in the text.
abbrev pub has : ℕ → Text → Bool
has sep [] = false
has sep (c ∷ text) = (c == sep) || has sep text

abbrev pub put_first : ℕ → List Text → List Text
put_first c [] = (c ∷ []) ∷ []
put_first c (part ∷ parts) = (c ∷ part) ∷ parts

-- `bytes.Split` and `bytes.SplitSeq` at one byte: never without a part.
unfoldable pub split : ℕ → Text → List Text
split sep [] = [] ∷ []
split sep (c ∷ text) = let rest = split sep text in if c == sep then [] ∷ rest else put_first c rest

-- `strings.Join` with one byte between the parts.
abbrev pub join : ℕ → List Text → Text
join sep [] = []
join sep (part ∷ []) = part
join sep (part ∷ part' ∷ parts) = part ++ (sep ∷ join sep (part' ∷ parts))

abbrev pub is_digit : ℕ → Bool
is_digit c = leb 48 c && leb c 57

-- The digits of a number, after a number that was read before them.
unfoldable pub parse_uint : ℕ → Text → Option ℕ
parse_uint n [] = some n
parse_uint n (c ∷ text) =
    let rest = parse_uint (n * 10 + (c - 48)) text in if is_digit c then rest else none

-- A number without its sign, in the range of `int64` or refused.
abbrev pub signed : Bool → Option ℕ → Option Int64
signed neg none = none
signed true (some n) = if ltb (2 ^ 63) n then none else some ((2 ^ 64 - n) % 2 ^ 64)
signed false (some n) = if ltb n (2 ^ 63) then some n else none

abbrev pub parse_number : Bool → Text → Option Int64
parse_number neg [] = none
parse_number neg (c ∷ text) = signed neg (parse_uint 0 (c ∷ text))

-- `strconv.ParseInt` of base 10 and size 64; `none` is an error.
unfoldable pub parse_int : Text → Option Int64
parse_int [] = none
parse_int (c ∷ text) =
    if c == 45
    then parse_number true text
    else if c == 43
    then parse_number false text
    else parse_number false (c ∷ text)

-- The digits of a number put before a text; `fuel` bounds how many.
unfoldable pub put_digits : ℕ → ℕ → Text → Text
put_digits zero n text = text
put_digits (suc fuel) n text =
    let rest = put_digits fuel (n / 10) ((48 + n % 10) ∷ text) in
    if ltb n 10 then (48 + n % 10) ∷ text else rest

-- `strconv.Itoa` of an `int64`; twenty digits are enough for 2 ^ 64.
unfoldable pub itoa : Int64 → Text
itoa x = if ltb x (2 ^ 63) then put_digits 20 x [] else 45 ∷ put_digits 20 (2 ^ 64 - x) []
