-- ===== src/Texts/Tests.antt =====
-- Runs of Texts.
use tanlnode.Base.{◌≡◌, refl, none, some, [], ◌∷◌, ◌^◌}
use tanlnode.Texts.{itoa, put_digits, parse_int, parse_uint, split}

itoa_min :
    itoa (2 ^ 63)
    ≡ 45 ∷ 57 ∷ 50 ∷ 50 ∷ 51 ∷ 51 ∷ 55 ∷ 50 ∷ 48 ∷ 51 ∷ 54 ∷ 56 ∷ 53 ∷ 52 ∷ 55 ∷ 55 ∷ 53 ∷ 56 ∷ 48
      ∷ 56 ∷ []
unfolding itoa put_digits
itoa_min = refl

parse_sign : parse_int (43 ∷ 49 ∷ 50 ∷ []) ≡ some 12
unfolding parse_int parse_uint
parse_sign = refl

parse_empty_sign : parse_int (45 ∷ []) ≡ none
unfolding parse_int parse_uint
parse_empty_sign = refl

split_two : split 9 (1 ∷ 9 ∷ 9 ∷ []) ≡ (1 ∷ []) ∷ [] ∷ [] ∷ []
unfolding split
split_two = refl
