-- ===== src/Texts/Laws.antt =====
-- Splitting a joined text, and reading a printed number.
use native.Mathlib.Nat.{pow-suc}
use tanlnode.Base.{
  ℕ, zero, suc, ◌+◌, ◌-◌, ◌*◌, ◌/◌, ◌%◌, ◌^◌, ◌<◌, ◌≡◌, refl, ap, ◌∙◌, inl, inr, Bool, true, false,
  ◌||◌, some, List, [], ◌∷◌, ◌++◌, ltb, ◌==◌, arith, Bool-cases,
}
use tanlnode.Sqlgen.{Text, Int64}
use tanlnode.Texts.{
  has, split, join, is_digit, parse_uint, parse_number, signed, parse_int, put_digits, itoa,
}

-- No part has the byte.
abbrev pub any_has : ℕ → List Text → Bool
any_has sep [] = false
any_has sep (part ∷ parts) = has sep part || any_has sep parts

pub or_false : (a b : Bool) → a || b ≡ false → (a ≡ false) × (b ≡ false)
or_false true b h = cc
or_false false b h = (refl, h)

-- A part without the byte is the first one.
pub split-append :
    (sep : ℕ) (part rest : Text)
    → has sep part ≡ false
    → split sep (part ++ (sep ∷ rest)) ≡ part ∷ split sep rest
unfolding split
split-append sep [] rest h = let e : (sep == sep) ≡ true = ground arith in rw e refl
split-append sep (c ∷ part) rest h =
    let n = or_false (c == sep) (has sep part) h in rw (n.0, split-append sep part rest n.1) refl

-- A part without the byte is the only one.
pub split-alone : (sep : ℕ) (part : Text) → has sep part ≡ false → split sep part ≡ part ∷ []
unfolding split
split-alone sep [] h = refl
split-alone sep (c ∷ part) h =
    let n = or_false (c == sep) (has sep part) h in rw (n.0, split-alone sep part n.1) refl

pub split-join :
    (sep : ℕ) (part : Text) (parts : List Text)
    → any_has sep (part ∷ parts) ≡ false
    → split sep (join sep (part ∷ parts)) ≡ part ∷ parts
split-join sep part [] h = split-alone sep part (or_false (has sep part) false h).0
split-join sep part (part' ∷ parts) h =
    let n = or_false (has sep part) (any_has sep (part' ∷ parts)) h in
    split-append sep part (join sep (part' ∷ parts)) n.0
    ∙ ap (λ (ps : List Text). part ∷ ps) (split-join sep part' parts n.1)

-- The digits of a number read back as the number.
pub parse-put_digits :
    (fuel n : ℕ) (text : Text)
    → n < 10 ^ suc fuel
    → parse_uint 0 (put_digits (suc fuel) n text) ≡ parse_uint n text
unfolding parse_uint put_digits
parse-put_digits zero n text h =
    let e : ltb n 10 ≡ true = ground (arith, h) in
    let digit : is_digit (48 + n % 10) ≡ true = ground arith in
    let same : 0 * 10 + (48 + n % 10 - 48) ≡ n = ground (arith, e) in rw (e, digit, same) refl
parse-put_digits (suc fuel) n text h = elim (Bool-cases (ltb n 10)) [
  | inl e ↦
      let digit : is_digit (48 + n % 10) ≡ true = ground arith in
      let same : 0 * 10 + (48 + n % 10 - 48) ≡ n = ground (arith, e) in rw (e, digit, same) refl
  | inr e ↦
      let small : n / 10 < 10 ^ suc fuel = omega (arith, pow-suc 10 (suc fuel), h) in
      let digit : is_digit (48 + n % 10) ≡ true = ground arith in
      let same : n / 10 * 10 + (48 + n % 10 - 48) ≡ n = ground (arith, e) in
      rw (e, parse-put_digits fuel (n / 10) ((48 + n % 10) ∷ text) small, digit, same) refl
]

signed_pos : (x : Int64) → ltb x (2 ^ 63) ≡ true → signed false (some x) ≡ some x
signed_pos x h = rw h refl

signed_neg :
    (x : Int64) → ltb x (2 ^ 63) ≡ false → x < 2 ^ 64 → signed true (some (2 ^ 64 - x)) ≡ some x
signed_neg x g h =
    let e : ltb (2 ^ 63) (2 ^ 64 - x) ≡ false = ground (arith, g) in
    let same : (2 ^ 64 - (2 ^ 64 - x)) % 2 ^ 64 ≡ x = omega (arith, h) in rw (e, same) refl

-- Digits start with a digit.
data StartsDigit : Text → Type 0 where
  starts : (c : ℕ) (text : Text) → is_digit c ≡ true → StartsDigit (c ∷ text)

put_digits-starts :
    (fuel n : ℕ) (text : Text) → n < 10 ^ suc fuel → StartsDigit (put_digits (suc fuel) n text)
unfolding put_digits
put_digits-starts zero n text h =
    let e : ltb n 10 ≡ true = ground (arith, h) in
    let digit : is_digit (48 + n % 10) ≡ true = ground arith in
    rw e (starts (48 + n % 10) text digit)
put_digits-starts (suc fuel) n text h = elim (Bool-cases (ltb n 10)) [
  | inl e ↦
      let digit : is_digit (48 + n % 10) ≡ true = ground arith in
      rw e (starts (48 + n % 10) text digit)
  | inr e ↦
      let small : n / 10 < 10 ^ suc fuel = omega (arith, pow-suc 10 (suc fuel), h) in
      rw e (put_digits-starts fuel (n / 10) ((48 + n % 10) ∷ text) small)
]

number_digits :
    (neg : Bool) (text : Text)
    → StartsDigit text
    → parse_number neg text ≡ signed neg (parse_uint 0 text)
number_digits neg text (starts c text' h) = refl

plain_digits : (text : Text) → StartsDigit text → parse_int text ≡ signed false (parse_uint 0 text)
unfolding parse_int
plain_digits text (starts c text' h) =
    let minus : (c == 45) ≡ false = ground (arith, h) in
    let plus : (c == 43) ≡ false = ground (arith, h) in rw (minus, plus) refl

minus_digits :
    (text : Text) → StartsDigit text → parse_int (45 ∷ text) ≡ signed true (parse_uint 0 text)
unfolding parse_int
minus_digits text d = number_digits true text d

-- `parse_int` reads every `int64` back from what `itoa` prints of it.
pub parse_int-itoa : (x : Int64) → x < 2 ^ 64 → parse_int (itoa x) ≡ some x
unfolding itoa parse_uint
parse_int-itoa x h = elim (Bool-cases (ltb x (2 ^ 63))) [
  | inl e ↦
      let small : x < 10 ^ 20 = omega (arith, h) in
      rw e (
        plain_digits (put_digits 20 x []) (put_digits-starts 19 x [] small)
        ∙ ap (signed false) (parse-put_digits 19 x [] small)
        ∙ signed_pos x e)
  | inr e ↦
      let y = 2 ^ 64 - x in
      let small : y < 10 ^ 20 = omega (arith, h) in
      rw e (
        minus_digits (put_digits 20 y []) (put_digits-starts 19 y [] small)
        ∙ ap (signed true) (parse-put_digits 19 y [] small)
        ∙ signed_neg x e h)
]

has-put_digits :
    (sep fuel n : ℕ) (text : Text)
    → is_digit sep ≡ false
    → has sep (put_digits fuel n text) ≡ has sep text
unfolding put_digits
has-put_digits sep zero n text h = refl
has-put_digits sep (suc fuel) n text h =
    let other : (48 + n % 10 == sep) ≡ false = ground (arith, h) in
    elim (Bool-cases (ltb n 10)) [
      | inl e ↦ rw (e, other) refl
      | inr e ↦ rw (e, has-put_digits sep fuel (n / 10) ((48 + n % 10) ∷ text) h, other) refl
    ]

-- A printed number has digits and the minus sign only.
pub has-itoa : (sep x : ℕ) → is_digit sep ≡ false → (45 == sep) ≡ false → has sep (itoa x) ≡ false
unfolding itoa
has-itoa sep x h g = elim (Bool-cases (ltb x (2 ^ 63))) [
  | inl e ↦ rw e (has-put_digits sep 20 x [] h)
  | inr e ↦ rw (e, has-put_digits sep 20 (2 ^ 64 - x) [] h, g) refl
]

has-append : (c : ℕ) (text rest : Text) → has c (text ++ rest) ≡ has c text || has c rest
has-append c [] rest = refl
has-append c (d ∷ text) rest = rw (has-append c text rest) (ground arith)

-- A byte that is neither in a part nor between them is not in the whole.
pub has-join :
    (c sep : ℕ) (parts : List Text)
    → (sep == c) ≡ false
    → any_has c parts ≡ false
    → has c (join sep parts) ≡ false
has-join c sep [] g h = refl
has-join c sep (part ∷ []) g h = (or_false (has c part) false h).0
has-join c sep (part ∷ part' ∷ parts) g h =
    let n = or_false (has c part) (any_has c (part' ∷ parts)) h in
    rw
      (
        has-append c part (sep ∷ join sep (part' ∷ parts)),
        n.0,
        g,
        has-join c sep (part' ∷ parts) g n.1,
      )
      refl
