-- ===== src/Base/Blocks.antt =====
-- Numbers cut into blocks of a power of two.
use Prim.Native.Nat.{ℕ, zero, suc, ◌+◌, ◌-◌, ◌*◌, ◌/◌, ◌%◌, ◌^◌, ◌≤◌, ◌<◌}
use native.Mathlib.Nat.{mul-add-div_right, div-add-mod', div-div-eq-div-mul}
use mathlib.Core.Path.{◌≡◌, sym, ap, subst, ◌∙◌}
use native.Mathlib.Omega.{arith}
use tanlnode.Base.Tests.{◌==◌}
use tanlnode.Base.Bits.{half_pow, pow_pos}

pub pow-split : (p level : ℕ) → p ≤ level → 2 ^ level ≡ 2 ^ p * 2 ^ (level - p)
pow-split zero level h = let s : level - 0 ≡ level = omega arith in rw s (omega arith)
pow-split (suc p) zero h = elim h [ ]
pow-split (suc p) (suc k) h =
    let s : suc k - suc p ≡ k - p = omega arith in
    rw (s, half_pow k, half_pow p, pow-split p k (omega arith)) (omega arith)

-- A number by its quotient and its remainder, each cut into blocks of `d`.
div-block : (a d k : ℕ) → 0 < d → a / d ≡ a / (d * k) * k + a % (d * k) / d
div-block a d k hd =
    let e : a ≡ a / (d * k) * k * d + a % (d * k) = omega (arith, div-add-mod' a (d * k)) in
    ap (λ (t : ℕ). t / d) e ∙ mul-add-div_right hd (a / (d * k) * k) (a % (d * k))

pow-block : (m d a : ℕ) → d ≤ m → a / 2 ^ d ≡ a / 2 ^ m * 2 ^ (m - d) + a % 2 ^ m / 2 ^ d
pow-block m d a h =
    subst (λ (t : ℕ). a / 2 ^ d ≡ a / t * 2 ^ (m - d) + a % t / 2 ^ d) (sym (pow-split d m h))
      (div-block a (2 ^ d) (2 ^ (m - d)) (pow_pos d))

add_left_eq : (c x y : ℕ) → (c + x == c + y) ≡ (x == y)
add_left_eq c x y = ground arith

-- Within one block of 2 ^ m, the smaller blocks are told apart by the remainders.
pub same_block :
    (m d a x : ℕ)
    → d ≤ m
    → a / 2 ^ m ≡ x / 2 ^ m
    → (a / 2 ^ d == x / 2 ^ d) ≡ (a % 2 ^ m / 2 ^ d == x % 2 ^ m / 2 ^ d)
same_block m d a x h e = rw (pow-block m d a h, pow-block m d x h, e) (add_left_eq _ _ _)

-- Numbers of one small block lie in one large block.
pub coarser : (m d a x : ℕ) → d ≤ m → a / 2 ^ d ≡ x / 2 ^ d → a / 2 ^ m ≡ x / 2 ^ m
coarser m d a x h e = split a ∙ ap (λ (t : ℕ). t / 2 ^ (m - d)) e ∙ sym (split x)
  where
    split : (y : ℕ) → y / 2 ^ m ≡ y / 2 ^ d / 2 ^ (m - d)
    split y =
        ap (λ (t : ℕ). y / t) (pow-split d m h) ∙ sym (div-div-eq-div-mul y (2 ^ d) (2 ^ (m - d)))
