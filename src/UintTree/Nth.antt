-- ===== src/UintTree/Nth.antt =====
-- Free addresses: how many there are below a bound, and the one that `PutNthFree` picks.
pub mod Total
pub mod Pick
use tanlnode.Base.{
  ℕ, zero, suc, ◌+◌, ◌-◌, ◌^◌, ◌≤◌, ◌<◌, ◌≡◌, refl, Bool, true, false, arith, if◌then◌else◌,
}
use native.Mathlib.Nat.{add-suc, add-zero}

-- How many of the numbers below the bound the test does not hold of.
unfoldable pub count_free : (ℕ → Bool) → ℕ → ℕ
count_free f zero = 0
count_free f (suc x) = count_free f x + (if f x then 0 else 1)

pub count_free-congr :
    (f g : ℕ → Bool) (x : ℕ) → ((y : ℕ) → y < x → f y ≡ g y) → count_free f x ≡ count_free g x
unfolding count_free
count_free-congr f g zero h = refl
count_free-congr f g (suc x) h =
    rw (h x (omega arith), count_free-congr f g x (λ y hy. h y (omega arith)))

pub count_free-add :
    (f : ℕ → Bool) (a x : ℕ) → count_free f (a + x) ≡ count_free f a + count_free (λ y. f (a + y)) x
unfolding count_free
count_free-add f a zero = rw add-zero (omega arith)
count_free-add f a (suc x) = rw add-suc (omega (arith, count_free-add f a x))

pub count_free_none : (f : ℕ → Bool) (x : ℕ) → ((y : ℕ) → f y ≡ false) → count_free f x ≡ x
unfolding count_free
count_free_none f zero h = refl
count_free_none f (suc x) h = rw (h x) (omega (arith, count_free_none f x h))

pub count_free_all : (f : ℕ → Bool) (x : ℕ) → ((y : ℕ) → f y ≡ true) → count_free f x ≡ 0
unfolding count_free
count_free_all f zero h = refl
count_free_all f (suc x) h = rw (h x) (omega (arith, count_free_all f x h))
