-- ===== src/UintTree/Cover/Range.antt =====
-- The bits of a prefix as an interval: an address begins with them when it has the same quotient.
use native.Mathlib.Nat.{mul-add-div_right, div-lt_iff_lt-mul, div-eq_of_lt}
use native.Mathlib.Decide.{dec_lt}
use tanlnode.Base.{
  ℕ, zero, suc, ◌+◌, ◌-◌, ◌/◌, ◌^◌, ◌≤◌, ◌<◌, ◌≡◌, refl, ap, ◌∙◌, Bool, true, false, ◌&&◌, arith,
  ◌==◌,
}
use tanlnode.Base.Blocks.{pow-split}
use tanlnode.Base.Bits.{half_pow, pow_pos}
use tanlnode.UintTree.Spec.{in_net, prefix_bits, same, length, net_size}
use tanlnode.UintTree.Cover.Witness.{place, bit-place, bit-place_lt, in_net-place}

pub length-prefix_bits : (level p addr : ℕ) → p ≤ level → length (prefix_bits level p addr) ≡ p
length-prefix_bits level zero addr h = refl
length-prefix_bits zero (suc p) addr h = elim h [ ]
length-prefix_bits (suc k) (suc p) addr h = ap suc (length-prefix_bits k p addr (omega arith))

pub net_size-prefix_bits :
    (level p addr : ℕ) → p ≤ level → net_size level (prefix_bits level p addr) ≡ 2 ^ (level - p)
net_size-prefix_bits level zero addr h = let s : level - 0 ≡ level = omega arith in rw s
net_size-prefix_bits zero (suc p) addr h = elim h [ ]
net_size-prefix_bits (suc k) (suc p) addr h =
    let s : suc k - suc p ≡ k - p = omega arith in
    rw s (net_size-prefix_bits k p addr (omega arith))

prefix_bits-place :
    (b : Bool) (level k p x : ℕ)
    → level ≤ k
    → prefix_bits level p (place b k x) ≡ prefix_bits level p x
prefix_bits-place b level k zero x h = refl
prefix_bits-place b zero k (suc p) x h = refl
prefix_bits-place b (suc level) k (suc p) x h =
    rw (bit-place_lt b level k x h, prefix_bits-place b level k p x (omega arith))

-- Every number below 2 ^ suc k has its top bit and the rest.
placed : (k x : ℕ) → x < 2 ^ suc k → (b : Bool) × (y : ℕ) × (y < 2 ^ k) × (x ≡ place b k y)
placed k x h = elim (dec_lt x (2 ^ k)) [
  | yes lt ↦ (false, x, lt, refl)
  | no ge ↦ (true, x - 2 ^ k, omega (arith, half_pow k), omega arith)
]

-- The quotient by the size of a subnet of the lower half.
place-div : (b : Bool) (k p x : ℕ) → p ≤ k → place b k x / 2 ^ (k - p) ≡ place b p (x / 2 ^ (k - p))
place-div false k p x h = refl
place-div true k p x h =
    ap (λ (t : ℕ). (t + x) / 2 ^ (k - p)) (pow-split p k h)
    ∙ mul-add-div_right (pow_pos (k - p)) (2 ^ p) x

div-lt : (k p x : ℕ) → p ≤ k → x < 2 ^ k → x / 2 ^ (k - p) < 2 ^ p
div-lt k p x h hx = (div-lt_iff_lt-mul (pow_pos (k - p))).1 (rw (← pow-split p k h) hx)

place_eq :
    (a b : Bool) (p x y : ℕ)
    → x < 2 ^ p
    → y < 2 ^ p
    → (place a p x == place b p y) ≡ same b a && (x == y)
place_eq true true p x y hx hy = ground arith
place_eq false false p x y hx hy = ground arith
place_eq true false p x y hx hy = ground arith
place_eq false true p x y hx hy = ground arith

pub in_net-eq-div :
    (level p addr x : ℕ)
    → p ≤ level
    → addr < 2 ^ level
    → x < 2 ^ level
    → in_net level (prefix_bits level p addr) x ≡ (addr / 2 ^ (level - p) == x / 2 ^ (level - p))
unfolding in_net
in_net-eq-div level zero addr x h ha hx =
    let s : level - 0 ≡ level = omega arith in rw (s, div-eq_of_lt ha, div-eq_of_lt hx)
in_net-eq-div zero (suc p) addr x h ha hx = elim h [ ]
in_net-eq-div (suc k) (suc p) addr x h ha hx =
    let (a, a', ha', ea) = placed k addr ha in
    let (b, x', hx', eb) = placed k x hx in
    let s : suc k - suc p ≡ k - p = omega arith in
    let hp : p ≤ k = omega arith in
    rw (
      s,
      ea,
      eb,
      bit-place a k a' ha',
      bit-place b k x' hx',
      prefix_bits-place a k k p a' (omega arith),
      in_net-place b k k (prefix_bits k p a') x' (omega arith),
      place-div a k p a' hp,
      place-div b k p x' hp,
      place_eq a b p _ _ (div-lt k p a' hp ha') (div-lt k p x' hp hx'),
      in_net-eq-div k p a' x' hp ha' hx',
    )
