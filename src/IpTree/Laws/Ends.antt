-- ===== src/IpTree/Laws/Ends.antt =====
-- The trees that `NewAddrTree4` and `NewAddrTree6` make: empty, with the first address, with both ends.
use native.Mathlib.Nat.{
  pow-le-pow_right, mod-eq_of_lt, mul-add-div_right, add-mul-mod_self_right, div-eq_of_lt,
}
use tanlnode.Base.{
  ℕ, zero, suc, ◌+◌, ◌-◌, ◌*◌, ◌/◌, ◌%◌, ◌^◌, ◌≤◌, ◌<◌, ◌≡◌, refl, ap, ◌∙◌, Bool, true, false, ◌||◌,
  arith, ==_iff, ◌==◌, bit_and,
}
use tanlnode.Base.Bits.{pow_pos, half_pow, bit_and-mask}
use tanlnode.Base.Blocks.{pow-split}
use tanlnode.UintTree
use tanlnode.UintTree.{UintTree, Node, nil}
use tanlnode.UintTree.Spec.{IsValid, IsCounted, covered}
use tanlnode.UintTree.Cover.{taken-nil}
use tanlnode.UintTree.Laws.Puts.{
  PutCases, refused, added, put-cases, put_iff, put-IsValid, covered-put,
}
use tanlnode.UintTree.Laws.Picks.{one_IsSubnet, in_subnet_one}

-- A tree without assigned subnets.
abbrev pub empty_tree : ℕ → ℕ → ℕ → UintTree
empty_tree w m top = record {
  root = nil;
  ms_bit = 2 ^ (m - 1) % 2 ^ w;
  max_uint = top;
  max_pref_bits = m;
}

no_counters : (w m : ℕ) → IsCounted w m nil
no_counters w m = tt

half_lt : (k : ℕ) → 2 ^ k < 2 ^ suc k
half_lt k = omega (arith, half_pow k, pow_pos k)

cut : (m k : ℕ) → 0 < m → 0 < k → m * k - 1 ≡ (k - 1) * m + (m - 1)
cut m zero hm hk = absurd (omega (arith, hk))
cut m (suc k) hm hk =
    let less : suc k - 1 ≡ k = omega arith in
    let more : m * suc k ≡ k * m + m = grind arith in rw (less, more) (omega (arith, hm))

empty-IsValid : (w m top : ℕ) → 0 < m → m ≤ w → top + 1 ≡ 2 ^ m → IsValid w (empty_tree w m top)
empty-IsValid w m top hm hw e =
    let whole : 2 ^ m ≤ 2 ^ w = pow-le-pow_right {n = 2} (omega arith) {i = m} {j = w} hw in
    let half : 2 ^ (m - 1) < 2 ^ m =
      let p : suc (m - 1) ≡ m = omega (arith, hm) in rw p at (half_lt (m - 1)) in
    record {
      level_pos = hm;
      level_le = omega (arith, hw);
      mask = mod-eq_of_lt (omega (arith, whole, half));
      bound = e;
      counted = no_counters w m;
    }

covered-empty : (w m top x : ℕ) → covered (empty_tree w m top) x ≡ false
covered-empty w m top x = taken-nil m x

-- A word of ones, cut at digit `b`.
ones_split : (w b : ℕ) → b ≤ w → 2 ^ w - 1 ≡ (2 ^ (w - b) - 1) * 2 ^ b + (2 ^ b - 1)
ones_split w b h = rw (pow-split b w h) (cut (2 ^ b) (2 ^ (w - b)) (pow_pos b) (pow_pos (w - b)))

-- The greatest host of a network of `b` bits in a word of `w` bits.
pub top_host : (w b : ℕ) → b ≤ w → (2 ^ w - 1) / 2 ^ b + 1 ≡ 2 ^ (w - b)
top_host w b h =
    rw (ones_split w b h, mul-add-div_right (pow_pos b) (2 ^ (w - b) - 1) (2 ^ b - 1))
      (let low : (2 ^ b - 1) / 2 ^ b ≡ 0 = div-eq_of_lt (omega (arith, pow_pos b)) in
        omega (arith, low, pow_pos (w - b)))

ones_mod : (w m : ℕ) → m ≤ w → (2 ^ w - 1) % 2 ^ m ≡ 2 ^ m - 1
ones_mod w m h = rw (ones_split w m h) (
    ap (λ (a : ℕ). a % 2 ^ m) (omega arith)
    ∙ add-mul-mod_self_right (2 ^ m - 1) (2 ^ (w - m) - 1) (2 ^ m)
    ∙ mod-eq_of_lt (omega (arith, pow_pos m)))

-- `Put` changes the root only.
bounds_cases :
    (w : ℕ) (t : UintTree) (a b : ℕ) (r : UintTree × Bool)
    → PutCases w t a b r
    → (r.0.max_uint ≡ t.max_uint) × (r.0.max_pref_bits ≡ t.max_pref_bits)
bounds_cases w t a b r (refused _ _ _ _) = (refl, refl)
bounds_cases w t a b r (added _ _) = (refl, refl)

-- A free address is taken by `Put` of its subnet.
module _ {w : ℕ} {t : UintTree} (v : IsValid w t) (a : ℕ) (h : a ≤ t.max_uint) where
  bounds_one :
      ((UintTree.put w t a t.max_pref_bits).0.max_uint ≡ t.max_uint)
      × ((UintTree.put w t a t.max_pref_bits).0.max_pref_bits ≡ t.max_pref_bits)
  bounds_one = bounds_cases w t a t.max_pref_bits _ (put-cases v (one_IsSubnet t a h))

  takes_one : covered t a ≡ false → (UintTree.put w t a t.max_pref_bits).1 ≡ true
  takes_one free = (put_iff v (one_IsSubnet t a h)).1 (λ y _ i.
      let same_addr : a ≡ y = (==_iff a y).0 (rw in_subnet_one at i) in rw (← same_addr) free)

  covered_one :
      covered t a ≡ false
      → (x : ℕ) → x ≤ t.max_uint
      → covered (UintTree.put w t a t.max_pref_bits).0 x ≡ covered t x || (a == x)
  covered_one free x hx =
      rw (takes_one free, in_subnet_one) at (covered-put v (one_IsSubnet t a h) x hx)

module _ (w m top : ℕ) (hm : 0 < m) (hw : m ≤ w) (e : top + 1 ≡ 2 ^ m) where
  unfoldable pub with_first : UintTree
  with_first = (UintTree.put w (empty_tree w m top) 0 m).0

  pub first-IsValid : IsValid w with_first
  unfolding with_first
  first-IsValid =
      put-IsValid (empty-IsValid w m top hm hw e)
        (one_IsSubnet (empty_tree w m top) 0 (omega arith))

  pub first-bounds : (with_first.max_uint ≡ top) × (with_first.max_pref_bits ≡ m)
  unfolding with_first
  first-bounds = bounds_one (empty-IsValid w m top hm hw e) 0 (omega arith)

  pub first-covered : (x : ℕ) → x ≤ top → covered with_first x ≡ (0 == x)
  unfolding with_first
  first-covered x hx =
      rw (covered-empty w m top x) at
        (covered_one (empty-IsValid w m top hm hw e) 0 (omega arith) (covered-empty w m top 0) x hx)

  pub with_ends : UintTree
  with_ends = (UintTree.put w with_first top m).0

  top_le : top ≤ with_first.max_uint
  top_le = omega (arith, first-bounds.0)

  first_put :
      UintTree.put w with_first top with_first.max_pref_bits ≡ UintTree.put w with_first top m
  first_put = ap (λ (b : ℕ). UintTree.put w with_first top b) first-bounds.1

  pub ends-IsValid : IsValid w with_ends
  unfolding with_ends
  ends-IsValid = rw first_put at (put-IsValid first-IsValid (one_IsSubnet with_first top top_le))

  pub ends-bounds : (with_ends.max_uint ≡ top) × (with_ends.max_pref_bits ≡ m)
  unfolding with_ends
  ends-bounds =
      let p = rw first_put at (bounds_one first-IsValid top top_le) in
      (p.0 ∙ first-bounds.0, p.1 ∙ first-bounds.1)

  pub ends-covered : (x : ℕ) → x ≤ top → covered with_ends x ≡ (0 == x) || (top == x)
  unfolding with_ends
  ends-covered x hx =
      let free : covered with_first top ≡ false =
        first-covered top (omega arith) ∙ (ground (arith, top_pos)) in
      rw (first_put, first-covered x hx) at
        (covered_one first-IsValid top top_le free x (omega (arith, first-bounds.0, hx)))
    where
      top_pos : 0 < top
      top_pos =
          let two : 2 ^ suc (m - 1) ≡ 2 ^ (m - 1) * 2 = half_pow (m - 1) in
          let at_m : suc (m - 1) ≡ m = omega (arith, hm) in
          omega (arith, e, pow_pos (m - 1), rw at_m at two)

  -- The arguments of the second `Put` of `NewAddrTree4`.
  pub second_put :
      (UintTree.put w with_first
        (bit_and (2 ^ w - 1) with_first.max_uint)
        with_first.max_pref_bits).0
      ≡ with_ends
  unfolding with_ends
  second_put =
      let ones : bit_and (2 ^ w - 1) top ≡ top =
        let top_eq : top ≡ 2 ^ m - 1 = omega (arith, e) in
        rw top_eq (bit_and-mask m (2 ^ w - 1) ∙ ones_mod w m hw) in
      ap (λ (a : ℕ). (UintTree.put w with_first (bit_and (2 ^ w - 1) a) with_first.max_pref_bits).0)
        first-bounds.0
      ∙ ap (λ (b : ℕ). (UintTree.put w with_first (bit_and (2 ^ w - 1) top) b).0) first-bounds.1
      ∙ ap (λ (a : ℕ). (UintTree.put w with_first a m).0) ones
