-- ===== src/UintTree/Nth/Pick.antt =====
-- The loop of `PutNthFree` ends at the free address with `n` free ones below it.
use native.Mathlib.Nat.{mod-eq_of_lt, pow-le-pow_right, mul_assoc}
use native.Mathlib.Decide.{dec_lt}
use tanlnode.Base.{
  ℕ, zero, suc, ◌+◌, ◌-◌, ◌*◌, ◌/◌, ◌%◌, ◌^◌, ◌≤◌, ◌<◌, ◌≡◌, sym, ap, ◌∙◌, false, arith, inl, inr,
  Bool-cases,
}
use tanlnode.Base.Bits.{bit, bit_or-clear, half_pow, pow_half, pow_pos}
use tanlnode.UintTree.{Node, nil, node, is_leaf, children_cnt, left_free, nth_free_loop}
use tanlnode.UintTree.Spec.{taken, used, IsCounted}
use tanlnode.UintTree.Cover.{taken-nil}
use tanlnode.UintTree.Count.{used-nil, used-inner, used-is_leaf}
use tanlnode.UintTree.Nth.{count_free, count_free_none}
use tanlnode.UintTree.Nth.Total.{
  taken-left, taken-right, count_free-left, count_free-right, count_free-total,
}

bit-multiple : (k q : ℕ) → bit k (q * 2 ^ suc k) ≡ false
bit-multiple zero q = ground arith
bit-multiple (suc k) q =
    rw (half_pow (suc k), sym (mul_assoc q (2 ^ suc k) 2), halve (q * 2 ^ suc k)) (bit-multiple k q)
  where
    halve : (m : ℕ) → m * 2 / 2 ≡ m
    halve m = omega arith

pub used-le : (w level : ℕ) (n : Node) → IsCounted w level n → used level n ≤ 2 ^ level
used-le w level n v = omega (arith, count_free-total w level n v)

pub children_cnt-eq-used :
    (w level : ℕ) (n : Node) → IsCounted w level n → children_cnt n ≡ used level n % 2 ^ w
children_cnt-eq-used w level nil v = rw (used-nil level) (grind (arith, pow_pos w))
children_cnt-eq-used w zero (node l r c) v = unfold used in v.2
children_cnt-eq-used w (suc k) (node l r c) v = v.0

pow_lt : (k w : ℕ) → k < w → 2 ^ k < 2 ^ w
pow_lt k w h = omega (arith, pow_pos k, half_pow k, pow-le-pow_right {n = 2} (omega arith) h)

sub-mod : (x y m : ℕ) → y ≤ x → x < m → (x + m - y) % m ≡ x - y
sub-mod x y m h hx = grind arith

-- `leftFreeElsCnt` is the number of free addresses on the left.
left_free-eq :
    (w k : ℕ) (l : Node) → k < w → IsCounted w k l → left_free w l (2 ^ k) ≡ 2 ^ k - used k l
left_free-eq w k nil h v = rw (used-nil k) (omega arith)
left_free-eq w k (node l r c) h v =
    ap (λ (t : ℕ). (2 ^ k + 2 ^ w - t) % 2 ^ w)
      (children_cnt-eq-used w k (node l r c) v
        ∙ mod-eq_of_lt (omega (arith, used-le w k (node l r c) v, pow_lt k w h)))
    ∙ sub-mod (2 ^ k) (used k (node l r c)) (2 ^ w) (used-le w k (node l r c) v) (pow_lt k w h)

-- The result for the address `x` of a node whose addresses begin at `net_start`.
pub record Picks (w level : ℕ) (n : Node) (net_start m bit x : ℕ) : Type 0 where
  pub in_range : x < 2 ^ level
  pub result : nth_free_loop w n net_start m bit ≡ net_start + x
  pub free : taken level n x ≡ false
  pub rank : count_free (taken level n) x ≡ m

module _ (w : ℕ) where
  Picks-nil :
      (level net_start m bit : ℕ)
      → net_start + 2 ^ level ≤ 2 ^ w
      → m + used level nil < 2 ^ level
      → Picks w level nil net_start m bit m
  unfolding nth_free_loop
  Picks-nil level net_start m bit fits h = record {
    in_range = omega (arith, h);
    result = mod-eq_of_lt (omega (arith, h));
    free = taken-nil level m;
    rank = count_free_none (taken level nil) m (taken-nil level);
  }

  Picks-left :
      (k : ℕ) (l r : Node) (c net_start m x : ℕ)
      → k < w
      → is_leaf (node l r c) ≡ false
      → IsCounted w k l
      → m < 2 ^ k - used k l
      → Picks w k l net_start m (2 ^ k / 2) x
      → Picks w (suc k) (node l r c) net_start m (2 ^ k) x
  unfolding nth_free_loop
  Picks-left k l r c net_start m x hk leaf v h p = record {
    in_range = omega (arith, half_pow k, p.in_range);
    result = rw (left_free-eq w k l hk v) (ground (arith, p.result));
    free = taken-left k (node l r c) x leaf p.in_range ∙ p.free;
    rank = count_free-left k (node l r c) x leaf (omega (arith, p.in_range)) ∙ p.rank;
  }

  Picks-right :
      (k : ℕ) (l r : Node) (c net_start m x : ℕ)
      → k < w
      → is_leaf (node l r c) ≡ false
      → IsCounted w k l
      → 2 ^ k - used k l ≤ m
      → m < 2 ^ w
      → bit k net_start ≡ false
      → Picks w k r (net_start + 2 ^ k) (m - (2 ^ k - used k l)) (2 ^ k / 2) x
      → Picks w (suc k) (node l r c) net_start m (2 ^ k) (2 ^ k + x)
  unfolding nth_free_loop
  Picks-right k l r c net_start m x hk leaf v h hm clear p = record {
    in_range = omega (arith, half_pow k, p.in_range);
    result =
        rw
          (
            left_free-eq w k l hk v,
            bit_or-clear k net_start clear,
            sub-mod m (2 ^ k - used k l) (2 ^ w) h hm,
          )
          (ground (arith, p.result));
    free = taken-right k (node l r c) x leaf p.in_range ∙ p.free;
    rank =
        rw (count_free-right k (node l r c) x leaf (omega (arith, p.in_range)))
          (omega (arith, p.rank, count_free-total w k l v, used-le w k l v));
  }

  start_left : (k q : ℕ) → q * 2 ^ suc k ≡ q * 2 * 2 ^ k
  start_left k q = rw (half_pow k) (omega arith)

  start_right : (k q : ℕ) → q * 2 ^ suc k + 2 ^ k ≡ (q * 2 + 1) * 2 ^ k
  start_right k q = rw (half_pow k) (omega arith)

  -- Below the number of free addresses the loop picks.
  pub picks :
      (level : ℕ) (n : Node) (net_start q m : ℕ)
      → level ≤ w
      → net_start ≡ q * 2 ^ level
      → net_start + 2 ^ level ≤ 2 ^ w
      → IsCounted w level n
      → m + used level n < 2 ^ level
      → (x : ℕ) × Picks w level n net_start m (2 ^ level / 2) x
  picks level nil net_start q m hl start fits v h =
      (m, Picks-nil level net_start m (2 ^ level / 2) fits h)
  picks zero (node l r c) net_start q m hl start fits v h = absurd (unfold used in omega (arith, h))
  picks (suc k) (node l r c) net_start q m hl start fits v h =
      elim (Bool-cases (is_leaf (node l r c))) [
        | inl e ↦ absurd (omega (arith, h, used-is_leaf (suc k) (node l r c) e))
        | inr e ↦ rw (pow_half k) (elim (dec_lt m (2 ^ k - used k l)) [
          | yes lt ↦
              let (x, p) =
                picks k l net_start (q * 2) m (omega arith) (start ∙ start_left k q)
                  (omega (arith, half_pow k)) v.1 (omega (arith, lt)) in
              (x, Picks-left k l r c net_start m x hl e v.1 lt p)
          | no ge ↦
              let (x, p) =
                picks k r (net_start + 2 ^ k) (q * 2 + 1) (m - (2 ^ k - used k l)) (omega arith)
                  (rw start (start_right k q)) (omega (arith, half_pow k)) v.2
                  (omega (arith, h, half_pow k, used-inner k (node l r c) e, used-le w k l v.1)) in
              (
                2 ^ k + x,
                Picks-right k l r c net_start m x hl e v.1 (omega arith) (omega (arith, h))
                    (rw start (bit-multiple k q)) p,
              )
        ])
      ]
