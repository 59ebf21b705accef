-- ===== src/UintTree/Laws/Picks.antt =====
-- `PutNthFree` takes the n-th free address.
use tanlnode.Base.{
  ℕ, suc, ◌+◌, ◌-◌, ◌/◌, ◌^◌, ◌≤◌, ◌<◌, ◌≡◌, refl, sym, ap, ◌∙◌, Bool, true, false, ◌||◌, some,
  arith, ◌==◌, ==_iff,
}
use native.Mathlib.Nat.{pow-le-pow_right}
use tanlnode.Base.Bits.{pow_half}
use tanlnode.UintTree.{UintTree, put, put_nth_free, nth_free_loop, placed}
use tanlnode.UintTree.Spec.{IsValid, IsSubnet, covered, in_subnet, used}
use tanlnode.UintTree.Nth.{count_free}
use tanlnode.UintTree.Nth.Pick.{Picks, picks}
use tanlnode.UintTree.Nth.Total.{count_free-total}
use tanlnode.UintTree.Laws.Puts.{put_iff, covered-put, put-IsValid}

-- One address, as the subnet of the full length.
pub one_IsSubnet : (t : UintTree) (x : ℕ) → x ≤ t.max_uint → IsSubnet t x t.max_pref_bits
one_IsSubnet t x h = record { addr_le = h; bits_le = omega arith }

pub in_subnet_one : (t : UintTree) (x y : ℕ) → in_subnet t x t.max_pref_bits y ≡ (x == y)
in_subnet_one t x y =
    let e : t.max_pref_bits - t.max_pref_bits ≡ 0 = omega arith in rw e (ground arith)

-- The free address `x` was taken from `t`, with `n` free ones below it, and `t'` is the new tree.
pub record TakesFree (w : ℕ) (t : UintTree) (n : ℕ) (t' : UintTree) (x : ℕ) : Type 0 where
  pub in_range : x ≤ t.max_uint
  pub was_free : covered t x ≡ false
  pub rank : count_free (covered t) x ≡ n
  pub is_put : put w t x t.max_pref_bits ≡ (t', true)
  pub valid : IsValid w t'
  pub now_covered : (y : ℕ) → y ≤ t.max_uint → covered t' y ≡ covered t y || (x == y)

module _ {w : ℕ} {t : UintTree} (v : IsValid w t) where
  picked :
      (n : ℕ)
      → n < count_free (covered t) (t.max_uint + 1)
      → (x : ℕ) × Picks w t.max_pref_bits t.root 0 n t.ms_bit x
  picked n h =
      let e : suc (t.max_pref_bits - 1) ≡ t.max_pref_bits = omega (arith, v.level_pos) in
      let mask : 2 ^ t.max_pref_bits / 2 ≡ t.ms_bit =
        rw (← e) (pow_half (t.max_pref_bits - 1) ∙ sym v.mask) in
      let low : 0 + 2 ^ t.max_pref_bits ≤ 2 ^ w = omega (arith, word_le) in
      let room : n + used t.max_pref_bits t.root < 2 ^ t.max_pref_bits =
        omega (arith, count_free-total w t.max_pref_bits t.root v.counted, free_eq, h) in
      rw mask at (
        picks w t.max_pref_bits t.root 0 0 n (omega (arith, v.level_le)) (omega arith) low v.counted
          room)
    where
      word_le : 2 ^ t.max_pref_bits ≤ 2 ^ w
      word_le =
          pow-le-pow_right {n = 2} (omega arith) {i = t.max_pref_bits} {j = w}
            (omega (arith, v.level_le))

      free_eq :
          count_free (covered t) (t.max_uint + 1) ≡ count_free (covered t) (2 ^ t.max_pref_bits)
      free_eq = ap (count_free (covered t)) v.bound

  taken_one : (x : ℕ) → x ≤ t.max_uint → covered t x ≡ false → (put w t x t.max_pref_bits).1 ≡ true
  taken_one x h e = (put_iff v (one_IsSubnet t x h)).1 (λ y hy i.
      let same_addr : x ≡ y = (==_iff x y).0 (rw in_subnet_one at i) in rw (← same_addr) e)

  takes_cases :
      (n x : ℕ)
      → x ≤ t.max_uint
      → covered t x ≡ false
      → count_free (covered t) x ≡ n
      → (r : UintTree × Bool) → put w t x t.max_pref_bits ≡ r
      → r.1 ≡ true
      → (t' : UintTree) × (placed x r ≡ some (t', x)) × TakesFree w t n t' x
  unfolding placed
  takes_cases n x hx free rank (t', false) er e = cc
  takes_cases n x hx free rank (t', true) er e = (
    t',
    refl,
    record {
      in_range = hx;
      was_free = free;
      rank = rank;
      is_put = er;
      valid = rw er at (put-IsValid v (one_IsSubnet t x hx));
      now_covered = λ y hy. rw (er, in_subnet_one) at (covered-put v (one_IsSubnet t x hx) y hy);
    },
  )

  -- In a valid tree, for every `n` below the number of free addresses, `PutNthFree` does not panic:
  -- it returns an address of the tree that is not covered and has exactly `n` free addresses below
  -- it, and the new tree is valid and covers that address besides the old ones.
  pub put_nth_free_lem :
      (n : ℕ)
      → n < count_free (covered t) (t.max_uint + 1)
      → (x : ℕ) × (t' : UintTree) × (put_nth_free w t n ≡ some (t', x)) × TakesFree w t n t' x
  unfolding put_nth_free
  put_nth_free_lem n h =
      let (x, p) = picked n h in
      let hx : x ≤ t.max_uint = omega (arith, p.in_range, v.bound) in
      let at_x : nth_free_loop w t.root 0 n t.ms_bit ≡ x = omega (arith, p.result) in
      let (t', e, q) =
        takes_cases n x hx p.free p.rank (put w t x t.max_pref_bits) refl (taken_one x hx p.free) in
      (x, t', rw at_x e, q)
