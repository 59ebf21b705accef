-- ===== src/UintTree/Laws/Puts.antt =====
-- What `Put` does to the set of covered addresses, and when it refuses.
use tanlnode.Base.{
  ℕ, ◌-◌, ◌^◌, ◌≤◌, ◌≡◌, ◌↔◌, refl, sym, ◌∙◌, Bool, true, false, ◌&&◌, ◌||◌, some, arith, inl, inr,
  Option-cases,
}
use tanlnode.UintTree.{Node, UintTree, put, with_root, size_of_net}
use tanlnode.UintTree.Spec.{
  IsValid, IsSubnet, prefix_bits, length, covered, in_subnet, in_net, taken,
}
use tanlnode.UintTree.Trie.{insert}
use tanlnode.UintTree.Cover.Insert.{taken-insert}
use tanlnode.UintTree.Cover.Witness.{insert-eq-none}
use tanlnode.UintTree.Cover.Range.{in_net-eq-div, length-prefix_bits, net_size-prefix_bits}
use tanlnode.UintTree.Count.Insert.{insert-IsCounted}
use tanlnode.UintTree.Laws.{put-eq-insert}

-- How a call ended.
pub data PutCases (w : ℕ) (t : UintTree) (addr prefbits : ℕ) : UintTree × Bool → Type 0 where
  refused :
      (x : ℕ)
      → x ≤ t.max_uint
      → in_subnet t addr prefbits x ≡ true
      → covered t x ≡ true
      → PutCases w t addr prefbits (t, false)
  added :
      (root : Node)
      → insert w (size_of_net w t prefbits) t.root (prefix_bits t.max_pref_bits prefbits addr)
        ≡ some root
      → PutCases w t addr prefbits (record t { root = root }, true)

module _ {w : ℕ} {t : UintTree} (v : IsValid w t) {addr prefbits : ℕ}
    (s : IsSubnet t addr prefbits) where
  pub in_subnet-eq :
      (x : ℕ)
      → x ≤ t.max_uint
      → in_net t.max_pref_bits (prefix_bits t.max_pref_bits prefbits addr) x
        ≡ in_subnet t addr prefbits x
  in_subnet-eq x h =
      in_net-eq-div t.max_pref_bits prefbits addr x s.bits_le (omega (arith, v.bound, s.addr_le))
        (omega (arith, v.bound, h))

  pub bits_fit : length (prefix_bits t.max_pref_bits prefbits addr) ≤ t.max_pref_bits
  bits_fit = rw (length-prefix_bits t.max_pref_bits prefbits addr s.bits_le) s.bits_le

  pub put-cases : PutCases w t addr prefbits (put w t addr prefbits)
  put-cases =
      let bs = prefix_bits t.max_pref_bits prefbits addr in
      let diff = size_of_net w t prefbits in
      rw (put-eq-insert v s) (elim (Option-cases (insert w diff t.root bs)) [
        | inl e ↦
            let (x, hx, i, c) =
              insert-eq-none w diff t.max_pref_bits t.root bs bits_fit v.counted e in
            let le : x ≤ t.max_uint = omega (arith, v.bound, hx) in
            rw e (unfold with_root in refused x le (sym (in_subnet-eq x le) ∙ i) c)
        | inr (root, e) ↦ rw e (unfold with_root in added root e)
      ])

  pub added-covered :
      {root : Node}
      → insert w (size_of_net w t prefbits) t.root (prefix_bits t.max_pref_bits prefbits addr)
        ≡ some root
      → (x : ℕ) → x ≤ t.max_uint
      → (taken t.max_pref_bits root x ≡ covered t x || in_subnet t addr prefbits x)
        × (in_subnet t addr prefbits x && covered t x ≡ false)
  added-covered e x h = rw (← in_subnet-eq x h) (
      taken-insert w (size_of_net w t prefbits) t.max_pref_bits t.root
        (prefix_bits t.max_pref_bits prefbits addr) bits_fit e x)

  iff_cases :
      (r : UintTree × Bool)
      → PutCases w t addr prefbits r
      → (r.1 ≡ true)
        ↔ ((x : ℕ) → x ≤ t.max_uint → in_subnet t addr prefbits x ≡ true → covered t x ≡ false)
  iff_cases r (refused x h i c) = (λ e. cc, λ all. cc (all x h i))
  iff_cases r (added root e) = (λ _ x h i. let p = (added-covered e x h).1 in rw i at p, λ _. refl)

  covered_cases :
      (r : UintTree × Bool)
      → PutCases w t addr prefbits r
      → (x : ℕ) → x ≤ t.max_uint
      → covered r.0 x ≡ covered t x || r.1 && in_subnet t addr prefbits x
  covered_cases r (refused _ _ _ _) x h = ground arith
  covered_cases r (added root e) x h = (added-covered e x h).0

  cases-IsValid : (r : UintTree × Bool) → PutCases w t addr prefbits r → IsValid w r.0
  cases-IsValid r (refused _ _ _ _) = v
  cases-IsValid r (added root e) = record {
    level_pos = v.level_pos;
    level_le = v.level_le;
    mask = v.mask;
    bound = v.bound;
    counted =
        insert-IsCounted w t.max_pref_bits t.root (prefix_bits t.max_pref_bits prefbits addr)
          (2 ^ (t.max_pref_bits - prefbits)) bits_fit
          (sym (net_size-prefix_bits t.max_pref_bits prefbits addr s.bits_le)) v.counted e;
  }

  -- In a valid tree, `Put` of a subnet returns true exactly when no address of the subnet is
  -- covered by an assigned one.
  pub put_iff :
      ((put w t addr prefbits).1 ≡ true)
      ↔ ((x : ℕ) → x ≤ t.max_uint → in_subnet t addr prefbits x ≡ true → covered t x ≡ false)
  put_iff = iff_cases (put w t addr prefbits) put-cases

  -- In a valid tree, the addresses covered after `Put` of a subnet are those covered before and, if
  -- it returned true, those of the subnet.
  pub covered-put :
      (x : ℕ)
      → x ≤ t.max_uint
      → covered (put w t addr prefbits).0 x
        ≡ covered t x || (put w t addr prefbits).1 && in_subnet t addr prefbits x
  covered-put = covered_cases (put w t addr prefbits) put-cases

  -- `Put` of a subnet keeps the tree valid, whether or not it returns true: each counter holds the
  -- number of covered addresses below its node modulo the word size, and the mask, the bounds and
  -- the depth fit.
  pub put-IsValid : IsValid w (put w t addr prefbits).0
  put-IsValid = cases-IsValid (put w t addr prefbits) put-cases
