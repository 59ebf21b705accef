-- ===== src/IpTree/Laws/Allocates.antt =====
-- What `AllocateRandom` hands out.
use native.Mathlib.Nat.{mod-eq_of_lt, pow-le-pow_right}
use tanlnode.Base.{
  ℕ, zero, suc, ◌+◌, ◌-◌, ◌%◌, ◌^◌, ◌≤◌, ◌<◌, ◌≡◌, ◌≢◌, ◌↔◌, ◌⊎◌, Option, none, if◌then◌else◌, refl,
  sym, ap, ◌∙◌, Bool, true, false, ◌||◌, arith, inl, inr, Bool-cases, some, ==_iff, ◌==◌,
}
use tanlnode.Netip.{Family, v4, v6, Addr, contains, addr_eq}
use tanlnode.Utils.{make_prefix_from_addr}
use tanlnode.UintTree
use tanlnode.UintTree.{UintTree}
use tanlnode.UintTree.Spec.{covered}
use tanlnode.UintTree.Nth.{count_free}
use tanlnode.UintTree.Laws.Picks.{TakesFree, put_nth_free_lem}
use tanlnode.UintTree.Laws.Sizes.{size-add-free}
use tanlnode.IpTree.{
  Result, IpTree, ok, err, no_free_addr, word_bits, free_count, allocate_random, delete,
  allocated_at,
}
use tanlnode.IpTree.Spec.{IsNet, allocated}
use tanlnode.IpTree.Laws.Puts.{put-IsNet, allocated-put}
use tanlnode.IpTree.Laws.Deletes.{delete-put_net}
use tanlnode.IpTree.Offsets.{addr_at, host-le, allocated-addr_at, contains-addr_at}
use tanlnode.IpTree.Laws.One.{add_offset-eq, contains-one, one_inside, put_one}

word_bits-le : (f : Family) → word_bits f ≤ 64
word_bits-le v4 = omega arith
word_bits-le v6 = omega arith

all_covered : (c : ℕ → Bool) (n : ℕ) → count_free c n ≡ 0 → (x : ℕ) → x < n → c x ≡ true
unfolding count_free
all_covered c zero h x l = absurd (omega (arith, l))
all_covered c (suc n) h x l = elim (Bool-cases (x == n)) [
  | inl e ↦ rw ((==_iff x n).0 e) (ground arith)
  | inr e ↦ all_covered c n (ground arith) x (ground arith)
]

none_free : (c : ℕ → Bool) (n : ℕ) → ((x : ℕ) → x < n → c x ≡ true) → count_free c n ≡ 0
unfolding count_free
none_free c zero h = refl
none_free c (suc n) h = rw (h n (omega arith), none_free c n (λ x l. h x (omega (arith, l)))) refl

-- The free addresses of a network.
abbrev pub free_of : IpTree → ℕ
free_of t = count_free (covered t.tree) (t.tree.max_uint + 1)

module _ {t : IpTree} (v : IsNet t) where
  size_bound : t.tree.max_uint + 1 ≤ 2 ^ 64
  size_bound =
      let a : 2 ^ t.tree.max_pref_bits ≤ 2 ^ 64 =
        pow-le-pow_right {n = 2} (omega arith) {i = t.tree.max_pref_bits} {j = 64}
          (omega (arith, v.valid.level_le, word_bits-le t.version)) in
      omega (arith, v.valid.bound, a)

  -- The count of the code is right once an address is assigned: then not all 2 ^ 64 are free.
  free_count-eq : 0 < UintTree.size t.tree → free_count t.tree ≡ free_of t
  free_count-eq h = omega (arith, size_bound, size-add-free v.valid, h)

-- The address `ip` of `t` was handed out, with `n` free ones below it, and `t'` is the new network.
pub record Allocates (t : IpTree) (n : ℕ) (t' : IpTree) (ip : Addr) : Type 0 where
  pub in_net : contains t.net ip ≡ true
  pub was_free : allocated t ip ≡ false
  pub rank : count_free (covered t.tree) (ip.value - t.net.addr.value) ≡ n
  pub net_valid : IsNet t'
  pub now_allocated : (a : Addr) → allocated t' a ≡ allocated t a || addr_eq ip a
  pub released : delete t' (make_prefix_from_addr ip) ≡ (t, true)

run :
    (rand_int : ℕ → ℕ) (t : IpTree) (n : ℕ)
    → free_count t.tree ≡ n
    → allocate_random rand_int t ≡ (
        if n == 0
        then (t, err no_free_addr)
        else allocated_at t (
            UintTree.put_nth_free
              (word_bits t.version)
              t.tree
              (rand_int n % 2 ^ word_bits t.version)))
unfolding allocate_random
run rand_int t n e =
    ap
      (λ (n : ℕ).
        if n == 0
        then (t, err no_free_addr)
        else allocated_at t (
            UintTree.put_nth_free (word_bits t.version) t.tree
              (rand_int n % 2 ^ word_bits t.version)))
      e

not_err : (t : IpTree) (r : Option (UintTree × ℕ)) → (allocated_at t r).1 ≢ err no_free_addr
not_err t none h = cc
not_err t (some _) h = cc

zero_or_pos : (n : ℕ) → (n ≡ 0) ⊎ (0 < n)
zero_or_pos zero = inl refl
zero_or_pos (suc n) = inr (omega arith)

module _ {t : IpTree} (v : IsNet t) (rand_int : ℕ → ℕ)
    (counted : free_count t.tree ≡ free_of t) where
  handed_out :
      (u : UintTree) (x : ℕ)
      → TakesFree (word_bits t.version) t.tree (rand_int (free_of t)) u x
      → Allocates t (rand_int (free_of t)) (record t { tree = u }) (addr_at t x)
  handed_out u x p =
      let e = put_one v x p.in_range u p.is_put in
      let s = one_inside v x p.in_range in
      let same = s.same in
      record {
        in_net = contains-addr_at v x p.in_range;
        was_free = rw (allocated-addr_at v x p.in_range) p.was_free;
        rank = ap (λ (k : ℕ). count_free (covered t.tree) k) (omega arith) ∙ p.rank;
        net_valid = rw e at (put-IsNet v s.pref_ok same);
        now_allocated = λ a. rw (e, contains-one) at (allocated-put v s.pref_ok same a);
        released = rw e at (delete-put_net v s.pref_ok (rw e refl));
      }

  run_full : free_of t ≡ 0 → allocate_random rand_int t ≡ (t, err no_free_addr)
  run_full h = run rand_int t 0 (counted ∙ h) ∙ refl

  run_free :
      0 < free_of t
      → allocate_random rand_int t
        ≡ allocated_at t (
            UintTree.put_nth_free
              (word_bits t.version)
              t.tree
              (rand_int (free_of t) % 2 ^ word_bits t.version))
  run_free h =
      let some_free : (free_of t == 0) ≡ false = ground (arith, h) in
      run rand_int t (free_of t) (counted) ∙ rw some_free refl

  word_bound : 2 ^ t.tree.max_pref_bits ≤ 2 ^ word_bits t.version
  word_bound =
      pow-le-pow_right {n = 2} (omega arith) {i = t.tree.max_pref_bits} {j = word_bits t.version}
        (omega (arith, v.valid.level_le))

  hands_out :
      0 < free_of t
      → rand_int (free_of t) < free_of t
      → (ip : Addr) × (t' : IpTree) × (allocate_random rand_int t ≡ (t', ok ip))
        × Allocates t (rand_int (free_of t)) t' ip
  hands_out hf hr =
      let (x, u, e, p) = put_nth_free_lem v.valid (rand_int (free_of t)) hr in
      let fits : rand_int (free_of t) % 2 ^ word_bits t.version ≡ rand_int (free_of t) =
        mod-eq_of_lt (omega (arith, hr, size-add-free v.valid, v.valid.bound, word_bound)) in
      (
        addr_at t x,
        record t { tree = u },
        run_free hf ∙ rw (fits, e, add_offset-eq v x p.in_range) refl,
        handed_out u x p,
      )

-- No address is free: all are assigned, or none is and the count wrapped around.
abbrev pub IsExhausted : IpTree → Type 0
IsExhausted t =
    0 < UintTree.size t.tree → (ip : Addr) → contains t.net ip ≡ true → allocated t ip ≡ true

exhausted : {t : IpTree} → IsNet t → free_count t.tree ≡ 0 → IsExhausted t
exhausted {t} v e h ip c = rw c (
    all_covered (covered t.tree) (t.tree.max_uint + 1) (sym (free_count-eq v h) ∙ e) _
      (omega (arith, host-le v ip)))

-- How a call ended.
pub data AllocateEnds (t : IpTree) : IpTree × Result Addr → Type 0 where
  no_address : IsExhausted t → AllocateEnds t (t, err no_free_addr)
  given : (n : ℕ) (t' : IpTree) (ip : Addr) → Allocates t n t' ip → AllocateEnds t (t', ok ip)

-- The count of the code is 0 or right, also before any address is assigned.
free_count-eq_pos : {t : IpTree} → IsNet t → 0 < free_count t.tree → free_count t.tree ≡ free_of t
free_count-eq_pos {t} v h = omega (arith, size_bound v, size-add-free v.valid, h)

-- With numbers from the random source that are in range, a call takes an address or changes nothing.
pub allocate-ends :
    {t : IpTree} (rand_int : ℕ → ℕ)
    → IsNet t
    → ((max : ℕ) → 0 < max → rand_int max < max)
    → AllocateEnds t (allocate_random rand_int t)
allocate-ends {t} rand_int v random = elim (zero_or_pos (free_count t.tree)) [
  | inl e ↦ rw (run rand_int t 0 e) (no_address (exhausted v e))
  | inr l ↦
      let e = free_count-eq_pos v l in
      let l' : 0 < free_of t = omega (arith, l, e) in
      let (ip, t', run_eq, p) = hands_out v rand_int e l' (random (free_of t) l') in
      rw run_eq (given (rand_int (free_of t)) t' ip p)
]

module _ {t : IpTree} (v : IsNet t) (rand_int : ℕ → ℕ) (assigned : 0 < UintTree.size t.tree) where
  -- In a valid network with an assigned address and a free one, if the random number is below the
  -- number of free addresses, then `AllocateRandom` returns the free address of the network with
  -- that number of free ones below it; the new network is valid, has that address assigned besides
  -- the old ones, and `Delete` of the address gives back the network from before.
  pub allocate_random_lem :
      0 < free_of t
      → rand_int (free_of t) < free_of t
      → (ip : Addr) × (t' : IpTree) × (allocate_random rand_int t ≡ (t', ok ip))
        × Allocates t (rand_int (free_of t)) t' ip
  allocate_random_lem = hands_out v rand_int (free_count-eq v assigned)

  -- In a valid network with an assigned address, `AllocateRandom` returns `ErrNoFreeAddr` exactly
  -- when every address of the network is assigned.
  pub allocate_random-no_free :
      ((allocate_random rand_int t).1 ≡ err no_free_addr)
      ↔ ((ip : Addr) → contains t.net ip ≡ true → allocated t ip ≡ true)
  allocate_random-no_free = (
    λ q ip c.
        let full : free_of t ≡ 0 = elim (zero_or_pos (free_of t)) [
          | inl e ↦ e
          | inr l ↦
              absurd (not_err t _ (rw (run_free v rand_int (free_count-eq v assigned) l) at q))
        ] in
        rw c
          (all_covered (covered t.tree) (t.tree.max_uint + 1) full _ (omega (arith, host-le v ip))),
    λ q.
        rw
          (run_full v rand_int (free_count-eq v assigned) (
            none_free (covered t.tree) (t.tree.max_uint + 1) (λ x l.
              let h : x ≤ t.tree.max_uint = omega (arith, l) in
              rw (allocated-addr_at v x h) at (q (addr_at t x) (contains-addr_at v x h)))))
          refl,
  )
