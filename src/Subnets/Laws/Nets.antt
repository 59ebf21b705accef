-- ===== src/Subnets/Laws/Nets.antt =====
-- The networks of the service stay what they are, and where no two share an address, what `Reserve`
-- and `AssignRandomInEachNet` assign was in use nowhere.
use tanlnode.Base.{
  ℕ, suc, ◌≡◌, refl, sym, ap, ◌∙◌, Bool, true, false, not, ◌&&◌, Option, none, some, List, [], ◌∷◌,
  arith, inl, inr, Bool-cases, ◌==◌,
}
use tanlnode.Netip.{Addr, Prefix, IsPrefix, contains, same_family}
use tanlnode.Utils.{make_prefix_from_addr}
use tanlnode.UintTree.{UintTree}
use tanlnode.AllocNets.Laws.{any_contains, AreDisjoint}
use tanlnode.IpTree
use tanlnode.IpTree.{
  IpTree, Result, ok, err, panic, within, host, host_bits, word_bits, put_result, delete_result,
  allocated_at, free_count, allocate_random,
}
use tanlnode.IpTree.Spec.{IsNet}
use tanlnode.IpTree.Bridge.{IsWithin, contains-eq, same_family-eq}
use tanlnode.IpTree.Laws.Puts.{PutEnds, outside, clash, assigned, put-ends}
use tanlnode.Subnets.{
  Service, Assigned, passed, tried, reserve, deleted, delete, assigned_one, assign_loop, roll_back,
  assigned_all, assign_random_in_each_net, is_out_of_net,
}
use tanlnode.Subnets.Spec.{in_use, IsService}

abbrev pub nets_of : Service → List Prefix
nets_of [] = []
nets_of (t ∷ ts) = t.net ∷ nets_of ts

put_result-net : (t : IpTree) (r : UintTree × Bool) → (put_result t r).0.net ≡ t.net
put_result-net t (u, true) = refl
put_result-net t (u, false) = refl

pub put-net : (t : IpTree) (pref : Prefix) → (IpTree.put t pref).0.net ≡ t.net
unfolding IpTree.put
put-net t pref = elim (Bool-cases (same_family pref.addr.family t.version)) [
  | inl f ↦ elim (Bool-cases (within t pref)) [
    | inl i ↦ rw (f, i) (put_result-net t _)
    | inr i ↦ rw (f, i) refl
  ]
  | inr f ↦ rw f refl
]

put_result-version : (t : IpTree) (r : UintTree × Bool) → (put_result t r).0.version ≡ t.version
put_result-version t (u, true) = refl
put_result-version t (u, false) = refl

pub put-version : (t : IpTree) (pref : Prefix) → (IpTree.put t pref).0.version ≡ t.version
unfolding IpTree.put
put-version t pref = elim (Bool-cases (same_family pref.addr.family t.version)) [
  | inl f ↦ elim (Bool-cases (within t pref)) [
    | inl i ↦ rw (f, i) (put_result-version t _)
    | inr i ↦ rw (f, i) refl
  ]
  | inr f ↦ rw f refl
]

pub delete-net : (t : IpTree) (pref : Prefix) → (IpTree.delete t pref).0.net ≡ t.net
unfolding IpTree.delete
delete-net t pref = elim (Bool-cases (within t pref)) [ inl i ↦ rw i refl | inr i ↦ rw i refl ]

allocated_at-net : (t : IpTree) (r : Option (UintTree × ℕ)) → (allocated_at t r).0.net ≡ t.net
allocated_at-net t none = refl
allocated_at-net t (some (u, offset)) = refl

allocate_random-net : (rand : ℕ → ℕ) (t : IpTree) → (allocate_random rand t).0.net ≡ t.net
unfolding allocate_random
allocate_random-net rand t = elim (Bool-cases (free_count t.tree == 0)) [
  | inl e ↦ rw e refl
  | inr e ↦ rw e (allocated_at-net t _)
]

passed-nets : (t : IpTree) (r : Service × Result ℕ) → nets_of (passed t r).0 ≡ t.net ∷ nets_of r.0
passed-nets t (s, ok i) = refl
passed-nets t (s, err e) = refl
passed-nets t (s, panic) = refl

tried-nets :
    (s : Service) (rest : Service × Result ℕ)
    → nets_of rest.0 ≡ nets_of s
    → (r : IpTree × Result (Unit {0})) → nets_of (tried s rest r).0 ≡ r.0.net ∷ nets_of s
tried-nets s rest h (t, ok u) = refl
tried-nets s rest h (t, err e) = elim (Bool-cases (is_out_of_net e)) [
  | inl o ↦ rw o (passed-nets t rest ∙ ap (λ (ns : List Prefix). t.net ∷ ns) h)
  | inr o ↦ rw o refl
]
tried-nets s rest h (t, panic) = refl

-- `Reserve` keeps the networks of the trees.
pub reserve-nets : (s : Service) (pref : Prefix) → nets_of (reserve s pref).0 ≡ nets_of s
unfolding reserve
reserve-nets [] pref = refl
reserve-nets (t ∷ s) pref =
    let rest = reserve-nets s pref in
    elim (Bool-cases (same_family t.version pref.addr.family)) [
      | inl e ↦ rw e (
          tried-nets s (reserve s pref) rest (IpTree.put t pref)
          ∙ ap (λ (n : Prefix). n ∷ nets_of s) (put-net t pref))
      | inr e ↦ rw e (passed-nets t (reserve s pref) ∙ ap (λ (ns : List Prefix). t.net ∷ ns) rest)
    ]

deleted-nets :
    (s : Service) (rest : Service × Bool)
    → nets_of rest.0 ≡ nets_of s
    → (r : IpTree × Bool) → nets_of (deleted s rest r).0 ≡ r.0.net ∷ nets_of s
deleted-nets s (s', b) h (t, true) = refl
deleted-nets s (s', b) h (t, false) = ap (λ (ns : List Prefix). t.net ∷ ns) h

pub delete-nets : (s : Service) (pref : Prefix) → nets_of (delete s pref).0 ≡ nets_of s
unfolding delete
delete-nets [] pref = refl
delete-nets (t ∷ s) pref =
    deleted-nets s (delete s pref) (delete-nets s pref) (IpTree.delete t pref)
    ∙ ap (λ (n : Prefix). n ∷ nets_of s) (delete-net t pref)

-- What an address has to do with the networks.
pub in_use-any_contains :
    (s : Service) (ip : Addr) → in_use s ip && not (any_contains (nets_of s) ip) ≡ false
in_use-any_contains [] ip = refl
in_use-any_contains (t ∷ s) ip = let h = in_use-any_contains s ip in ground (arith, h)

-- The addresses that a call has assigned were in use nowhere, and lie in the networks.
abbrev pub Fresh : Service → Prefix → Service × Result ℕ → Type 0
Fresh s pref (s', ok i) =
    (ip : Addr)
    → contains pref ip ≡ true
    → (in_use s ip ≡ false) × (any_contains (nets_of s) ip ≡ true)
Fresh s pref (s', err e) = Unit
Fresh s pref (s', panic) = Unit

module _ (t : IpTree) (s : Service) (pref : Prefix)
    (d : (ip : Addr) → contains t.net ip && any_contains (nets_of s) ip ≡ false) where
  pass-Fresh : (r : Service × Result ℕ) → Fresh s pref r → Fresh (t ∷ s) pref (passed t r)
  pass-Fresh (s', ok i) f = λ ip c.
      let (free, held) = f ip c in
      let e = d ip in (ground (arith, e, free, held), rw held (ground arith))
  pass-Fresh (s', err e) f = tt
  pass-Fresh (s', panic) f = tt

  try-Fresh :
      IsNet t
      → IsPrefix pref
      → same_family t.version pref.addr.family ≡ true
      → (rest : Service × Result ℕ) → Fresh s pref rest
      → (r : IpTree × Result (Unit {0})) → PutEnds t pref r
      → Fresh (t ∷ s) pref (tried s rest r)
  try-Fresh v p same rest f r (outside i) = pass-Fresh rest f
  try-Fresh v p same rest f r (clash i ip c a) = tt
  try-Fresh v p same rest f r (assigned i u n all) = λ ip c.
      let w : IsWithin t pref = record {
        pref_ok = p;
        same = sym (same_family-eq t.version pref.addr.family same);
        inside = i;
      } in
      let inside : contains t.net ip ≡ true = ground (arith, contains-eq v w ip, c) in
      let e = d ip in
      let a = (all ip).1 in
      let u' = in_use-any_contains s ip in (ground (arith, inside, e, a, c, u'), rw inside refl)

pub reserve-Fresh :
    (s : Service) (pref : Prefix)
    → IsService s
    → AreDisjoint (nets_of s)
    → IsPrefix pref
    → Fresh s pref (reserve s pref)
unfolding reserve
reserve-Fresh [] pref v d p = tt
reserve-Fresh (t ∷ s) pref (v, vs) (d, ds) p =
    let rest = reserve-Fresh s pref vs ds p in
    elim (Bool-cases (same_family t.version pref.addr.family)) [
      | inl e ↦ rw e (
          try-Fresh t s pref d v p e (reserve s pref) rest (IpTree.put t pref)
            (put-ends v p (sym (same_family-eq t.version pref.addr.family e))))
      | inr e ↦ rw e (pass-Fresh t s pref d (reserve s pref) rest)
    ]

assigned_one-nets :
    (s : Service) (rest : Assigned)
    → nets_of rest.0 ≡ nets_of s
    → (r : IpTree × Result Addr) → nets_of (assigned_one s rest r).0 ≡ r.0.net ∷ nets_of s
assigned_one-nets s (s', addrs, r) h (t, ok a) = ap (λ (ns : List Prefix). t.net ∷ ns) h
assigned_one-nets s rest h (t, err e) = refl
assigned_one-nets s rest h (t, panic) = refl

assign_loop-nets :
    (rand : ℕ → ℕ → ℕ) (i : ℕ) (s : Service) → nets_of (assign_loop rand i s).0 ≡ nets_of s
unfolding assign_loop
assign_loop-nets rand i [] = refl
assign_loop-nets rand i (t ∷ s) =
    assigned_one-nets s (assign_loop rand (suc i) s) (assign_loop-nets rand (suc i) s)
      (allocate_random (rand i) t)
    ∙ ap (λ (n : Prefix). n ∷ nets_of s) (allocate_random-net (rand i) t)

roll_back-nets : (s : Service) (addrs : List Addr) → nets_of (roll_back s addrs) ≡ nets_of s
unfolding roll_back
roll_back-nets s [] = refl
roll_back-nets [] (a ∷ addrs) = refl
roll_back-nets (t ∷ s) (a ∷ addrs) =
    rw (delete-net t (make_prefix_from_addr a), roll_back-nets s addrs) refl

assigned_all-nets : (r : Assigned) → nets_of (assigned_all r).0 ≡ nets_of r.0
assigned_all-nets (s, addrs, ok u) = refl
assigned_all-nets (s, addrs, err e) = roll_back-nets s addrs
assigned_all-nets (s, addrs, panic) = refl

-- `AssignRandomInEachNet` keeps the networks of the trees.
pub assign-nets :
    (rand : ℕ → ℕ → ℕ) (s : Service) → nets_of (assign_random_in_each_net rand s).0 ≡ nets_of s
unfolding assign_random_in_each_net
assign-nets rand s = assigned_all-nets (assign_loop rand 0 s) ∙ assign_loop-nets rand 0 s
