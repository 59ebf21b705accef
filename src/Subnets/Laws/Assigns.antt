-- ===== src/Subnets/Laws/Assigns.antt =====
-- `AssignRandomInEachNet`, with what it undoes on failure.
use tanlnode.Base.{ℕ, suc, ◌≡◌, refl, true, false, ◌||◌, List, [], ◌∷◌}
use tanlnode.Netip.{Addr, contains, addr_eq}
use tanlnode.IpTree.{IpTree, Result, ok, err, no_free_addr, allocate_random}
use tanlnode.IpTree.Spec.{IsNet, allocated}
use tanlnode.IpTree.Laws.Allocates.{
  IsExhausted, Allocates, AllocateEnds, no_address, given, allocate-ends,
}
use tanlnode.Subnets.{
  Service, Assigned, assigned_one, assign_loop, roll_back, assigned_all, assign_random_in_each_net,
}
use tanlnode.Subnets.Spec.{IsService, IsRandom}

-- In every network of `s` the address at its place was free, `s'` is the service with it assigned.
pub data EachTaken : Service → List Addr → Service → Type 0 where
  done : EachTaken [] [] []
  took :
      (t t' : IpTree) (a : Addr) (s : Service) (addrs : List Addr) (s' : Service)
      → contains t.net a ≡ true
      → allocated t a ≡ false
      → ((ip : Addr) → allocated t' ip ≡ allocated t ip || addr_eq a ip)
      → IsNet t'
      → EachTaken s addrs s'
      → EachTaken (t ∷ s) (a ∷ addrs) (t' ∷ s')

-- Some network has no address to give.
pub data SomeExhausted : Service → Type 0 where
  here : {t : IpTree} {s : Service} → IsExhausted t → SomeExhausted (t ∷ s)
  there : {t : IpTree} {s : Service} → SomeExhausted s → SomeExhausted (t ∷ s)

-- How the loop ended.
data LoopEnds (s : Service) : Assigned → Type 0 where
  all_taken :
      (addrs : List Addr) (s' : Service) → EachTaken s addrs s' → LoopEnds s (s', addrs, ok tt)
  ran_out :
      (addrs : List Addr) (s' : Service)
      → roll_back s' addrs ≡ s
      → SomeExhausted s
      → LoopEnds s (s', addrs, err no_free_addr)

first_ran_out :
    {t : IpTree} {s : Service} → IsExhausted t → LoopEnds (t ∷ s) (t ∷ s, [], err no_free_addr)
unfolding roll_back
first_ran_out {t} {s} x = ran_out [] (t ∷ s) refl (here x)

next :
    {t : IpTree} {s : Service} (n : ℕ) (t' : IpTree) (a : Addr)
    → Allocates t n t' a
    → (r : Assigned) → LoopEnds s r
    → LoopEnds (t ∷ s) (assigned_one s r (t', ok a))
unfolding roll_back
next n t' a p r (all_taken addrs s' q) =
    all_taken (a ∷ addrs) (t' ∷ s')
      (took _ t' a _ addrs s' p.in_net p.was_free p.now_allocated p.net_valid q)
next n t' a p r (ran_out addrs s' back x) =
    ran_out (a ∷ addrs) (t' ∷ s') (rw (p.released, back) refl) (there x)

one_ends :
    {t : IpTree} {s : Service} (r : Assigned) (x : IpTree × Result Addr)
    → AllocateEnds t x
    → LoopEnds s r
    → LoopEnds (t ∷ s) (assigned_one s r x)
one_ends r x (no_address e) q = first_ran_out e
one_ends r x (given n t' a p) q = next n t' a p r q

loop_ends :
    (rand : ℕ → ℕ → ℕ) (i : ℕ) (s : Service)
    → IsRandom rand
    → IsService s
    → LoopEnds s (assign_loop rand i s)
unfolding assign_loop
loop_ends rand i [] h v = all_taken [] [] done
loop_ends rand i (t ∷ s) h (v, vs) =
    one_ends (assign_loop rand (suc i) s) (allocate_random (rand i) t)
      (allocate-ends (rand i) v (h i)) (loop_ends rand (suc i) s h vs)

-- The result of the method.
pub data AssignEnds (s : Service) : Service × Result (List Addr) → Type 0 where
  each_taken :
      (addrs : List Addr) (s' : Service) → EachTaken s addrs s' → AssignEnds s (s', ok addrs)
  unchanged : SomeExhausted s → AssignEnds s (s, err no_free_addr)

all_ends : {s : Service} (r : Assigned) → LoopEnds s r → AssignEnds s (assigned_all r)
all_ends r (all_taken addrs s' q) = each_taken addrs s' q
all_ends r (ran_out addrs s' back x) = rw back (unchanged x)

-- In a valid service, with numbers from the random source in range, `AssignRandomInEachNet` either
-- returns one address for each network in order, each in its network and not assigned there before,
-- and leaves the networks valid and with just these addresses assigned in addition; or it returns
-- `ErrNoFreeAddr`, leaves the service exactly as it was, and some network has all its
-- addresses assigned or none at all. It does not panic.
pub assign-ends :
    (rand : ℕ → ℕ → ℕ) (s : Service)
    → IsRandom rand
    → IsService s
    → AssignEnds s (assign_random_in_each_net rand s)
unfolding assign_random_in_each_net
assign-ends rand s h v = all_ends (assign_loop rand 0 s) (loop_ends rand 0 s h v)
