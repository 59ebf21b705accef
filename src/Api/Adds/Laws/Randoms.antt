-- ===== src/Api/Adds/Laws/Randoms.antt =====
-- What the rollback of `apiAddPeer` makes of the random addresses that its action has assigned.
use tanlnode.Base.{ℕ, suc, ◌≡◌, refl, ap, ◌∙◌, Bool, true, List, [], ◌∷◌}
use tanlnode.Netip.{Addr}
use tanlnode.Utils.{make_prefix_from_addr}
use tanlnode.IpTree
use tanlnode.IpTree.{IpTree, Result, ok, err, panic, allocate_random}
use tanlnode.IpTree.Laws.Allocates.{AllocateEnds, no_address, given, allocate-ends}
use tanlnode.Subnets.{
  Service, Assigned, assigned_one, assign_loop, assigned_all, assign_random_in_each_net, delete_at,
}
use tanlnode.Subnets.Spec.{IsService, IsRandom}
use tanlnode.Api.Adds.Subnets.{delete_trees, random_subnets}

-- In each network `Delete` of the address gives back the tree of `s`.
pub data EachGiven : Service → List Addr → Service → Type 0 where
  none_given : EachGiven [] [] []
  gave :
      (t t' : IpTree) (a : Addr) (s : Service) (addrs : List Addr) (s' : Service)
      → IpTree.delete t' (make_prefix_from_addr a) ≡ (t, true)
      → EachGiven s addrs s'
      → EachGiven (t ∷ s) (a ∷ addrs) (t' ∷ s')

abbrev GivesLoop : Service → Assigned → Type 0
GivesLoop s (s', addrs, ok u) = EachGiven s addrs s'
GivesLoop s (s', addrs, err e) = Unit
GivesLoop s (s', addrs, panic) = Unit

gives_next :
    (t t' : IpTree) (a : Addr) (s : Service)
    → IpTree.delete t' (make_prefix_from_addr a) ≡ (t, true)
    → (r : Assigned) → GivesLoop s r
    → GivesLoop (t ∷ s) (assigned_one s r (t', ok a))
gives_next t t' a s e (s', addrs, ok u) g = gave t t' a s addrs s' e g
gives_next t t' a s e (s', addrs, err x) g = tt
gives_next t t' a s e (s', addrs, panic) g = tt

gives_one :
    (t : IpTree) (s : Service) (r : Assigned)
    → GivesLoop s r
    → (x : IpTree × Result Addr) → AllocateEnds t x
    → GivesLoop (t ∷ s) (assigned_one s r x)
gives_one t s r g x (no_address e) = tt
gives_one t s r g x (given n t' a p) = gives_next t t' a s p.released r g

gives_loop :
    (rand : ℕ → ℕ → ℕ) (i : ℕ) (s : Service)
    → IsRandom rand
    → IsService s
    → GivesLoop s (assign_loop rand i s)
unfolding assign_loop
gives_loop rand i [] h v = none_given
gives_loop rand i (t ∷ s) h (v, vs) =
    gives_one t s (assign_loop rand (suc i) s) (gives_loop rand (suc i) s h vs)
      (allocate_random (rand i) t) (allocate-ends (rand i) v (h i))

abbrev pub Gives : Service → Service × Result (List Addr) → Type 0
Gives s (s', ok addrs) = EachGiven s addrs s'
Gives s (s', err e) = Unit
Gives s (s', panic) = Unit

Gives-all : (s : Service) (r : Assigned) → GivesLoop s r → Gives s (assigned_all r)
Gives-all s (s', addrs, ok u) g = g
Gives-all s (s', addrs, err e) g = tt
Gives-all s (s', addrs, panic) g = tt

pub assign-Gives :
    (rand : ℕ → ℕ → ℕ) (s : Service)
    → IsRandom rand
    → IsService s
    → Gives s (assign_random_in_each_net rand s)
unfolding assign_random_in_each_net
assign-Gives rand s h v = Gives-all s (assign_loop rand 0 s) (gives_loop rand 0 s h v)

below_first :
    (t : IpTree) (s : Service) (i : ℕ) (addrs : List Addr)
    → delete_trees (t ∷ s) (random_subnets (suc i) addrs)
      ≡ t ∷ delete_trees s (random_subnets i addrs)
unfolding delete_at
below_first t s i [] = refl
below_first t s i (a ∷ addrs) =
    below_first t (delete_at s i (make_prefix_from_addr a)) (suc i) addrs

-- Deleting the random addresses gives back the service from before.
pub delete_trees-EachGiven :
    (s : Service) (addrs : List Addr) (s' : Service)
    → EachGiven s addrs s'
    → delete_trees s' (random_subnets 0 addrs) ≡ s
unfolding delete_at
delete_trees-EachGiven s addrs s' none_given = refl
delete_trees-EachGiven s addrs s' (gave t t' a s0 addrs0 s1 e g) =
    ap (λ (r : IpTree × Bool). delete_trees (r.0 ∷ s1) (random_subnets 1 addrs0)) e
    ∙ below_first t s1 0 addrs0
    ∙ ap (λ (ts : Service). t ∷ ts) (delete_trees-EachGiven s0 addrs0 s1 g)
