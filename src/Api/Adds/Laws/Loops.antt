-- ===== src/Api/Adds/Laws/Loops.antt =====
-- What the rollback of `apiAddPeer` makes of the subnets that its action has reserved.
use mathlib.Core.Path.{subst}
use tanlnode.Base.{
  ℕ, ◌≡◌, refl, sym, ap, ◌∙◌, Bool, true, false, ◌||◌, Option, none, some, List, [], ◌∷◌,
}
use tanlnode.Netip.{Prefix, IsPrefix}
use tanlnode.IpTree.{Result, ok, err, panic}
use tanlnode.IpTree.Spec.{is_ok}
use tanlnode.Subnets.{Service, reserve, delete_at, delete_if}
use tanlnode.Subnets.Spec.{IsService}
use tanlnode.Subnets.Laws.Reserves.{reserve_errors}
use tanlnode.Subnets.Laws.Orders.{
  ReservedAt, IsAt, reserve-IsAt, reserved-IsService, undo-reserved, reserve-order,
}
use tanlnode.Tx.{Exit}
use tanlnode.Api.{ApiErr}
use tanlnode.Api.Adds.{ParsedSubnet}
use tanlnode.Api.Adds.Subnets.{delete_trees, reserve_loop, reserved_one}

-- No tree is set.
abbrev pub NoTrees : List ParsedSubnet → Type 0
NoTrees [] = Unit
NoTrees (p ∷ ps) = (p.tree ≡ none) × NoTrees ps

-- Some subnet may overlap others.
abbrev pub any_overlap : List ParsedSubnet → Bool
any_overlap [] = false
any_overlap (p ∷ ps) = p.may_overlap || any_overlap ps

abbrev pub ArePrefixes : List ParsedSubnet → Type 0
ArePrefixes [] = Unit
ArePrefixes (p ∷ ps) = IsPrefix p.prefix × ArePrefixes ps

-- From the service `s` those of the subnets that have a tree were reserved in it, one after the other.
pub data LoopRun : Service → List ParsedSubnet → Service → Type 0 where
  stop : (s : Service) (ps : List ParsedSubnet) → NoTrees ps → LoopRun s ps s
  skip :
      (s s' : Service) (p : ParsedSubnet) (ps : List ParsedSubnet)
      → p.tree ≡ none
      → LoopRun s ps s'
      → LoopRun s (p ∷ ps) s'
  took :
      (s s1 s' : Service) (p : ParsedSubnet) (ps : List ParsedSubnet) (i : ℕ)
      → p.tree ≡ some i
      → IsPrefix p.prefix
      → ReservedAt p.prefix s s1 i
      → LoopRun s1 ps s'
      → LoopRun s (p ∷ ps) s'

-- Without a prefix that was reserved before, the others could be reserved as well.
forget :
    {pref : Prefix} (q : IsPrefix pref) (s s1 s' : Service) (i : ℕ) (ps : List ParsedSubnet)
    → LoopRun s1 ps s'
    → IsService s
    → ReservedAt pref s s1 i
    → LoopRun s ps (delete_at s' i pref)
forget q s s1 s' i ps (stop _ _ z) v r =
    subst (λ (u : Service). LoopRun s ps u) (sym (undo-reserved q s s1 i r v)) (stop s ps z)
forget {pref} q s s1 s' i ps (skip _ _ p ps' e l) v r =
    skip s (delete_at s' i pref) p ps' e (forget q s s1 s' i ps' l v r)
forget {pref} q s s1 s' i ps (took _ s2 _ p ps' j e pp r2 l) v r =
    let o = reserve-order q pp s s1 s2 i j r r2 v in
    took s o.alone (delete_at s' i pref) p ps' j e pp o.second
      (forget q o.alone s2 s' i ps' l (reserved-IsService s o.alone j o.second v) o.then_first)

pub delete_trees-NoTrees :
    (s : Service) (ps : List ParsedSubnet) → NoTrees ps → delete_trees s ps ≡ s
delete_trees-NoTrees s [] z = refl
delete_trees-NoTrees s (p ∷ ps) (e, z) =
    ap (λ (o : Option ℕ). delete_trees (delete_if s o p.prefix) ps) e ∙ delete_trees-NoTrees s ps z

-- Deleting the subnets in their order gives back the service from before them.
pub delete_trees-LoopRun :
    (s s' : Service) (ps : List ParsedSubnet)
    → LoopRun s ps s'
    → IsService s
    → delete_trees s' ps ≡ s
delete_trees-LoopRun s s' [] (stop _ _ z) v = refl
delete_trees-LoopRun s s' (p ∷ ps) (stop _ _ z) v = delete_trees-NoTrees s (p ∷ ps) z
delete_trees-LoopRun s s' (p ∷ ps) (skip _ _ _ _ e l) v =
    ap (λ (o : Option ℕ). delete_trees (delete_if s' o p.prefix) ps) e
    ∙ delete_trees-LoopRun s s' ps l v
delete_trees-LoopRun s s' (p ∷ ps) (took _ s1 _ _ _ i e pp r l) v =
    ap (λ (o : Option ℕ). delete_trees (delete_if s' o p.prefix) ps) e
    ∙ delete_trees-LoopRun s (delete_at s' i p.prefix) ps (forget pp s s1 s' i ps l v r) v

-- How the loop of the action ended.
abbrev pub Loop : Type 0
Loop = Service × List ParsedSubnet × Exit ApiErr

one_run :
    (s : Service) (p : ParsedSubnet) (ps : List ParsedSubnet) (rest : Service → Loop)
    → p.tree ≡ none
    → IsPrefix p.prefix
    → NoTrees ps
    → IsService s
    → ((s1 : Service) → IsService s1 → LoopRun s1 (rest s1).1 (rest s1).0)
    → (r : Service × Result ℕ) → IsAt p.prefix s r
    → (is_ok r.1 ≡ false → r.0 ≡ s)
    → LoopRun s (reserved_one p ps rest r).1 (reserved_one p ps rest r).0
one_run s p ps rest e pp z v run (s1, ok i) a k =
    took s s1 (rest s1).0 (record p { tree = some i }) (rest s1).1 i refl pp a
      (run s1 (reserved-IsService s s1 i a v))
one_run s p ps rest e pp z v run (s1, err x) a k =
    subst (λ (u : Service). LoopRun s (record p { tree = none } ∷ ps) u) (sym (k refl))
      (stop s _ (refl, z))
one_run s p ps rest e pp z v run (s1, panic) a k =
    subst (λ (u : Service). LoopRun s (p ∷ ps) u) (sym (k refl)) (stop s (p ∷ ps) (e, z))

-- The loop at its first subnet.
abbrev pub loop_both : Service → ParsedSubnet → List ParsedSubnet → Bool → Loop
loop_both s p ps true = let (s', ps', x) = reserve_loop s ps in (s', p ∷ ps', x)
loop_both s p ps false = reserved_one p ps (λ s'. reserve_loop s' ps) (reserve s p.prefix)

both_run :
    (s : Service) (p : ParsedSubnet) (ps : List ParsedSubnet)
    → p.tree ≡ none
    → IsPrefix p.prefix
    → NoTrees ps
    → IsService s
    → ((s1 : Service) → IsService s1 → LoopRun s1 (reserve_loop s1 ps).1 (reserve_loop s1 ps).0)
    → (b : Bool) → LoopRun s (loop_both s p ps b).1 (loop_both s p ps b).0
both_run s p ps e pp z v run true = skip s (reserve_loop s ps).0 p (reserve_loop s ps).1 e (run s v)
both_run s p ps e pp z v run false =
    one_run s p ps (λ s'. reserve_loop s' ps) e pp z v run (reserve s p.prefix)
      (reserve-IsAt s p.prefix v pp) (reserve_errors s v pp).2

pub reserve_loop-LoopRun :
    (s : Service) (ps : List ParsedSubnet)
    → IsService s
    → NoTrees ps
    → ArePrefixes ps
    → LoopRun s (reserve_loop s ps).1 (reserve_loop s ps).0
unfolding reserve_loop
reserve_loop-LoopRun s [] v z q = stop s [] tt
reserve_loop-LoopRun s (p ∷ ps) v (e, z) (pp, q) =
    both_run s p ps e pp z v (λ s1 v1. reserve_loop-LoopRun s1 ps v1 z q) p.may_overlap
