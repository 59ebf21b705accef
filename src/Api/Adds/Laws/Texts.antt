-- ===== src/Api/Adds/Laws/Texts.antt =====
-- The addresses in the answer of `apiAddPeer`.
use mathlib.Core.Path.{subst}
use tanlnode.Base.{ℕ, suc, ◌+◌, ◌≡◌, refl, ap, ◌∙◌, false, Option, some, List, [], ◌∷◌, ◌++◌, arith}
use tanlnode.Sqlgen.{Text}
use tanlnode.Netip.{Addr}
use tanlnode.Texts.{itoa}
use tanlnode.IpTree.{IpTree, ok}
use tanlnode.Subnets.{Service, reserve}
use tanlnode.Subnets.Spec.{IsService}
use tanlnode.Subnets.Laws.Orders.{ReservedAt, IsAt, reserve-IsAt, reserved-IsService}
use tanlnode.Api.Outside.{Outside}
use tanlnode.Api.Adds.{AddPeerRequest, ParsedSubnet, Keys}
use tanlnode.Api.Adds.Subnets.{random_subnets}
use tanlnode.Api.Adds.Replies.{tree_at, tree_of, address_text, address_texts}
use tanlnode.Api.Adds.Laws.Loops.{any_overlap, ArePrefixes}
use tanlnode.Api.Adds.Laws.Randoms.{EachGiven, none_given, gave}
use tanlnode.Api.Adds.Laws.Obtained.{
  Reserved, no_more, overlapping, exclusive, HasTree, HaveTrees, reserved_tree, keep_tree,
}

-- The trees of a service are also those of another.
abbrev Keeps : Service → Service → Type 0
Keeps s s' = (j : ℕ) → HasTree s j → HasTree s' j

reserve-IsAt_ok :
    (s s1 : Service) (p : ParsedSubnet) (i : ℕ)
    → IsAt p.prefix s (reserve s p.prefix)
    → reserve s p.prefix ≡ (s1, ok i)
    → ReservedAt p.prefix s s1 i
reserve-IsAt_ok s s1 p i a e = subst (IsAt p.prefix s) e a

Reserved-Keeps :
    (s s' : Service) (ps ps' : List ParsedSubnet)
    → Reserved s ps ps' s'
    → IsService s
    → ArePrefixes ps
    → Keeps s s'
Reserved-Keeps s s' ps ps' (no_more _) v q j h = h
Reserved-Keeps s s' ps ps' (overlapping _ _ p qs qs' o r) v (pp, q) j h =
    Reserved-Keeps s s' qs qs' r v q j h
Reserved-Keeps s s' ps ps' (exclusive _ s1 _ p qs qs' i o e r) v (pp, q) j h =
    let a = reserve-IsAt_ok s s1 p i (reserve-IsAt s p.prefix v pp) e in
    Reserved-Keeps s1 s' qs qs' r (reserved-IsService s s1 i a v) q j (keep_tree s s1 i j a h)

-- Where no subnet may overlap, each that was reserved has its tree.
pub Reserved-HaveTrees :
    (s s' : Service) (ps ps' : List ParsedSubnet)
    → Reserved s ps ps' s'
    → IsService s
    → ArePrefixes ps
    → any_overlap ps ≡ false
    → HaveTrees s' ps'
Reserved-HaveTrees s s' ps ps' (no_more _) v q n = tt
Reserved-HaveTrees s s' ps ps' (overlapping _ _ p qs qs' o r) v (pp, q) n = ground (arith, o, n)
Reserved-HaveTrees s s' ps ps' (exclusive _ s1 _ p qs qs' i o e r) v (pp, q) n =
    let a = reserve-IsAt_ok s s1 p i (reserve-IsAt s p.prefix v pp) e in
    let w = reserved-IsService s s1 i a v in
    let rest : any_overlap qs ≡ false = ground (arith, o, n) in
    (
      (i, refl, Reserved-Keeps s1 s' qs qs' r w q i (reserved_tree s s1 i a)),
      Reserved-HaveTrees s1 s' qs qs' r w q rest,
    )

-- The trees from the i-th on are those of `s`.
random_trees :
    (s0 s all : Service) (addrs : List Addr) (i : ℕ)
    → EachGiven s0 addrs s
    → ((j k : ℕ) → i + j ≡ k → HasTree s j → HasTree all k)
    → HaveTrees all (random_subnets i addrs)
random_trees s0 s all addrs i none_given h = tt
random_trees s0 s all addrs i (gave t t' a s1 addrs1 s1' e g) h = (
  (i, refl, h 0 i (omega arith) (t', refl)),
  random_trees s1 s1' all addrs1 (suc i) g (λ j k e1. h (suc j) k (omega (arith, e1))),
)

pub EachGiven-HaveTrees :
    (s0 s : Service) (addrs : List Addr)
    → EachGiven s0 addrs s
    → HaveTrees s (random_subnets 0 addrs)
EachGiven-HaveTrees s0 s addrs g =
    random_trees s0 s s addrs 0 g
      (λ j k e. let same : j ≡ k = omega (arith, e) in subst (HasTree s) same)

module _ (o : Outside) where
  -- Each address is that of the subnet, with the length of the network of its tree.
  abbrev pub AreTexts : Service → List ParsedSubnet → List Text → Type 0
  AreTexts s [] [] = Unit
  AreTexts s [] (text ∷ texts) = ⊥
  AreTexts s (p ∷ ps) [] = ⊥
  AreTexts s (p ∷ ps) (text ∷ texts) =
      ((i : ℕ) × (t : IpTree) × (p.tree ≡ some i)
        × (tree_at s i ≡ some t)
        × (text ≡ o.addr_string p.prefix.addr ++ (47 ∷ itoa t.net.bits)))
      × AreTexts s ps texts

  module _ (req : AddPeerRequest) (keys : Keys) where
    pub address_texts-AreTexts :
        (s : Service) (ps : List ParsedSubnet)
        → HaveTrees s ps
        → (texts : List Text) × (address_texts o req keys s ps ≡ some texts) × AreTexts s ps texts
    unfolding address_texts
    address_texts-AreTexts s [] h = ([], refl, tt)
    address_texts-AreTexts s (p ∷ ps) ((i, e, (t, f)), h) =
        let (texts, g, q) = address_texts-AreTexts s ps h in
        let at : tree_of o req keys s p.tree ≡ some t = ap (tree_of o req keys s) e ∙ f in
        (
          (o.addr_string p.prefix.addr ++ (47 ∷ itoa t.net.bits)) ∷ texts,
          ap (λ (x : Option IpTree). address_text o req keys p x (address_texts o req keys s ps)) at
              ∙ ap (address_text o req keys p (some t)) g,
          ((i, t, e, f, refl), q),
        )
