-- ===== src/Api/Adds/Laws/Assigning.antt =====
-- What the action of `apiAddPeer` does to the trees, and which of its subnets have no tree.
use tanlnode.Base.{
  ℕ, ◌≡◌, ◌≢◌, refl, ap, ◌∙◌, Bool, true, false, ◌||◌, Option, none, some, List, [], ◌∷◌,
}
use tanlnode.Sqlgen.{Text}
use tanlnode.Netip.{Addr}
use tanlnode.IpTree.{NetErr, IpTree, Result, ok, err, panic, no_free_addr}
use tanlnode.Subnets.{Service, reserve, assign_random_in_each_net}
use tanlnode.Subnets.Spec.{IsService, IsRandom}
use tanlnode.Subnets.Laws.Assigns.{
  SomeExhausted, EachTaken, AssignEnds, each_taken, unchanged, assign-ends,
}
use tanlnode.Tx.{Exit, done, fails}
use tanlnode.Api.{ApiErr, net_error}
use tanlnode.Api.Outside.{Outside}
use tanlnode.Api.Adds.{AddPeerRequest, ParsedSubnet, Keys}
use tanlnode.Api.Adds.Subnets.{delete_trees, reserve_loop, reserved_one, random_subnets}
use tanlnode.Api.Adds.Run.{Adding, assign_subnets, random_ended}
use tanlnode.Api.Adds.Replies.{address_text, tree_of, address_texts}
use tanlnode.Api.Adds.Laws.Loops.{
  any_overlap, Loop, loop_both, NoTrees, ArePrefixes, delete_trees-LoopRun, reserve_loop-LoopRun,
}
use tanlnode.Api.Adds.Laws.Obtained.{
  Reserved, Blocked, LoopEnd, all_reserved, blocked, reserve_loop-LoopEnd, AreRandom,
  random_subnets-AreRandom, HaveTrees,
}
use tanlnode.Api.Adds.Laws.Texts.{EachGiven-HaveTrees}
use tanlnode.Api.Adds.Laws.Randoms.{EachGiven, Gives, assign-Gives, delete_trees-EachGiven}

module _ (o : Outside) (req : AddPeerRequest) (keys : Keys) where
  -- The texts of the addresses panic.
  abbrev pub NoTexts : List ParsedSubnet → Type 0
  NoTexts ps = (s : Service) → address_texts o req keys s ps ≡ none

  first_nil : (p : ParsedSubnet) (ps : List ParsedSubnet) → p.tree ≡ none → NoTexts (p ∷ ps)
  unfolding address_texts
  first_nil p ps e s =
      ap
        (λ (t : Option ℕ).
          address_text o req keys p (tree_of o req keys s t) (address_texts o req keys s ps))
        e

  text_nil : (p : ParsedSubnet) (t : Option IpTree) → address_text o req keys p t none ≡ none
  text_nil p none = refl
  text_nil p (some t) = refl

  later_nil : (p : ParsedSubnet) (ps : List ParsedSubnet) → NoTexts ps → NoTexts (p ∷ ps)
  unfolding address_texts
  later_nil p ps h s =
      ap
        (λ (texts : Option (List Text)).
          address_text o req keys p (tree_of o req keys s p.tree) texts)
        (h s)
      ∙ text_nil p (tree_of o req keys s p.tree)

  one_nil :
      (p : ParsedSubnet) (ps : List ParsedSubnet)
      (rest : Service → Service × List ParsedSubnet × Exit ApiErr)
      → p.tree ≡ none
      → ((s : Service) → NoTexts (rest s).1)
      → (r : Service × Result ℕ) → NoTexts (reserved_one p ps rest r).1
  one_nil p ps rest e h (s, ok i) = later_nil (record p { tree = some i }) (rest s).1 (h s)
  one_nil p ps rest e h (s, err x) = first_nil (record p { tree = none }) ps refl
  one_nil p ps rest e h (s, panic) = first_nil p ps e

  both_nil :
      (s : Service) (p : ParsedSubnet) (ps : List ParsedSubnet)
      → p.tree ≡ none
      → (any_overlap ps ≡ true → (s1 : Service) → NoTexts (reserve_loop s1 ps).1)
      → (b : Bool) → b || any_overlap ps ≡ true
      → NoTexts (loop_both s p ps b).1
  both_nil s p ps e ih true h = first_nil p (reserve_loop s ps).1 e
  both_nil s p ps e ih false h =
      one_nil p ps (λ s1. reserve_loop s1 ps) e (ih h) (reserve s p.prefix)

  -- A subnet that may overlap keeps its nil tree.
  reserve_loop-NoTexts :
      (ps : List ParsedSubnet)
      → NoTrees ps
      → any_overlap ps ≡ true
      → (s : Service) → NoTexts (reserve_loop s ps).1
  unfolding reserve_loop
  reserve_loop-NoTexts [] z h s = cc
  reserve_loop-NoTexts (p ∷ ps) (e, z) h s =
      both_nil s p ps e (reserve_loop-NoTexts ps z) p.may_overlap h

  -- How the step that reserves or assigns came to its end, from the trees `s0`: with the subnets
  -- of the request, where it has any; with one random address in each network, where it has none;
  -- or with an error, as `Reserve` refused a subnet, or a network was exhausted.
  pub data HowAssigned (s0 : Service) (ps0 : List ParsedSubnet) (s : Service)
      (ps : List ParsedSubnet) : Exit ApiErr → Type 0 where
    by_request : ps0 ≢ [] → Reserved s0 ps0 ps s → HowAssigned s0 ps0 s ps done
    by_random :
        ps0 ≡ []
        → (addrs : List Addr) → EachTaken s0 addrs s
        → EachGiven s0 addrs s
        → AreRandom 0 addrs ps
        → HaveTrees s ps
        → HowAssigned s0 ps0 s ps done
    by_refusal : (e : NetErr) → Blocked s0 ps0 e → HowAssigned s0 ps0 s ps (fails (net_error e))
    by_exhausted :
        ps0 ≡ [] → SomeExhausted s0 → HowAssigned s0 ps0 s ps (fails (net_error no_free_addr))

  -- How the step ended, from a state whose trees are those of `s0`: the rollback would give these
  -- back.
  pub data AssignEnd (st : Adding) (s0 : Service) (ps0 : List ParsedSubnet)
      : Adding × Exit ApiErr → Type 0 where
    assigned :
        (s : Service) (ps : List ParsedSubnet) (e : Exit ApiErr)
        → delete_trees s ps ≡ s0
        → (any_overlap ps0 ≡ true → NoTexts ps)
        → HowAssigned s0 ps0 s ps e
        → AssignEnd st s0 ps0
            (record st { node = record st.node { subnets = s }; parsed_subnets = ps }, e)

  how_reserved :
      (s0 : Service) (ps0 : List ParsedSubnet)
      → ps0 ≢ []
      → (r : Loop) → LoopEnd s0 ps0 r
      → HowAssigned s0 ps0 r.0 r.1 r.2
  how_reserved s0 ps0 n r (all_reserved s ps q) = by_request n q
  how_reserved s0 ps0 n r (blocked s ps e b) = by_refusal e b

  module _ (st : Adding) (v : IsService st.node.subnets) where
    random_end :
        (h : st.parsed_subnets ≡ [])
        → (r : Service × Result (List Addr)) → AssignEnds st.node.subnets r
        → Gives st.node.subnets r
        → AssignEnd st st.node.subnets [] (random_ended o req keys st r)
    random_end h r (each_taken addrs s q) g =
        assigned s (random_subnets 0 addrs) done (delete_trees-EachGiven st.node.subnets addrs s g)
          (λ n. cc)
          (by_random refl addrs q g (random_subnets-AreRandom 0 addrs)
            (EachGiven-HaveTrees st.node.subnets s addrs g))
    random_end h r (unchanged x) g =
        assigned st.node.subnets st.parsed_subnets (fails (net_error no_free_addr))
          (ap (λ (ps : List ParsedSubnet). delete_trees st.node.subnets ps) h) (λ n. cc)
          (by_exhausted refl x)

    pub assign-end :
        IsRandom o.rand
        → (ps : List ParsedSubnet) → NoTrees ps
        → ArePrefixes ps
        → st.parsed_subnets ≡ ps
        → AssignEnd st st.node.subnets ps (assign_subnets o req keys ps st)
    assign-end rnd [] z q h =
        random_end h (assign_random_in_each_net o.rand st.node.subnets)
          (assign-ends o.rand st.node.subnets rnd v) (assign-Gives o.rand st.node.subnets rnd v)
    assign-end rnd (p ∷ ps) z q h =
        let r = reserve_loop st.node.subnets (p ∷ ps) in
        assigned r.0 r.1 r.2
          (delete_trees-LoopRun st.node.subnets r.0 r.1
            (reserve_loop-LoopRun st.node.subnets (p ∷ ps) v z q) v)
          (λ n. reserve_loop-NoTexts (p ∷ ps) z n st.node.subnets)
          (how_reserved st.node.subnets (p ∷ ps) (λ e. cc) r
            (reserve_loop-LoopEnd st.node.subnets (p ∷ ps) v q))
