-- ===== src/AllocNets/Laws.antt =====
-- The networks that `parseAllocNets` accepts.
use native.Mathlib.Nat.{div-add-mod'}
use tanlnode.Base.{
  ℕ, ◌-◌, ◌*◌, ◌/◌, ◌^◌, ◌≤◌, ◌≡◌, refl, sym, ◌∙◌, Bool, true, false, ◌&&◌, ◌||◌, arith, inl, inr,
  Bool-cases, ◌⊎◌, Option, none, some, List, [], ◌∷◌, ==_iff,
}
use tanlnode.Base.Blocks.{coarser}
use tanlnode.Netip.{Addr, Prefix, IsPrefix, addr_bits, contains}
use tanlnode.IpTree.Bridge.{same_family-eq}
use tanlnode.IpTree.Laws.Puts.{same_family-eq_true}
use tanlnode.IpTree.Laws.News.{host_part}
use tanlnode.Sqlgen.{Text}
use tanlnode.Subnets.Laws.Trees.{AreNets}
use tanlnode.AllocNets.{
  has_host_bits, Parsed, parse_error, non_zero_host_bits, networks_overlap, parsed, rejected,
  append_net, add_net, meets, any_overlap, check_overlap, split_seq, trim_left, trim_right,
  parse_nets, parse_alloc_nets,
}

abbrev pub any_contains : List Prefix → Addr → Bool
any_contains [] ip = false
any_contains (net ∷ nets) ip = contains net ip || any_contains nets ip

-- No address is in two of the networks.
abbrev pub AreDisjoint : List Prefix → Type 0
AreDisjoint [] = Unit
AreDisjoint (net ∷ nets) =
    ((ip : Addr) → contains net ip && any_contains nets ip ≡ false) × AreDisjoint nets

-- Of two blocks with a common number one holds the start of the other.
nested :
    (n a q b x : ℕ)
    → n / 2 ^ a ≡ x / 2 ^ a
    → q / 2 ^ b ≡ x / 2 ^ b
    → (n / 2 ^ a ≡ q / 2 ^ a) ⊎ (q / 2 ^ b ≡ n / 2 ^ b)
nested n a q b x hn hq = elim (le_or a b) [
  | inl h ↦ inr (hq ∙ sym (coarser b a n x h hn))
  | inr h ↦ inl (hn ∙ sym (coarser a b q x h hq))
]
  where
    le_or : (a b : ℕ) → (a ≤ b) ⊎ (b ≤ a)
    le_or a b = omega arith

-- The parts of `contains`.
family_of : (p : Prefix) (ip : Addr) → contains p ip ≡ true → p.addr.family ≡ ip.family
family_of p ip h = same_family-eq p.addr.family ip.family (ground arith)

block_of :
    (p : Prefix) (ip : Addr)
    → contains p ip ≡ true
    → p.addr.value / 2 ^ (addr_bits p.addr.family - p.bits)
      ≡ ip.value / 2 ^ (addr_bits p.addr.family - p.bits)
block_of p ip h = (==_iff _ _).0 (ground arith)

contains_block :
    (p : Prefix) (ip : Addr)
    → p.addr.family ≡ ip.family
    → p.addr.value / 2 ^ (addr_bits p.addr.family - p.bits)
      ≡ ip.value / 2 ^ (addr_bits p.addr.family - p.bits)
    → contains p ip ≡ true
contains_block p ip f e = ground (arith, same_family-eq_true f, (==_iff _ _).1 e)

common :
    (p q : Prefix) (ip : Addr)
    → contains p ip ≡ true
    → contains q ip ≡ true
    → contains p q.addr || contains q p.addr ≡ true
common p q ip hp hq =
    let same : p.addr.family ≡ q.addr.family = family_of p ip hp ∙ sym (family_of q ip hq) in
    elim (nested p.addr.value _ q.addr.value _ ip.value (block_of p ip hp) (block_of q ip hq)) [
      | inl e ↦ let c = contains_block p q.addr same e in rw c refl
      | inr e ↦ let c = contains_block q p.addr (sym same) e in rw c (or_true (contains p q.addr))
    ]
  where
    or_true : (b : Bool) → b || true ≡ true
    or_true b = ground arith

apart :
    (net : Prefix) (nets : List Prefix) (ip : Addr)
    → meets net nets ≡ false
    → contains net ip && any_contains nets ip ≡ false
apart net [] ip m = ground arith
apart net (other ∷ nets) ip m =
    let rest = apart net nets ip (ground (arith, m)) in
    elim (Bool-cases (contains net ip)) [
      | inl c ↦ elim (Bool-cases (contains other ip)) [
        | inl d ↦ let both = common net other ip c d in absurd (ground (arith, both, m))
        | inr d ↦ rw (c, d) (rw c at rest)
      ]
      | inr c ↦ rw c refl
    ]

disjoint : (nets : List Prefix) → any_overlap nets ≡ false → AreDisjoint nets
disjoint [] h = tt
disjoint (net ∷ nets) h =
    (λ ip. apart net nets ip (ground (arith, h)), disjoint nets (ground (arith, h)))

no_host_bits : (net : Prefix) → has_host_bits net ≡ false → host_part net net.addr ≡ 0
no_host_bits net h =
    let k : ℕ = 2 ^ (addr_bits net.addr.family - net.bits) in
    let e : net.addr.value / k * k ≡ net.addr.value = (==_iff _ _).0 (ground (arith, h)) in
    omega (arith, e, div-add-mod' net.addr.value k)

module _ (parse_prefix : Text → Option Prefix)
    (parsed-IsPrefix : (text : Text) (p : Prefix) → parse_prefix text ≡ some p → IsPrefix p) where
  abbrev pub parse_text : Text → Option Prefix
  parse_text text = parse_prefix (trim_right (trim_left text))

  -- The texts parse to these networks, in order.
  pub data AllParse : List Text → List Prefix → Type 0 where
    no_text : AllParse [] []
    one_more :
        (text : Text) (texts : List Text) (net : Prefix) (nets : List Prefix)
        → parse_text text ≡ some net
        → AllParse texts nets
        → AllParse (text ∷ texts) (net ∷ nets)

  -- Some text parses so.
  pub data HasText : List Text → Option Prefix → Type 0 where
    first : (text : Text) (texts : List Text) → HasText (text ∷ texts) (parse_text text)
    further :
        (text : Text) {texts : List Text} {o : Option Prefix}
        → HasText texts o
        → HasText (text ∷ texts) o

  data ParseEnds (texts : List Text) : Parsed → Type 0 where
    all_parsed :
        (nets : List Prefix) → AllParse texts nets → AreNets nets → ParseEnds texts (parsed nets)
    unparsed : HasText texts none → ParseEnds texts (rejected parse_error)
    unmasked :
        (net : Prefix)
        → HasText texts (some net)
        → has_host_bits net ≡ true
        → ParseEnds texts (rejected non_zero_host_bits)

  add_ends :
      (text : Text) {texts : List Text} (net : Prefix) (r : Parsed)
      → parse_text text ≡ some net
      → has_host_bits net ≡ false
      → ParseEnds texts r
      → ParseEnds (text ∷ texts) (add_net net r)
  add_ends text {texts} net r e b (all_parsed nets q v) =
      all_parsed (net ∷ nets) (one_more text texts net nets e q)
        (parsed-IsPrefix _ net e, no_host_bits net b, v)
  add_ends text net r e b (unparsed h) = unparsed (further text h)
  add_ends text net r e b (unmasked other h c) = unmasked other (further text h) c

  append_ends :
      (text : Text) {texts : List Text} (o : Option Prefix) (r : Parsed)
      → parse_text text ≡ o
      → ParseEnds texts r
      → ParseEnds (text ∷ texts) (append_net o r)
  append_ends text {texts} none r e q = unparsed (rw e at (first text texts))
  append_ends text {texts} (some net) r e q = elim (Bool-cases (has_host_bits net)) [
    | inl b ↦ rw b (unmasked net (rw e at (first text texts)) b)
    | inr b ↦ rw b (add_ends text net r e b q)
  ]

  parse_ends : (texts : List Text) → ParseEnds texts (parse_nets parse_prefix texts)
  unfolding parse_nets
  parse_ends [] = all_parsed [] no_text tt
  parse_ends (text ∷ texts) =
      append_ends text (parse_text text) (parse_nets parse_prefix texts) refl (parse_ends texts)

  -- How `parseAllocNets` ended, on the texts between the commas.
  pub data AllocEnds (texts : List Text) : Parsed → Type 0 where
    accepted :
        (nets : List Prefix)
        → AllParse texts nets
        → AreNets nets
        → AreDisjoint nets
        → AllocEnds texts (parsed nets)
    text_unparsed : HasText texts none → AllocEnds texts (rejected parse_error)
    net_unmasked :
        (net : Prefix)
        → HasText texts (some net)
        → has_host_bits net ≡ true
        → AllocEnds texts (rejected non_zero_host_bits)
    nets_overlap :
        (nets : List Prefix)
        → AllParse texts nets
        → any_overlap nets ≡ true
        → AllocEnds texts (rejected networks_overlap)

  alloc_ends :
      {texts : List Text} (r : Parsed) → ParseEnds texts r → AllocEnds texts (check_overlap r)
  alloc_ends r (unparsed h) = text_unparsed h
  alloc_ends r (unmasked net h b) = net_unmasked net h b
  alloc_ends r (all_parsed nets q v) = elim (Bool-cases (any_overlap nets)) [
    | inl b ↦ rw b (nets_overlap nets q b)
    | inr b ↦ rw b (accepted nets q v (disjoint nets b))
  ]

  -- With a parser that gives valid prefixes, `parseAllocNets` rejects a string only if a text between
  -- its commas, without the spaces around it, does not parse, or parses to a prefix with host bits, or
  -- if some prefix contains the address of another; and otherwise it returns the prefixes of all the
  -- texts in order, which are valid, without host bits, and no two of which share an address.
  pub parse_alloc_nets-ends :
      (str : Text) → AllocEnds (split_seq str) (parse_alloc_nets parse_prefix str)
  unfolding parse_alloc_nets
  parse_alloc_nets-ends str =
      alloc_ends (parse_nets parse_prefix (split_seq str)) (parse_ends (split_seq str))
