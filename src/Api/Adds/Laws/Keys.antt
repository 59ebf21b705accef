-- ===== src/Api/Adds/Laws/Keys.antt =====
-- What `apiAddPeer` reads from a request: its subnets and its keys.
use mathlib.Core.Path.{subst}
use tanlnode.Base.{
  ℕ, ◌≡◌, ◌⊎◌, refl, sym, ap, ◌∙◌, Bool, true, false, not, ◌||◌, Option, none, some, List, [], ◌∷◌,
  inl, inr, if◌then◌else◌,
}
use tanlnode.Sqlgen.{Text}
use tanlnode.Netip.{Prefix, IsPrefix}
use tanlnode.PeerStats.{is_empty}
use tanlnode.Api.Outside.{Outside}
use tanlnode.Api.Adds.{
  AllowedAddress, AddPeerRequest, ParsedSubnet, Keys, parsed_one, given_key, generated_key,
  parse_subnets, key_or, public_keys, add_preshared, preshared_keys, make_keys,
}
use tanlnode.Api.Adds.Laws.Loops.{any_overlap, NoTrees, ArePrefixes}

-- Some allowed address of the request may overlap others.
abbrev pub asks_overlap : List AllowedAddress → Bool
asks_overlap [] = false
asks_overlap (a ∷ addresses) = a.may_overlap || asks_overlap addresses

module _ (o : Outside) where
  -- The text of some address is no prefix.
  pub data SomeUnparsed : List AllowedAddress → Type 0 where
    this_unparsed :
        (a : AllowedAddress) (addresses : List AllowedAddress)
        → o.parse_prefix a.subnet ≡ none
        → SomeUnparsed (a ∷ addresses)
    later_unparsed :
        (a : AllowedAddress) (addresses : List AllowedAddress)
        → SomeUnparsed addresses
        → SomeUnparsed (a ∷ addresses)

  -- The subnets are those of the addresses, in their order, and have no tree.
  abbrev pub AreParsed : List AllowedAddress → List ParsedSubnet → Type 0
  AreParsed [] [] = Unit
  AreParsed [] (p ∷ ps) = ⊥
  AreParsed (a ∷ addresses) [] = ⊥
  AreParsed (a ∷ addresses) (p ∷ ps) =
      (o.parse_prefix a.subnet ≡ some p.prefix)
      × (p.may_overlap ≡ a.may_overlap)
      × (p.tree ≡ none)
      × AreParsed addresses ps

  ParsedEnd : List AllowedAddress → Option (List ParsedSubnet) → Type 0
  ParsedEnd addresses none = SomeUnparsed addresses
  ParsedEnd addresses (some ps) = AreParsed addresses ps

  one_end :
      (a : AllowedAddress) (addresses : List AllowedAddress) (r : Option Prefix)
      → o.parse_prefix a.subnet ≡ r
      → (rest : Option (List ParsedSubnet)) → ParsedEnd addresses rest
      → ParsedEnd (a ∷ addresses) (parsed_one a r rest)
  unfolding ParsedEnd
  one_end a addresses none e rest g = this_unparsed a addresses e
  one_end a addresses (some pref) e none g = later_unparsed a addresses g
  one_end a addresses (some pref) e (some ps) g = (e, refl, refl, g)

  parse_subnets-ParsedEnd :
      (addresses : List AllowedAddress) → ParsedEnd addresses (parse_subnets o addresses)
  unfolding parse_subnets ParsedEnd
  parse_subnets-ParsedEnd [] = tt
  parse_subnets-ParsedEnd (a ∷ addresses) =
      one_end a addresses (o.parse_prefix a.subnet) refl (parse_subnets o addresses)
        (parse_subnets-ParsedEnd addresses)

  pub parse_subnets-AreParsed :
      (addresses : List AllowedAddress) (ps : List ParsedSubnet)
      → parse_subnets o addresses ≡ some ps
      → AreParsed addresses ps
  unfolding ParsedEnd
  parse_subnets-AreParsed addresses ps e =
      subst (ParsedEnd addresses) e (parse_subnets-ParsedEnd addresses)

  pub parse_subnets-SomeUnparsed :
      (addresses : List AllowedAddress) → parse_subnets o addresses ≡ none → SomeUnparsed addresses
  unfolding ParsedEnd
  parse_subnets-SomeUnparsed addresses e =
      subst (ParsedEnd addresses) e (parse_subnets-ParsedEnd addresses)

  pub parsed-NoTrees :
      (addresses : List AllowedAddress) (ps : List ParsedSubnet)
      → AreParsed addresses ps
      → NoTrees ps
  parsed-NoTrees [] [] h = tt
  parsed-NoTrees [] (p ∷ ps) h = absurd h
  parsed-NoTrees (a ∷ addresses) [] h = absurd h
  parsed-NoTrees (a ∷ addresses) (p ∷ ps) (e, m, t, h) = (t, parsed-NoTrees addresses ps h)

  pub parsed-ArePrefixes :
      ((text : Text) (p : Prefix) → o.parse_prefix text ≡ some p → IsPrefix p)
      → (addresses : List AllowedAddress) (ps : List ParsedSubnet) → AreParsed addresses ps
      → ArePrefixes ps
  parsed-ArePrefixes v [] [] h = tt
  parsed-ArePrefixes v [] (p ∷ ps) h = absurd h
  parsed-ArePrefixes v (a ∷ addresses) [] h = absurd h
  parsed-ArePrefixes v (a ∷ addresses) (p ∷ ps) (e, m, t, h) =
      (v a.subnet p.prefix e, parsed-ArePrefixes v addresses ps h)

  pub parsed-any_overlap :
      (addresses : List AllowedAddress) (ps : List ParsedSubnet)
      → AreParsed addresses ps
      → any_overlap ps ≡ asks_overlap addresses
  parsed-any_overlap [] [] h = refl
  parsed-any_overlap [] (p ∷ ps) h = absurd h
  parsed-any_overlap (a ∷ addresses) [] h = absurd h
  parsed-any_overlap (a ∷ addresses) (p ∷ ps) (e, m, t, h) =
      ap (λ (b : Bool). b || any_overlap ps) m
      ∙ ap (λ (b : Bool). a.may_overlap || b) (parsed-any_overlap addresses ps h)

  module _ (req : AddPeerRequest) where
    -- The private and the public key: the public one of the request, or those of a new pair.
    pub data PublicOf : Option Text → Text → Type 0 where
      given :
          (key : Text)
          → is_empty req.public_key_base64 ≡ false
          → o.parse_key req.public_key_base64 ≡ some key
          → PublicOf none key
      generated :
          (key : Text)
          → is_empty req.public_key_base64 ≡ true
          → o.generate_private_key 0 ≡ some key
          → PublicOf (some key) (o.public_key key)

    -- The preshared key: that of the request, or a new one where it asks for one, or none.
    pub data PresharedOf : Option Text → Type 0 where
      given_preshared :
          (key : Text)
          → is_empty req.preshared_key_base64 ≡ false
          → o.parse_key req.preshared_key_base64 ≡ some key
          → PresharedOf (some key)
      generated_preshared :
          (key : Text)
          → is_empty req.preshared_key_base64 ≡ true
          → req.random_preshared_key ≡ true
          → o.generate_private_key 1 ≡ some key
          → PresharedOf (some key)
      no_preshared :
          is_empty req.preshared_key_base64 ≡ true
          → req.random_preshared_key ≡ false
          → PresharedOf none

    -- Why there are no keys, and the code of the answer.
    pub data NoKeys : ℕ → Type 0 where
      bad_public :
          is_empty req.public_key_base64 ≡ false
          → o.parse_key req.public_key_base64 ≡ none
          → NoKeys 400
      no_private :
          is_empty req.public_key_base64 ≡ true → o.generate_private_key 0 ≡ none → NoKeys 500
      bad_preshared :
          is_empty req.preshared_key_base64 ≡ false
          → o.parse_key req.preshared_key_base64 ≡ none
          → NoKeys 400
      none_generated :
          is_empty req.preshared_key_base64 ≡ true
          → req.random_preshared_key ≡ true
          → o.generate_private_key 1 ≡ none
          → NoKeys 500

    abbrev PublicEnd : ℕ ⊎ Keys → Type 0
    PublicEnd (inl code) = NoKeys code
    PublicEnd (inr keys) = PublicOf keys.private_key keys.public_key × (keys.preshared_key ≡ none)

    abbrev pub KeysEnd : ℕ ⊎ Keys → Type 0
    KeysEnd (inl code) = NoKeys code
    KeysEnd (inr keys) = PublicOf keys.private_key keys.public_key × PresharedOf keys.preshared_key

    public_end :
        (b : Bool)
        → is_empty req.public_key_base64 ≡ b
        → (r : Option Text) → o.parse_key req.public_key_base64 ≡ r
        → (r' : Option Text) → o.generate_private_key 0 ≡ r'
        → PublicEnd (if not b then given_key o (key_or 400 r) else generated_key o (key_or 500 r'))
    public_end false b none e r' g = bad_public b e
    public_end false b (some key) e r' g = (given key b e, refl)
    public_end true b r e none g = no_private b g
    public_end true b r e (some key) g = (generated key b g, refl)

    preshared_end :
        (keys : Keys)
        → PublicOf keys.private_key keys.public_key
        → keys.preshared_key ≡ none
        → (b : Bool) → is_empty req.preshared_key_base64 ≡ b
        → (c : Bool) → req.random_preshared_key ≡ c
        → (r : Option Text) → o.parse_key req.preshared_key_base64 ≡ r
        → (r' : Option Text) → o.generate_private_key 1 ≡ r'
        → KeysEnd (
            if not b
            then add_preshared o keys (key_or 400 r)
            else if c
            then add_preshared o keys (key_or 500 r')
            else inr keys)
    preshared_end keys p n false b c d none e r' g = bad_preshared b e
    preshared_end keys p n false b c d (some key) e r' g = (p, given_preshared key b e)
    preshared_end keys p n true b true d r e none g = none_generated b d g
    preshared_end keys p n true b true d r e (some key) g = (p, generated_preshared key b d g)
    preshared_end keys p n true b false d r e r' g =
        (p, subst PresharedOf (sym n) (no_preshared b d))

    with_public : (k : ℕ ⊎ Keys) → PublicEnd k → KeysEnd (preshared_keys o req k)
    with_public (inl code) h = h
    with_public (inr keys) (p, n) =
        preshared_end keys p n (is_empty req.preshared_key_base64) refl req.random_preshared_key
          refl (o.parse_key req.preshared_key_base64) refl (o.generate_private_key 1) refl

    pub make_keys-KeysEnd : KeysEnd (make_keys o req)
    make_keys-KeysEnd = with_public (public_keys o req) (
        public_end (is_empty req.public_key_base64) refl (o.parse_key req.public_key_base64) refl
          (o.generate_private_key 0) refl)
