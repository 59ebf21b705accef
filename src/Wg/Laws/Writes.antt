-- ===== src/Wg/Laws/Writes.antt =====
-- The writing of the preshared key, and the arguments of `PutPeer`.
use mathlib.Core.Path.{subst}
use mathlib.Core.List.{append_assoc, append-nil}
use tanlnode.Base.{
  ℕ, zero, suc, ◌^◌, ◌<◌, ◌≤◌, ◌≡◌, ◌⊎◌, refl, sym, ap, ◌∙◌, false, Option, none, some, List, [],
  ◌∷◌, ◌++◌, inl, inr, ◌==◌, arith, if◌then◌else◌, Bool-cases, Option-cases, ==_iff,
}
use tanlnode.Sqlgen.{Text, same_text, Int64}
use tanlnode.Texts.{split, join, length, parse_int}
use tanlnode.Texts.Laws.{any_has, split-join, parse_int-itoa}
use tanlnode.Wg.{Service}
use tanlnode.Wg.Puts.{
  PeerConfig, Written, written, write_failed, drop, take, write_all, TempFile, write_ips,
  preshared_args, endpoint_args, keepalive_args, allowed_args, put_args, set_word, peer_word,
  preshared_word, endpoint_word, keepalive_word, allowed_word,
}

-- What `Write` promises of a text that is not empty: it takes some of it, or it fails.
abbrev pub IsWriter : (ℕ → Text → Option ℕ) → Type 0
IsWriter write = (i c : ℕ) (b64 : Text) (n : ℕ) → write i (c ∷ b64) ≡ some n → 0 < n

take-drop : (n : ℕ) (text : Text) → take n text ++ drop n text ≡ text
take-drop zero text = refl
take-drop (suc n) [] = refl
take-drop (suc n) (c ∷ text) = ap (λ (t : Text). c ∷ t) (take-drop n text)

length-drop : (n : ℕ) (text : Text) → length (drop n text) ≤ length text
length-drop zero text = omega arith
length-drop (suc n) [] = omega arith
length-drop (suc n) (c ∷ text) = omega (arith, length-drop n text)

length-drop_some : (n c : ℕ) (text : Text) → 0 < n → length (drop n (c ∷ text)) ≤ length text
length-drop_some zero c text h = absurd (omega (arith, h))
length-drop_some (suc n) c text h = length-drop n text

-- The calls of `Write` from the i-th on, each of what those before have left: one of them fails.
pub data SomeFails (write : ℕ → Text → Option ℕ) : ℕ → Text → Type 0 where
  this_fails : (i c : ℕ) (b64 : Text) → write i (c ∷ b64) ≡ none → SomeFails write i (c ∷ b64)
  later_fails :
      (i c n : ℕ) (b64 : Text)
      → write i (c ∷ b64) ≡ some n
      → SomeFails write (suc i) (drop n (c ∷ b64))
      → SomeFails write i (c ∷ b64)

module _ (write : ℕ → Text → Option ℕ) (w : IsWriter write) where
  -- How the loop ends.
  abbrev pub WriteEnds : ℕ → Text → Text → Written → Type 0
  WriteEnds i file b64 r =
      (r ≡ written (file ++ b64)) ⊎ ((r ≡ write_failed) × SomeFails write i b64)

  after_some :
      (i c n : ℕ) (file b64 : Text) (r : Written)
      → write i (c ∷ b64) ≡ some n
      → WriteEnds (suc i) (file ++ take n (c ∷ b64)) (drop n (c ∷ b64)) r
      → WriteEnds i file (c ∷ b64) r
  after_some i c n file b64 r e (inl h) = inl (
      h
      ∙ ap written (
          append_assoc file (take n (c ∷ b64)) (drop n (c ∷ b64))
          ∙ ap (λ (t : Text). file ++ t) (take-drop n (c ∷ b64))))
  after_some i c n file b64 r e (inr (h, f)) = inr (h, later_fails i c n b64 e f)

  -- If each `Write` takes at least one byte or fails, then with fuel for the bytes of the key the
  -- loop that writes it ends: the file then has what it had and the whole key after it; or the
  -- loop has failed, and then one of the `Write`s, of what those before it had left, has failed. It
  -- does not run out of fuel.
  pub write_all-ends :
      (fuel i : ℕ) (file b64 : Text)
      → length b64 ≤ fuel
      → (write_all write fuel i file b64 ≡ written (file ++ b64))
        ⊎ ((write_all write fuel i file b64 ≡ write_failed) × SomeFails write i b64)
  unfolding write_all
  write_all-ends fuel i file [] h = inl (rw (append-nil file) refl)
  write_all-ends zero i file (c ∷ b64) h = absurd (omega (arith, h))
  write_all-ends (suc fuel) i file (c ∷ b64) h = elim (Option-cases (write i (c ∷ b64))) [
    | inl e ↦ inr (rw e refl, this_fails i c b64 e)
    | inr (n, e) ↦
        let less = length-drop_some n c b64 (w i c b64 n e) in
        let rest = write_all write fuel (suc i) (file ++ take n (c ∷ b64)) (drop n (c ∷ b64)) in
        let same : write_all write (suc fuel) i file (c ∷ b64) ≡ rest = rw e refl in
        subst (WriteEnds i file (c ∷ b64)) (sym same) (
          after_some i c n file b64 rest e (
            write_all-ends fuel (suc i) (file ++ take n (c ∷ b64)) (drop n (c ∷ b64))
              (omega (arith, less, h))))
  ]

-- What the options of `wg set` ask for, as the tool reads them: pairs of a word and its value.
pub record Asked : Type 0 where
  pub preshared_file : Option Text
  pub endpoint : Text
  pub persistent_keepalive : Int64
  pub allowed_ips : List Text

abbrev pub nothing_asked : Asked
nothing_asked = record {
  preshared_file = none;
  endpoint = [];
  persistent_keepalive = 0;
  allowed_ips = [];
}

abbrev with_keepalive : Asked → Option Int64 → Option Asked
with_keepalive a none = none
with_keepalive a (some n) = some (record a { persistent_keepalive = n })

abbrev with_option : Asked → Text → Text → Option Asked
with_option a word value =
    if same_text word preshared_word
    then some (record a { preshared_file = some value })
    else if same_text word endpoint_word
    then some (record a { endpoint = value })
    else if same_text word keepalive_word
    then with_keepalive a (parse_int value)
    else if same_text word allowed_word
    then some (record a { allowed_ips = split 44 value })
    else none

abbrev next_option : Option Asked → (Asked → Option Asked) → Option Asked
next_option none f = none
next_option (some a) f = f a

abbrev pub read_options : Asked → List Text → Option Asked
read_options a [] = some a
read_options a (word ∷ []) = none
read_options a (word ∷ value ∷ args) =
    next_option (with_option a word value) (λ b. read_options b args)

abbrev named : Text → Text → Option Asked → Option (Text × Text × Asked)
named ifce key none = none
named ifce key (some a) = some (ifce, key, a)

-- `set <interface> peer <key>` and the options.
abbrev pub read_set : List Text → Option (Text × Text × Asked)
read_set [] = none
read_set (set ∷ []) = none
read_set (set ∷ ifce ∷ []) = none
read_set (set ∷ ifce ∷ peer ∷ []) = none
read_set (set ∷ ifce ∷ peer ∷ key ∷ options) =
    if same_text set set_word
    then (if same_text peer peer_word
        then named ifce key (read_options nothing_asked options)
        else none)
    else none

abbrev pub file_name : Option TempFile → Option Text
file_name none = none
file_name (some (name, file)) = some name

write_ips-eq-join : (ips : List Text) → write_ips ips ≡ join 44 ips
write_ips-eq-join [] = refl
write_ips-eq-join (ip ∷ []) = refl
write_ips-eq-join (ip ∷ ip' ∷ ips) =
    ap (λ (t : Text). ip ++ (44 ∷ t)) (write_ips-eq-join (ip' ∷ ips))

read_allowed :
    (a : Asked) (ips : List Text)
    → a.allowed_ips ≡ []
    → any_has 44 ips ≡ false
    → read_options a (allowed_args ips) ≡ some (record a { allowed_ips = ips })
read_allowed a [] e h = ap (λ (ips : List Text). some (record a { allowed_ips = ips })) e
read_allowed a (ip ∷ ips) e h = rw (write_ips-eq-join (ip ∷ ips), split-join 44 ip ips h) refl

read_keepalive :
    (a : Asked) (n : Int64) (args : List Text)
    → a.persistent_keepalive ≡ 0
    → n < 2 ^ 64
    → read_options a (keepalive_args n ++ args)
      ≡ read_options (record a { persistent_keepalive = n }) args
read_keepalive a n args e h = elim (Bool-cases (n == 0)) [
  | inl z ↦
      let zero_n : n ≡ 0 = (==_iff n 0).0 z in
      rw z (
        ap (λ (k : Int64). read_options (record a { persistent_keepalive = k }) args)
          (e ∙ sym zero_n))
  | inr z ↦ rw (z, parse_int-itoa n h) refl
]

read_endpoint :
    (a : Asked) (endpoint : Text) (args : List Text)
    → a.endpoint ≡ []
    → read_options a (endpoint_args endpoint ++ args)
      ≡ read_options (record a { endpoint = endpoint }) args
read_endpoint a [] args e = ap (λ (t : Text). read_options (record a { endpoint = t }) args) e
read_endpoint a (c ∷ endpoint) args e = refl

read_preshared :
    (a : Asked) (file : Option TempFile) (args : List Text)
    → a.preshared_file ≡ none
    → read_options a (preshared_args file ++ args)
      ≡ read_options (record a { preshared_file = file_name file }) args
read_preshared a none args e =
    ap (λ (o : Option Text). read_options (record a { preshared_file = o }) args) e
read_preshared a (some (name, file)) args e = refl

-- The arguments of `PutPeer`, read as pairs of options, name the interface and the key of the peer
-- and ask for what the configuration has: the file of its preshared key, the endpoint, the keepalive
-- interval, which is a word, and the allowed prefixes, whose texts have no comma; and for nothing
-- where the configuration leaves one out.
pub read_set-put_args :
    (key_string : Text → Text) (s : Service) (p : PeerConfig) (file : Option TempFile)
    → p.persistent_keepalive < 2 ^ 64
    → any_has 44 p.allowed_ips ≡ false
    → read_set (put_args key_string s p file)
      ≡ some (
        s.ifce,
        key_string p.public_key,
        record {
          preshared_file = file_name file;
          endpoint = p.endpoint;
          persistent_keepalive = p.persistent_keepalive;
          allowed_ips = p.allowed_ips;
        },
      )
unfolding put_args
read_set-put_args key_string s p file h g =
    let allowed = allowed_args p.allowed_ips in
    let keepalive = keepalive_args p.persistent_keepalive ++ allowed in
    let with_file = record nothing_asked { preshared_file = file_name file } in
    let with_endpoint = record with_file { endpoint = p.endpoint } in
    let with_interval = record with_endpoint { persistent_keepalive = p.persistent_keepalive } in
    ap (named s.ifce (key_string p.public_key)) (
      read_preshared nothing_asked file (endpoint_args p.endpoint ++ keepalive) refl
      ∙ read_endpoint with_file p.endpoint keepalive refl
      ∙ read_keepalive with_endpoint p.persistent_keepalive allowed refl h
      ∙ read_allowed with_interval p.allowed_ips refl g)
