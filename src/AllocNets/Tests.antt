-- ===== src/AllocNets/Tests.antt =====
-- The theorem about the configuration at a concrete input.
use tanlnode.Base.{
  ◌≡◌, refl, Option, none, some, [], ◌∷◌, ◌==◌, if◌then◌else◌, Bool-cases, inl, inr,
}
use tanlnode.Netip.{Prefix, IsPrefix}
use tanlnode.IpTree.Tests.{home, local_net, home-IsPrefix, local_net-IsPrefix}
use tanlnode.Sqlgen.{Text}
use tanlnode.AllocNets.{
  parsed, rejected, networks_overlap, split_seq, trim_left, trim_right, parse_nets,
  parse_alloc_nets,
}
use tanlnode.AllocNets.Laws.{AllocEnds, parse_alloc_nets-ends}

-- A parser that knows "4" and "6".
abbrev parse_digit : Text → Option Prefix
parse_digit [] = none
parse_digit (c ∷ text) = if c == 52 then some home else if c == 54 then some local_net else none

parse_digit-IsPrefix : (text : Text) (p : Prefix) → parse_digit text ≡ some p → IsPrefix p
parse_digit-IsPrefix [] p e = cc
parse_digit-IsPrefix (c ∷ text) p e = elim (Bool-cases (c == 52)) [
  | inl four ↦ let same : home ≡ p = cc (rw four at e) in rw (← same) home-IsPrefix
  | inr other ↦ elim (Bool-cases (c == 54)) [
    | inl six ↦
        let same : local_net ≡ p = cc (rw (other, six) at e) in rw (← same) local_net-IsPrefix
    | inr none_of ↦ cc (rw (other, none_of) at e)
  ]
]

-- " 4,6 "
abbrev both : Text
both = 32 ∷ 52 ∷ 44 ∷ 54 ∷ 32 ∷ []

both_run : parse_alloc_nets parse_digit both ≡ parsed (home ∷ local_net ∷ [])
unfolding parse_alloc_nets parse_nets split_seq trim_left trim_right
both_run = refl

-- "4,4"
twice_run : parse_alloc_nets parse_digit (52 ∷ 44 ∷ 52 ∷ []) ≡ rejected networks_overlap
unfolding parse_alloc_nets parse_nets split_seq trim_left trim_right
twice_run = refl

parse_alloc_nets-ends_example :
    AllocEnds parse_digit parse_digit-IsPrefix (split_seq both) (parse_alloc_nets parse_digit both)
parse_alloc_nets-ends_example = parse_alloc_nets-ends parse_digit parse_digit-IsPrefix both
