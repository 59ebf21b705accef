-- ===== src/AllocNets.antt =====
-- main.go, `parseAllocNets`: the allocation networks of the configuration.
pub mod Laws
mod Tests
use tanlnode.Base.{
  ℕ, ◌-◌, ◌/◌, ◌*◌, ◌^◌, Bool, true, false, not, ◌&&◌, ◌||◌, Option, none, some, List, [], ◌∷◌,
  ◌++◌, ◌==◌, if◌then◌else◌,
}
use tanlnode.Netip.{Prefix, addr_bits, contains}
use tanlnode.Sqlgen.{Text}

-- The two ends of `strings.Trim(netStr, " \t")`.
abbrev pub is_space : ℕ → Bool
is_space c = (c == 32) || (c == 9)

unfoldable pub trim_left : Text → Text
trim_left [] = []
trim_left (c ∷ text) = let rest = trim_left text in if is_space c then rest else c ∷ text

unfoldable pub trim_right : Text → Text
trim_right [] = []
trim_right (c ∷ text) = elim (trim_right text) [
  | [] ↦ if is_space c then [] else c ∷ []
  | d ∷ rest ↦ c ∷ d ∷ rest
]

abbrev pub put_first : ℕ → List Text → List Text
put_first c [] = (c ∷ []) ∷ []
put_first c (text ∷ texts) = (c ∷ text) ∷ texts

-- `strings.SplitSeq(str, ",")`
unfoldable pub split_seq : Text → List Text
split_seq [] = [] ∷ []
split_seq (c ∷ text) = let rest = split_seq text in if c == 44 then [] ∷ rest else put_first c rest

-- `net.Masked().Addr() != net.Addr()`, for a prefix of the length of its family.
abbrev pub has_host_bits : Prefix → Bool
has_host_bits net =
    let block : ℕ = 2 ^ (addr_bits net.addr.family - net.bits) in
    not (net.addr.value / block * block == net.addr.value)

pub data AllocErr : Type 0 where
  parse_error non_zero_host_bits networks_overlap : AllocErr

pub data Parsed : Type 0 where
  parsed : List Prefix → Parsed
  rejected : AllocErr → Parsed

abbrev pub add_net : Prefix → Parsed → Parsed
add_net net (rejected e) = rejected e
add_net net (parsed nets) = parsed (net ∷ nets)

abbrev pub append_net : Option Prefix → Parsed → Parsed
append_net none rest = rejected parse_error
append_net (some net) rest =
    if has_host_bits net then rejected non_zero_host_bits else add_net net rest

-- The inner loop over `j`.
abbrev pub meets : Prefix → List Prefix → Bool
meets net [] = false
meets net (other ∷ nets) = (contains net other.addr || contains other net.addr) || meets net nets

-- The outer loop over `i`.
abbrev pub any_overlap : List Prefix → Bool
any_overlap [] = false
any_overlap (net ∷ nets) = meets net nets || any_overlap nets

abbrev pub check_overlap : Parsed → Parsed
check_overlap (rejected e) = rejected e
check_overlap (parsed nets) = if any_overlap nets then rejected networks_overlap else parsed nets

module _ (parse_prefix : Text → Option Prefix) where
  -- The first loop.
  unfoldable pub parse_nets : List Text → Parsed
  parse_nets [] = parsed []
  parse_nets (text ∷ texts) =
      append_net (parse_prefix (trim_right (trim_left text))) (parse_nets texts)

  unfoldable pub parse_alloc_nets : Text → Parsed
  parse_alloc_nets str = check_overlap (parse_nets (split_seq str))
