-- ===== src/Api/Samples.antt =====
-- A node, for the tests of the handlers.
use tanlnode.Base.{ℕ, ◌≡◌, arith, false, Option, none, some, [], ◌∷◌}
use tanlnode.Sqlgen.{Text}
use tanlnode.Sqlgen.Tables.{Db}
use tanlnode.Netip.{Addr, Prefix, IsPrefix}
use tanlnode.AllocNets.Laws.{AreDisjoint}
use tanlnode.IpTree.Tests.{home_net, one, one-IsPrefix, home_net-IsNet}
use tanlnode.Subnets.{Service}
use tanlnode.Subnets.Spec.{IsService, IsRandom}
use tanlnode.Subnets.Laws.Nets.{nets_of}
use tanlnode.StatsCache.{Cache}
use tanlnode.Api.{Node, Faults}
use tanlnode.Api.Outside.{Outside}

abbrev pub empty_db : Db
empty_db = record {
  peers = [];
  subnets = [];
  peer_stats = [];
  next_peer_id = 1;
  next_subnet_id = 1;
  foreign_keys = false;
}

abbrev pub home_service : Service
home_service = home_net ∷ []

abbrev pub empty_cache : Cache
empty_cache key = none

abbrev pub node0 : Node
node0 = record {
  locked = false;
  db = empty_db;
  subnets = home_service;
  cache = empty_cache;
  wg_calls = [];
}

pub home_service-IsService : IsService home_service
home_service-IsService = (home_net-IsNet, tt)

pub home_service-AreDisjoint : AreDisjoint (nets_of home_service)
home_service-AreDisjoint = (λ ip. ground arith, tt)

-- A parser that knows one prefix.
abbrev pub parse_one_prefix : Text → Option Prefix
parse_one_prefix [] = none
parse_one_prefix (c ∷ text) = some (one 1)

pub parse_one-IsPrefix : (text : Text) (p : Prefix) → parse_one_prefix text ≡ some p → IsPrefix p
parse_one-IsPrefix [] p e = cc
parse_one-IsPrefix (c ∷ text) p e = let whole : one 1 ≡ p = cc in rw (← whole) one-IsPrefix

abbrev pub print_slash : Prefix → Text
print_slash p = 47 ∷ []

abbrev pub no_faults : Faults
no_faults call = none

abbrev pub zeros : ℕ → ℕ → ℕ
zeros i max = 0

pub zeros-IsRandom : IsRandom zeros
zeros-IsRandom i max h = h

abbrev pub outside0 : Outside
outside0 = record {
  faults = no_faults;
  parse_prefix = parse_one_prefix;
  print_prefix = print_slash;
  addr_string = λ (a : Addr). 97 ∷ [];
  prefix_string = print_slash;
  parse_key = λ (key : Text). some key;
  key_string = λ (key : Text). key;
  generate_private_key = λ (i : ℕ). some (i ∷ []);
  public_key = λ (key : Text). 80 ∷ key;
  rand = zeros;
  draw_port = λ (n : ℕ). 0;
  ports = 51820 ∷ [];
}
