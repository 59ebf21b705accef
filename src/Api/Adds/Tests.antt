-- ===== src/Api/Adds/Tests.antt =====
-- `apiAddPeer` at concrete requests.
use tanlnode.Base.{◌≡◌, refl, true, false, none, some, [], ◌∷◌}
use tanlnode.UintTree
use tanlnode.IpTree
use tanlnode.StatsCache.{remove, put_new}
use tanlnode.Sqlgen.Tables.{Peer, select_one}
use tanlnode.Sqlgen.Peers.{add_peer}
use tanlnode.Subnets.{reserve}
use tanlnode.Tx.{do_tx}
use tanlnode.Api.{Node, respond_error}
use tanlnode.Api.Samples.{
  node0, empty_db, outside0, parse_one-IsPrefix, home_service-IsService, zeros-IsRandom,
}
use tanlnode.Api.Adds.{AddPeerRequest, Keys, parse_subnets}
use tanlnode.Api.Adds.Subnets.{reserve_loop}
use tanlnode.Api.Adds.Run.{zero_peer, put_rows}
use tanlnode.Api.Adds.Replies.{api_add_peer, add_with_keys, address_texts}
use tanlnode.Api.Adds.Laws.Requests.{
  PeerAnswers, api_add_peer-answers, is_created, add_peer_may_overlap,
}
use tanlnode.Api.Adds.Laws.Duplicates.{add_duplicate}

abbrev request : AddPeerRequest
request = record {
  public_key_base64 = 65 ∷ [];
  preshared_key_base64 = [];
  random_preshared_key = true;
  endpoint = [];
  persistent_keepalive = 25;
  owner = 111 ∷ [];
  allowed_addresses = record { subnet = 1 ∷ []; may_overlap = false } ∷ [];
}

api_add_peer-answers_example :
    PeerAnswers outside0 parse_one-IsPrefix node0
      (some request)
      (api_add_peer outside0 node0 (some request))
api_add_peer-answers_example =
    api_add_peer-answers outside0 parse_one-IsPrefix node0 refl refl home_service-IsService
      zeros-IsRandom (some request)

is_created_run : is_created (api_add_peer outside0 node0 (some request)).1 ≡ true
unfolding api_add_peer parse_subnets add_with_keys do_tx add_peer select_one reserve_loop reserve
    IpTree.put UintTree.put put_rows address_texts
is_created_run = refl

-- With an address that may overlap.
abbrev overlapping : AddPeerRequest
overlapping = record request {
  allowed_addresses = record { subnet = 1 ∷ []; may_overlap = true } ∷ [];
}

add_peer_may_overlap_example : is_created (api_add_peer outside0 node0 (some overlapping)).1 ≡ false
add_peer_may_overlap_example =
    add_peer_may_overlap outside0 parse_one-IsPrefix node0 refl refl home_service-IsService
      zeros-IsRandom overlapping refl

-- A node that has the peer, with its entry in the cache.
abbrev the_peer : Peer
the_peer = record zero_peer { id = 7; public_key_base64 = 65 ∷ [] }

abbrev node1 : Node
node1 = record node0 {
  db = record empty_db { peers = the_peer ∷ []; next_peer_id = 8 };
  cache = put_new node0.cache (65 ∷ []) 7;
}

abbrev the_keys : Keys
the_keys = record { private_key = none; public_key = 65 ∷ []; preshared_key = none }

add_duplicate_example :
    (add_with_keys outside0 request the_keys node1 []
      ≡ (record node1 { cache = remove node1.cache (65 ∷ []) }, respond_error 409))
    × ((add_with_keys outside0 request the_keys node1 []).0.cache (65 ∷ []) ≡ none)
unfolding select_one
add_duplicate_example =
    add_duplicate outside0 node1 request the_keys [] tt refl refl refl refl the_peer refl
