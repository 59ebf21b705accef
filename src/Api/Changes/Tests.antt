-- ===== src/Api/Changes/Tests.antt =====
-- `apiDeletePeer` at concrete nodes.
use tanlnode.Base.{◌≡◌, refl, none, some, [], ◌∷◌}
use tanlnode.Sqlgen.Tables.{select_one, delete_where, count_where}
use tanlnode.Sqlgen.Peers.{remove_peer}
use tanlnode.Tx.{do_tx}
use tanlnode.Api.{
  Node, other, removing_from_wg, removed, Faults, empty, respond_json, internal_server_error,
}
use tanlnode.Api.Outside.{Outside}
use tanlnode.Api.Samples.{node0, empty_db, outside0}
use tanlnode.Api.Adds.Run.{zero_peer}
use tanlnode.Api.Changes.{api_delete_peer}
use tanlnode.Api.Changes.Laws.{DeleteAnswers, api_delete_peer-answers}

abbrev peer_node : Node
peer_node = record node0 {
  db = record empty_db { peers = record zero_peer { public_key_base64 = 65 ∷ [] } ∷ [] };
}

-- WireGuard cannot be told to remove a peer.
abbrev wg_down : Faults
wg_down removing_from_wg = some other
wg_down call = none

abbrev outside_down : Outside
outside_down = record outside0 { faults = wg_down }

api_delete_peer-answers_example :
    DeleteAnswers outside0 peer_node (65 ∷ []) (api_delete_peer outside0 peer_node (65 ∷ []))
api_delete_peer-answers_example = api_delete_peer-answers outside0 peer_node (65 ∷ []) refl

delete_peer :
    api_delete_peer outside0 peer_node (65 ∷ [])
    ≡ (record node0 { wg_calls = removed (65 ∷ []) ∷ [] }, respond_json 204 empty)
unfolding api_delete_peer do_tx remove_peer select_one delete_where count_where
delete_peer = refl

-- The row is gone although the answer is 500.
delete_peer_half : api_delete_peer outside_down peer_node (65 ∷ []) ≡ (node0, internal_server_error)
unfolding api_delete_peer do_tx remove_peer select_one delete_where count_where
delete_peer_half = refl
