-- ===== src/Lib.antt =====
-- A verification library for tanlnode, the service that hands out IP subnets to WireGuard peers.
--
-- The program keeps one tree of assigned subnets for each allocation network. `nettree/tree.go` is
-- the tree over the host parts of addresses, `nettree/ip.go` puts it to use for an IPv4 or IPv6
-- network, and `subnets/subnets.go` tries the networks in order, assigns a random address in each,
-- and fills the trees from the database when the program starts. `peerstats/stats.go` adds up the
-- traffic of a peer over the resets of its counters, and `tx/transaction.go` runs an action with a
-- commit and a rollback; the HTTP handlers call all of these under one lock.
--
-- - Base: shared names, Boolean tests, and lemmas on the digits of numbers and on blocks of them.
-- - Netip: the part of the standard library's net/netip that the program uses.
-- - UintTree: nettree/tree.go. `put`, `delete`, `overlaps`, `put_nth_free` and `size` are the methods
--   `Put`, `Delete`, `Overlaps`, `PutNthFree` and `Size`, over words of `w` bits. The parent pointers
--   are the path of steps that a loop has passed; updating the counters and unlinking goes back up
--   that path. The loops are structural on the tree or on the length of the prefix, so there is no
--   fuel. Spec states the abstract view: which addresses are covered, and what a valid tree is.
-- - IpTree: nettree/ip.go. `new_addr_tree4`, `new_addr_tree6`, `put`, `delete` and `allocate_random`
--   are `NewAddrTree4`, `NewAddrTree6`, `Put`, `Delete` and `AllocateRandom`. A panic is a result. The
--   number that `rand.Int` draws is an argument. Spec states the abstract view: which addresses of
--   the network are allocated.
-- - Utils: utils/utils.go.
-- - Sqlgen: the rows of sqlgen/models.go, and the queries of sqlgen/queries.sql.go on lists of rows:
--   those on statistics in Sqlgen, the tables and the queries on subnets in Tables, those on peers in
--   Peers. Each query has the name of its method.
-- - AllocNets: `parse_alloc_nets` is `parseAllocNets` of main.go, which makes the networks that
--   `new_service` of Subnets takes.
-- - Subnets: subnets/subnets.go. `new_service`, `reserve`, `delete` and `assign_random_in_each_net` are
--   the methods of `Service`, on the list of its trees; a tree that a method returns is its index.
--   The parser of prefixes is a parameter, and the rows of the database are an argument.
-- - PeerStats: peerstats/stats.go. `calculate` is `Calculate`; `int64` is a word in two's complement.
-- - Tx: tx/transaction.go. `do_tx` is `Do`, on functions over any state that end with nil, an error or
--   a panic.
-- - Stats: `get_peer_stats` is `getPeerStats` of stats.go, and `rollup_old_stats` the action of
--   `rollupOldStats` of stats_cache.go, where the queries do not fail.
-- - StatsCache: `put_new`, `remove` and `collect_stats` are `PutNew`, `Remove` and the loop of
--   `collectStats` of stats_cache.go; the cache is a function on keys.
-- - Texts: the parts of strings, bytes and strconv that the program uses. Printing a number runs on
--   fuel 20, the digits of the greatest 64-bit number.
-- - Wg: wg/wg.go and cmd/cmd.go. Dump has `get_peer_stats`, which is `GetPeerStats`, and Puts has
--   `put_peer` and `remove_peer`, which are `PutPeer` and `RemovePeer`. The loop that writes the
--   preshared key runs on fuel, the length of the key: a `Write` that takes no byte at all returns an
--   error. Running a program is a parameter.
-- - Api: the node of main.go, api.go and db; its children are the handlers. Nets has those of subnets.go
--   (`api_reserve_subnet` is `apiReserveSubnet`, and so on), Adds `apiAddPeer` of peers.go, Changes
--   `apiDeletePeer` and `apiUpdatePeer`, and Reads the handlers of peers.go and stats.go that change
--   nothing. Prepare is `prepareWGAndPeerStatsCache` of stats_cache.go, which runs before them. A handler takes the node to the node and what it wrote to the response. Outside lists
--   what is a parameter of them: which queries and commands fail, and with what error; the parser
--   and printer of prefixes; keys; and the random source.
--
-- The handlers run one at a time, since each holds the lock of the database from its first change to
-- its last. `Unlock` of a lock that nobody holds ends the program; it is modelled as a panic.
--
-- In each, Laws and its children hold the theorems, and Tests runs and applies them.
--
-- Not modelled: the failures of the queries of `rollupOldStats`, which its transaction rolls back; the
-- tickers (stats_cache.go), the start of the program and its migrations (main.go besides
-- `parseAllocNets`), processes, files, JSON and the texts of errors and log lines, which only do input
-- and output; and the generated documentation in docs.
pub mod Base
pub mod Netip
pub mod Utils
pub mod UintTree
pub mod IpTree
pub mod Sqlgen
pub mod Subnets
pub mod PeerStats
pub mod Texts
pub mod Tx
pub mod Wg
pub mod Stats
pub mod AllocNets
pub mod StatsCache
pub mod Api
