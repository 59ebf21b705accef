-- ===== src/IpTree/Tests.antt =====
-- The theorems about the networks at concrete inputs, and runs that follow nettree/ip_test.go.
use tanlnode.Base.{
  ℕ, ◌+◌, ◌<◌, ◌≤◌, ◌≡◌, ◌≢◌, ◌↔◌, ◌⊎◌, refl, true, false, not, ◌&&◌, ◌||◌, arith, ◌==◌,
}
use tanlnode.Netip.{Addr, Prefix, v4, v6, IsPrefix, contains}
use tanlnode.UintTree
use tanlnode.UintTree.{UintTree, nil, node}
use tanlnode.UintTree.Spec.{used, taken}
use tanlnode.UintTree.Nth.{count_free}
use tanlnode.IpTree.{
  IpTree, ok, err, panic, overlaps, out_of_net, no_free_addr, net_too_small, big_net6_not_supported,
  new_addr_tree4, new_addr_tree6, put, delete, allocate_random, within,
}
use tanlnode.IpTree.Spec.{IsNet, allocated, is_ok}
use tanlnode.IpTree.Laws.Puts.{put_ok_iff, put_errors, allocated-put, put-IsNet}
use tanlnode.IpTree.Laws.Deletes.{allocated-delete, delete-IsNet, delete-put_net}
use tanlnode.IpTree.Laws.Allocates.{
  free_of, Allocates, allocate_random_lem, allocate_random-no_free,
}
use tanlnode.IpTree.Laws.News.{IsNewNet, last_host, new_addr_tree4_lem, new_addr_tree6_lem}

-- 192.168.0.0/30, as `NewAddrTree4` makes it.
abbrev pub home : Prefix
home = record { addr = record { family = v4; value = 0xc0a80000 }; bits = 30 }

abbrev pub home_net : IpTree
home_net = record {
  version = v4;
  net = home;
  tree = record {
    root = node (node (node nil nil 1) nil 1) (node nil (node nil nil 1) 1) 2;
    ms_bit = 2;
    max_uint = 3;
    max_pref_bits = 2;
  };
}

abbrev pub address : ℕ → Addr
address x = record { family = v4; value = 0xc0a80000 + x }

abbrev pub one : ℕ → Prefix
one x = record { addr = address x; bits = 32 }

-- fd00::/64
abbrev pub local_net : Prefix
local_net = record {
  addr = record { family = v6; value = 0xfd000000000000000000000000000000 };
  bits = 64;
}

pub home-IsPrefix : IsPrefix home
home-IsPrefix = record { addr_ok = record { value_lt = omega arith }; bits_le = omega arith }

pub local_net-IsPrefix : IsPrefix local_net
local_net-IsPrefix = record { addr_ok = record { value_lt = omega arith }; bits_le = omega arith }

pub one-IsPrefix : IsPrefix (one 1)
one-IsPrefix = record { addr_ok = record { value_lt = omega arith }; bits_le = omega arith }

pub last-IsPrefix : IsPrefix (one 3)
last-IsPrefix = record { addr_ok = record { value_lt = omega arith }; bits_le = omega arith }

pub home_net-IsNet : IsNet home_net
unfolding used
home_net-IsNet = record {
  net_ok = home-IsPrefix;
  family_eq = refl;
  masked = refl;
  level = refl;
  valid = record {
    level_pos = omega arith;
    level_le = omega arith;
    mask = refl;
    bound = refl;
    counted = (refl, (refl, (refl, refl, refl), tt), (refl, tt, (refl, refl, refl)));
  };
}

new_run : new_addr_tree4 home ≡ ok home_net
unfolding new_addr_tree4 UintTree.put
new_run = refl

-- Only the two inner addresses can be put; a host is out of another net.
put_run :
    ((put home_net (one 0)).1 ≡ err overlaps)
    × ((put home_net (one 1)).1 ≡ ok tt)
    × ((put home_net (one 4)).1 ≡ err out_of_net)
    × ((put home_net local_net).1 ≡ panic)
    × ((put home_net home).1 ≡ err overlaps)
unfolding put UintTree.put
put_run = (refl, refl, refl, refl, refl)

put_ok_iff_example : ((put home_net (one 1)).1 ≡ ok tt) ↔ (
    (within home_net (one 1) ≡ true)
    × ((ip : Addr) → contains (one 1) ip ≡ true → allocated home_net ip ≡ false))
put_ok_iff_example = put_ok_iff home_net-IsNet one-IsPrefix refl

put_errors_example :
    (((put home_net (one 3)).1 ≡ err out_of_net) ↔ (within home_net (one 3) ≡ false))
    × (((put home_net (one 3)).1 ≡ err overlaps)
        → (ip : Addr) × (contains (one 3) ip ≡ true) × (allocated home_net ip ≡ true))
    × ((put home_net (one 3)).1 ≢ panic)
put_errors_example = put_errors home_net-IsNet last-IsPrefix refl

allocated-put_example :
    allocated (put home_net (one 1)).0 (address 1)
    ≡ allocated home_net (address 1)
      || is_ok (put home_net (one 1)).1 && contains (one 1) (address 1)
allocated-put_example = allocated-put home_net-IsNet one-IsPrefix refl (address 1)

put-IsNet_example : IsNet (put home_net (one 1)).0
put-IsNet_example = put-IsNet home_net-IsNet one-IsPrefix refl

allocated-delete_example :
    allocated (delete home_net (one 3)).0 (address 3)
    ≡ allocated home_net (address 3)
      && not ((delete home_net (one 3)).1 && contains (one 3) (address 3))
allocated-delete_example = allocated-delete home_net-IsNet last-IsPrefix (address 3)

delete-IsNet_example : IsNet (delete home_net (one 3)).0
delete-IsNet_example = delete-IsNet home_net-IsNet last-IsPrefix

delete-put_net_example : delete (put home_net (one 1)).0 (one 1) ≡ (home_net, true)
delete-put_net_example =
    delete-put_net home_net-IsNet one-IsPrefix (unfold put UintTree.put in refl)

some_size : 0 < UintTree.size home_net.tree
unfolding UintTree.size
some_size = omega arith

some_free : 0 < free_of home_net
unfolding count_free taken
some_free = omega arith

one_free_below : 1 < free_of home_net
unfolding count_free taken
one_free_below = omega arith

allocate_random_lem_example :
    (ip : Addr) × (t' : IpTree) × (allocate_random (λ _. 1) home_net ≡ (t', ok ip))
    × Allocates home_net 1 t' ip
allocate_random_lem_example =
    allocate_random_lem home_net-IsNet (λ _. 1) some_size some_free one_free_below

allocate_random-no_free_example :
    ((allocate_random (λ _. 1) home_net).1 ≡ err no_free_addr)
    ↔ ((ip : Addr) → contains home ip ≡ true → allocated home_net ip ≡ true)
allocate_random-no_free_example = allocate_random-no_free home_net-IsNet (λ _. 1) some_size

new_addr_tree4_lem_example :
    ((30 < 30) × (new_addr_tree4 home ≡ err net_too_small))
    ⊎ ((30 ≤ 30)
        × (t : IpTree) × (new_addr_tree4 home ≡ ok t)
        × IsNewNet home (λ x. (0 == x) || (last_host home == x)) t)
new_addr_tree4_lem_example = new_addr_tree4_lem home-IsPrefix refl refl

new_addr_tree6_lem_example :
    ((126 < 64) × (new_addr_tree6 local_net ≡ err net_too_small))
    ⊎ ((64 < 64) × (new_addr_tree6 local_net ≡ err big_net6_not_supported))
    ⊎ ((64 ≤ 64)
        × (64 ≤ 126)
        × (t : IpTree) × (new_addr_tree6 local_net ≡ ok t)
        × IsNewNet local_net (λ x. 0 == x) t)
new_addr_tree6_lem_example = new_addr_tree6_lem local_net-IsPrefix refl refl
