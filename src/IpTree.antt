-- ===== src/IpTree.antt =====
-- nettree/ip.go: a tree of the subnets that are assigned in one network.
--
-- `IP4Tree` and `IP6Tree` have the same methods over another word (uint32, and the low uint64 of an
-- address). Each method is written once, over the family of the tree.
pub mod Spec
pub mod Bridge
pub mod Offsets
pub mod Laws
pub mod Tests
use tanlnode.Base.{
  ℕ, ◌+◌, ◌-◌, ◌*◌, ◌/◌, ◌%◌, ◌^◌, ◌<◌, bit_and, Bool, true, false, not, ◌&&◌, ◌||◌, Option, none,
  some, ltb, ◌==◌, if◌then◌else◌,
}
use tanlnode.Netip.{Family, v4, v6, Addr, Prefix, addr_bits, same_family, contains}
use tanlnode.UintTree
use tanlnode.UintTree.{UintTree}

-- The error values of the package.
pub data NetErr : Type 0 where
  out_of_net overlaps net_too_small big_net6_not_supported no_free_addr : NetErr

-- How a call ends.
pub data Result {ℓ} (A : Type ℓ) : Type ℓ where
  ok : A → Result A
  err : NetErr → Result A
  panic : Result A

-- `IP4Tree` and `IP6Tree`: `Version`, `Prefix` and the embedded `uintTree`.
pub record IpTree : Type 0 where
  pub version : Family
  pub net : Prefix
  pub tree : UintTree

-- The size of the word `T`.
abbrev pub word_bits : Family → ℕ
word_bits v4 = 32
word_bits v6 = 64

-- `^T(0)`
abbrev pub max_word : Family → ℕ
max_word f = 2 ^ word_bits f - 1

-- `binary.BigEndian.Uint32(addr[:])` and `binary.BigEndian.Uint64(addr[8:])`
abbrev pub word : Family → ℕ → ℕ
word f value = value % 2 ^ word_bits f

abbrev pub new_tree : Family → Prefix → UintTree → IpTree
new_tree f net t = record { version = f; net = net; tree = t }

-- `NewAddrTree4`. The results of the two `Put` are not looked at.
unfoldable pub new_addr_tree4 : Prefix → Result IpTree
new_addr_tree4 net =
    if not (same_family net.addr.family v4)
    then panic
    else if ltb (32 - net.bits) 2
    then err net_too_small
    else let t : UintTree = record {
      root = UintTree.nil;
      ms_bit = 2 ^ (32 - net.bits - 1) % 2 ^ 32;
      max_uint = max_word v4 / 2 ^ net.bits;
      max_pref_bits = 32 - net.bits;
    } in
      let t1 = (UintTree.put 32 t 0 t.max_pref_bits).0 in
      let t2 = (UintTree.put 32 t1 (bit_and (max_word v4) t1.max_uint) t1.max_pref_bits).0 in
      ok (new_tree v4 net t2)

-- `NewAddrTree6`
unfoldable pub new_addr_tree6 : Prefix → Result IpTree
new_addr_tree6 net =
    if not (same_family net.addr.family v6)
    then panic
    else if ltb (128 - net.bits) 2
    then err net_too_small
    else if ltb 64 (128 - net.bits)
    then err big_net6_not_supported
    else let t : UintTree = record {
      root = UintTree.nil;
      ms_bit = 2 ^ (128 - net.bits - 1) % 2 ^ 64;
      max_uint = max_word v6 / 2 ^ (net.bits - 64);
      max_pref_bits = 128 - net.bits;
    } in
      ok (new_tree v6 net (UintTree.put 64 t 0 t.max_pref_bits).0)

-- The test of `Put` and `Delete` that the subnet lies in the network.
abbrev pub within : IpTree → Prefix → Bool
within t pref = contains t.net pref.addr && not (ltb pref.bits t.net.bits)

-- The arguments of the call of the embedded tree.
abbrev pub host : IpTree → Prefix → ℕ
host t pref = bit_and (word t.version pref.addr.value) t.tree.max_uint

abbrev pub host_bits : IpTree → Prefix → ℕ
host_bits t pref = pref.bits - t.net.bits

abbrev pub put_result : IpTree → UintTree × Bool → IpTree × Result (Unit {0})
put_result t (u, true) = (record t { tree = u }, ok tt)
put_result t (u, false) = (record t { tree = u }, err overlaps)

unfoldable pub put : IpTree → Prefix → IpTree × Result (Unit {0})
put t pref =
    if not (same_family pref.addr.family t.version)
    then (t, panic)
    else if not (within t pref)
    then (t, err out_of_net)
    else put_result t (UintTree.put (word_bits t.version) t.tree (host t pref) (host_bits t pref))

abbrev pub delete_result : IpTree → UintTree × Bool → IpTree × Bool
delete_result t (u, b) = (record t { tree = u }, b)

unfoldable pub delete : IpTree → Prefix → IpTree × Bool
delete t pref =
    if not (within t pref)
    then (t, false)
    else delete_result t
        (UintTree.delete (word_bits t.version) t.tree (host t pref) (host_bits t pref))

-- `uint64(tree.maxUint) - tree.Size().Uint64() + 1`; `Uint64` of a big integer is its low word.
abbrev pub free_count : UintTree → ℕ
free_count t = (t.max_uint + 2 ^ 64 - UintTree.size t % 2 ^ 64 + 1) % 2 ^ 64

-- The address of the network with the offset added to its word; the bytes above stay.
abbrev pub add_offset : Family → Addr → ℕ → Addr
add_offset f net offset = record {
  family = f;
  value =
      net.value / 2 ^ word_bits f * 2 ^ word_bits f + (word f net.value + offset) % 2 ^ word_bits f;
}

abbrev pub allocated_at : IpTree → Option (UintTree × ℕ) → IpTree × Result Addr
allocated_at t none = (t, panic)
allocated_at t (some (u, offset)) =
    (record t { tree = u }, ok (add_offset t.version t.net.addr offset))

-- `AllocateRandom`; `rand_int max` is the number that `rand.Int(rand.Reader, max)` returns in this
-- call. That call does not fail here: the code panics if the system has no randomness.
unfoldable pub allocate_random : (ℕ → ℕ) → IpTree → IpTree × Result Addr
allocate_random rand_int t =
    let size = free_count t.tree in
    if size == 0
    then (t, err no_free_addr)
    else allocated_at t (
        UintTree.put_nth_free (word_bits t.version) t.tree
          (rand_int size % 2 ^ word_bits t.version))
