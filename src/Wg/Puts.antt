-- ===== src/Wg/Puts.antt =====
-- wg/wg.go: `PutPeer` and `RemovePeer`.
use tanlnode.Base.{ℕ, zero, suc, Bool, Option, none, some, List, [], ◌∷◌, ◌++◌, ◌==◌, if◌then◌else◌}
use tanlnode.Sqlgen.{Text, Int64}
use tanlnode.PeerStats.{is_empty}
use tanlnode.Texts.{length, itoa}
use tanlnode.Wg.{Command, Service, exec_wg_cmd}

-- "set", "peer", "remove", "preshared-key", "endpoint", "persistent-keepalive" and "allowed-ips".
abbrev pub set_word : Text
set_word = 115 ∷ 101 ∷ 116 ∷ []

abbrev pub peer_word : Text
peer_word = 112 ∷ 101 ∷ 101 ∷ 114 ∷ []

abbrev remove_word : Text
remove_word = 114 ∷ 101 ∷ 109 ∷ 111 ∷ 118 ∷ 101 ∷ []

abbrev pub preshared_word : Text
preshared_word = 112 ∷ 114 ∷ 101 ∷ 115 ∷ 104 ∷ 97 ∷ 114 ∷ 101 ∷ 100 ∷ 45 ∷ 107 ∷ 101 ∷ 121 ∷ []

abbrev pub endpoint_word : Text
endpoint_word = 101 ∷ 110 ∷ 100 ∷ 112 ∷ 111 ∷ 105 ∷ 110 ∷ 116 ∷ []

abbrev pub keepalive_word : Text
keepalive_word =
    112 ∷ 101 ∷ 114 ∷ 115 ∷ 105 ∷ 115 ∷ 116 ∷ 101 ∷ 110 ∷ 116 ∷ 45 ∷ 107 ∷ 101 ∷ 101 ∷ 112 ∷ 97
    ∷ 108 ∷ 105 ∷ 118 ∷ 101 ∷ []

abbrev pub allowed_word : Text
allowed_word = 97 ∷ 108 ∷ 108 ∷ 111 ∷ 119 ∷ 101 ∷ 100 ∷ 45 ∷ 105 ∷ 112 ∷ 115 ∷ []

-- `PeerConfig`; the prefixes are as `String` prints them.
pub record PeerConfig : Type 0 where
  pub public_key : Text
  pub preshared_key : Option Text
  pub endpoint : Text
  pub persistent_keepalive : Int64
  pub allowed_ips : List Text

-- The loop that writes the preshared key. `write i b64` is what the i-th `Write` returns: how many
-- bytes it took, or an error.
pub data Written : Type 0 where
  written : Text → Written
  write_failed : Written
  out_of_fuel : Written

abbrev pub drop : ℕ → Text → Text
drop zero text = text
drop (suc n) [] = []
drop (suc n) (c ∷ text) = drop n text

abbrev pub take : ℕ → Text → Text
take zero text = []
take (suc n) [] = []
take (suc n) (c ∷ text) = c ∷ take n text

abbrev pub after_write : Option ℕ → (ℕ → Written) → Written
after_write none next = write_failed
after_write (some n) next = next n

unfoldable pub write_all : (ℕ → Text → Option ℕ) → ℕ → ℕ → Text → Text → Written
write_all write fuel i file [] = written file
write_all write zero i file (c ∷ b64) = out_of_fuel
write_all write (suc fuel) i file (c ∷ b64) =
    after_write (write i (c ∷ b64))
      (λ n. write_all write fuel (suc i) (file ++ take n (c ∷ b64)) (drop n (c ∷ b64)))

-- The file system: the name that `CreateTemp` gives, the `Write`s, and whether `Sync` fails.
pub record TempFiles : Type 0 where
  pub create : Option Text
  pub write : ℕ → Text → Option ℕ
  pub sync_fails : Bool

-- The name and the content of the file for the key.
abbrev pub TempFile : Type 0
TempFile = Text × Text

abbrev pub synced : Bool → Text → Written → Option TempFile
synced fails name (written file) = if fails then none else some (name, file)
synced fails name write_failed = none
synced fails name out_of_fuel = none

abbrev pub filled : TempFiles → Text → Option Text → Option TempFile
filled files b64 none = none
filled files b64 (some name) =
    synced files.sync_fails name (write_all files.write (length b64) 0 [] b64)

-- The loop over `AllowedIPs`, which writes a comma after all but the last.
abbrev pub write_ips : List Text → Text
write_ips [] = []
write_ips (ip ∷ []) = ip
write_ips (ip ∷ ip' ∷ ips) = ip ++ (44 ∷ write_ips (ip' ∷ ips))

abbrev pub preshared_args : Option TempFile → List Text
preshared_args none = []
preshared_args (some (name, file)) = preshared_word ∷ name ∷ []

abbrev pub endpoint_args : Text → List Text
endpoint_args endpoint = if is_empty endpoint then [] else endpoint_word ∷ endpoint ∷ []

abbrev pub keepalive_args : Int64 → List Text
keepalive_args n = if n == 0 then [] else keepalive_word ∷ itoa n ∷ []

abbrev pub allowed_args : List Text → List Text
allowed_args [] = []
allowed_args (ip ∷ ips) = allowed_word ∷ write_ips (ip ∷ ips) ∷ []

-- The arguments of `PutPeer`; `key_string` is the method `String` of a key.
module _ (key_string : Text → Text) where
  unfoldable pub put_args : Service → PeerConfig → Option TempFile → List Text
  put_args s p file =
      set_word
      ∷ s.ifce
      ∷ peer_word
      ∷ key_string p.public_key
      ∷ (preshared_args file
          ++ (endpoint_args p.endpoint
              ++ (keepalive_args p.persistent_keepalive ++ allowed_args p.allowed_ips)))

  abbrev pub run_put :
      (Option TempFile → Command → Option Text)
      → Service
      → PeerConfig
      → Option TempFile
      → Option Text
  run_put run s p file = exec_wg_cmd (run file) s (put_args s p file)

  abbrev pub put_with_file :
      (Option TempFile → Command → Option Text)
      → Service
      → PeerConfig
      → Option TempFile
      → Option Text
  put_with_file run s p none = none
  put_with_file run s p (some file) = run_put run s p (some file)

  abbrev pub put_with_key :
      TempFiles
      → (Option TempFile → Command → Option Text)
      → Service
      → PeerConfig
      → Option Text
      → Option Text
  put_with_key files run s p none = run_put run s p none
  put_with_key files run s p (some key) =
      put_with_file run s p (filled files (key_string key) files.create)

  -- `PutPeer`; a program that runs reads the file. `none` is an error.
  unfoldable pub put_peer :
      TempFiles → (Option TempFile → Command → Option Text) → Service → PeerConfig → Option Text
  put_peer files run s p = put_with_key files run s p p.preshared_key

  -- `RemovePeer`
  unfoldable pub remove_peer : (Command → Option Text) → Service → Text → Option Text
  remove_peer run s public_key =
      exec_wg_cmd run s (set_word ∷ s.ifce ∷ peer_word ∷ key_string public_key ∷ remove_word ∷ [])
