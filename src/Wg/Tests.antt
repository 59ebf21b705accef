-- ===== src/Wg/Tests.antt =====
-- The theorems on wg/wg.go, applied.
use tanlnode.Base.{
  zero, suc, true, false, ℕ, ◌≡◌, ◌⊎◌, refl, arith, Option, none, some, List, [], ◌∷◌, ◌++◌, inl,
  inr, map,
}
use tanlnode.Sqlgen.{Text}
use tanlnode.Texts.{split}
use tanlnode.Wg.{Command, Service}
use tanlnode.Wg.Dump.{invalid_line, get_peer_stats}
use tanlnode.Wg.Puts.{PeerConfig, TempFile, written, write_failed, write_all, put_args, put_peer}
use tanlnode.Wg.Laws.Dumps.{
  Report, AreReports, reported, print_report, print_lines, get_peer_stats-print,
  get_peer_stats-bad_line,
}
use tanlnode.Wg.Laws.Writes.{IsWriter, SomeFails, read_set, read_set-put_args, write_all-ends}

abbrev wg0 : Service
wg0 = record { ifce = 119 ∷ 48 ∷ []; wg_exec_path = 119 ∷ 103 ∷ []; wg_net_ns_path = 47 ∷ 110 ∷ [] }

abbrev quoted : Text → Text
quoted key = 75 ∷ key

abbrev unquoted : Text → Option Text
unquoted [] = none
unquoted (c ∷ key) = some key

abbrev never_seen : Report
never_seen = record {
  public_key = 65 ∷ 61 ∷ [];
  preshared_key = 40 ∷ 110 ∷ 111 ∷ 110 ∷ 101 ∷ 41 ∷ [];
  endpoint = 40 ∷ 110 ∷ 111 ∷ 110 ∷ 101 ∷ 41 ∷ [];
  allowed_ips = 49 ∷ 47 ∷ 56 ∷ [];
  latest_handshake = 0;
  rx = 0;
  tx = 0;
  persistent_keepalive = 111 ∷ 102 ∷ 102 ∷ [];
}

abbrev seen : Report
seen = record never_seen {
  public_key = 66 ∷ 61 ∷ [];
  endpoint = 49 ∷ 58 ∷ 50 ∷ [];
  latest_handshake = 1700000000;
  rx = 148;
  tx = 92;
}

abbrev reports : List Report
reports = never_seen ∷ seen ∷ []

abbrev header : Text
header = 107 ∷ 9 ∷ 112 ∷ []

reports-AreReports : AreReports unquoted quoted reports
unfolding split
reports-AreReports = (
  record {
    key_back = refl;
    handshake_lt = omega arith;
    rx_lt = omega arith;
    tx_lt = omega arith;
    no_tab = refl;
    no_feed = refl;
  },
  (
    record {
      key_back = refl;
      handshake_lt = omega arith;
      rx_lt = omega arith;
      tx_lt = omega arith;
      no_tab = refl;
      no_feed = refl;
    },
    tt,
  ),
)

abbrev shows : Command → Option Text
shows c = some (print_lines (header ∷ map (print_report quoted) reports))

get_peer_stats-print_example : get_peer_stats unquoted shows wg0 ≡ inr (map reported reports)
get_peer_stats-print_example =
    get_peer_stats-print unquoted quoted shows wg0 header reports reports-AreReports refl refl

abbrev short_line : Text
short_line = 67 ∷ 9 ∷ 68 ∷ []

abbrev shows_short : Command → Option Text
shows_short c =
    some (print_lines (header ∷ map (print_report quoted) reports ++ (short_line ∷ [] ∷ [])))

get_peer_stats-bad_line_example :
    get_peer_stats unquoted shows_short wg0 ≡ inl (invalid_line short_line)
unfolding split
get_peer_stats-bad_line_example =
    get_peer_stats-bad_line unquoted quoted shows_short wg0 header reports reports-AreReports refl
      short_line ([] ∷ []) (invalid_line short_line) refl refl refl refl

-- One byte at a time.
abbrev slow_write : ℕ → Text → Option ℕ
slow_write i b64 = some 1

slow_write-IsWriter : IsWriter slow_write
slow_write-IsWriter i c b64 zero h = cc
slow_write-IsWriter i c b64 (suc n) h = omega arith

write_all-ends_example :
    (write_all slow_write 3 0 [] (1 ∷ 2 ∷ 3 ∷ []) ≡ written (1 ∷ 2 ∷ 3 ∷ []))
    ⊎ ((write_all slow_write 3 0 [] (1 ∷ 2 ∷ 3 ∷ []) ≡ write_failed)
        × SomeFails slow_write 0 (1 ∷ 2 ∷ 3 ∷ []))
write_all-ends_example =
    write_all-ends slow_write slow_write-IsWriter 3 0 [] (1 ∷ 2 ∷ 3 ∷ []) (omega arith)

abbrev config : PeerConfig
config = record {
  public_key = 65 ∷ [];
  preshared_key = some (66 ∷ []);
  endpoint = 49 ∷ 58 ∷ 50 ∷ [];
  persistent_keepalive = 25;
  allowed_ips = (49 ∷ 47 ∷ 56 ∷ []) ∷ (50 ∷ 47 ∷ 56 ∷ []) ∷ [];
}

abbrev key_file : Option TempFile
key_file = some (47 ∷ 116 ∷ [], 75 ∷ 66 ∷ [])

read_set-put_args_example :
    read_set (put_args quoted wg0 config key_file)
    ≡ some (
      wg0.ifce,
      75 ∷ 65 ∷ [],
      record {
        preshared_file = some (47 ∷ 116 ∷ []);
        endpoint = config.endpoint;
        persistent_keepalive = 25;
        allowed_ips = config.allowed_ips;
      },
    )
read_set-put_args_example = read_set-put_args quoted wg0 config key_file (omega arith) refl

-- Without a key there is no file; the program is run in the name space.
abbrev ran : Option TempFile → Command → Option Text
ran file c = some c.0

put_peer_plain :
    put_peer quoted
      (record { create = none; write = slow_write; sync_fails = true })
      ran
      wg0
      (record config { preshared_key = none })
    ≡ some (110 ∷ 115 ∷ 101 ∷ 110 ∷ 116 ∷ 101 ∷ 114 ∷ [])
unfolding put_peer put_args
put_peer_plain = refl

put_peer_no_file :
    put_peer quoted
      (record { create = none; write = slow_write; sync_fails = false })
      ran
      wg0
      config
    ≡ none
unfolding put_peer
put_peer_no_file = refl
