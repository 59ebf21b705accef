-- ===== src/Wg/Dump.antt =====
-- wg/wg.go: `GetPeerStats`, which reads what the tool prints of the peers.
use tanlnode.Base.{
  ℕ, zero, suc, ◌+◌, ◌%◌, ◌^◌, Option, none, some, List, [], ◌∷◌, ltb, ◌==◌, if◌then◌else◌, ◌⊎◌,
  inl, inr,
}
use tanlnode.Sqlgen.{Text, same_text, Int64}
use tanlnode.PeerStats.{Stat, is_empty}
use tanlnode.Texts.{length, split, parse_int}
use tanlnode.Wg.{Command, Service, exec_wg_cmd}

-- Why `GetPeerStats` failed.
pub data StatsErr : Type 0 where
  exec_error : StatsErr
  invalid_line : Text → StatsErr
  bad_public_key bad_handshake bad_rx bad_tx : Text → StatsErr

-- A result or an error, and what follows a result.
abbrev pub Read : Type 0 → Type 0
Read A = StatsErr ⊎ A

abbrev pub or_error : {A : Type 0} → Option A → StatsErr → Read A
or_error none e = inl e
or_error (some a) e = inr a

abbrev pub then_read : {A B : Type 0} → Read A → (A → Read B) → Read B
then_read (inl e) f = inl e
then_read (inr a) f = f a

-- `columns[i]`; the callers have tested the length.
abbrev pub column : List Text → ℕ → Text
column [] i = []
column (c ∷ columns) zero = c
column (c ∷ columns) (suc i) = column columns i

-- "(none)"
abbrev pub none_word : Text
none_word = 40 ∷ 110 ∷ 111 ∷ 110 ∷ 101 ∷ 41 ∷ []

abbrev pub parsed_endpoint : Text → Text
parsed_endpoint endpoint = if same_text endpoint none_word then [] else endpoint

-- `time.Unix(n, 0)` in seconds since the zero time, and the zero time for 0.
abbrev pub handshake_time : Int64 → ℕ
handshake_time n = if n == 0 then 0 else (n + 62135596800) % 2 ^ 64

-- `wgtypes.ParseKey`; a key is its bytes.
module _ (parse_key : Text → Option Text) where
  abbrev pub parse_columns : List Text → Read (Text × Stat)
  parse_columns columns =
      then_read (or_error (parse_key (column columns 0)) (bad_public_key (column columns 0)))
        (λ key.
          then_read (or_error (parse_int (column columns 4)) (bad_handshake (column columns 4)))
            (λ at.
              then_read (or_error (parse_int (column columns 5)) (bad_rx (column columns 5))) (λ rx.
                then_read (or_error (parse_int (column columns 6)) (bad_tx (column columns 6)))
                  (λ tx. inr (
                    key,
                    record {
                      rx = rx;
                      tx = tx;
                      latest_handshake = handshake_time at;
                      latest_endpoint = parsed_endpoint (column columns 2);
                    },
                  )))))

  -- A line that is not empty.
  abbrev pub parse_line : Text → List Text → Read (Text × Stat)
  parse_line line columns =
      if ltb (length columns) 8 then inl (invalid_line line) else parse_columns columns

  -- The loop after the first line.
  unfoldable pub parse_lines : List Text → Read (List (Text × Stat))
  parse_lines [] = inr []
  parse_lines (line ∷ lines) =
      let rest = parse_lines lines in
      if is_empty line
      then rest
      else then_read (parse_line line (split 9 line))
          (λ peer. then_read rest (λ peers. inr (peer ∷ peers)))

  abbrev pub skip_first : List Text → Read (List (Text × Stat))
  skip_first [] = inr []
  skip_first (line ∷ lines) = parse_lines lines

  unfoldable pub parse_dump : Text → Read (List (Text × Stat))
  parse_dump output = skip_first (split 10 output)

  abbrev pub parse_output : Option Text → Read (List (Text × Stat))
  parse_output none = inl exec_error
  parse_output (some output) = parse_dump output

-- "show" and "dump".
abbrev pub show_word : Text
show_word = 115 ∷ 104 ∷ 111 ∷ 119 ∷ []

abbrev pub dump_word : Text
dump_word = 100 ∷ 117 ∷ 109 ∷ 112 ∷ []

-- `GetPeerStats`
unfoldable pub get_peer_stats :
    (Text → Option Text) → (Command → Option Text) → Service → Read (List (Text × Stat))
get_peer_stats parse_key run s =
    parse_output parse_key (exec_wg_cmd run s (show_word ∷ s.ifce ∷ dump_word ∷ []))
