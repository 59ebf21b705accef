-- ===== src/Wg/Laws/Dumps.antt =====
-- `GetPeerStats` reads what `wg show <interface> dump` prints.
use mathlib.Core.List.{append_assoc, append-nil}
use tanlnode.Base.{
  ℕ, ◌^◌, ◌<◌, ◌≡◌, refl, ap, ◌∙◌, false, ◌||◌, Option, some, List, [], ◌∷◌, ◌++◌, map, inl, inr,
  arith,
}
use tanlnode.Sqlgen.{Text, Int64}
use tanlnode.PeerStats.{Stat, is_empty}
use tanlnode.Texts.{has, split, join, itoa}
use tanlnode.Texts.Laws.{
  any_has, or_false, split-append, split-join, parse_int-itoa, has-itoa, has-join,
}
use tanlnode.Wg.{Command, Service, exec_wg_cmd}
use tanlnode.Wg.Dump.{
  Read, StatsErr, parse_columns, parse_line, parse_lines, parse_dump, parsed_endpoint,
  handshake_time, then_read, skip_first, show_word, dump_word, get_peer_stats, parse_output,
}

-- A peer, as the tool reports it.
pub record Report : Type 0 where
  pub public_key : Text
  pub preshared_key : Text
  pub endpoint : Text
  pub allowed_ips : Text
  pub latest_handshake : Int64
  pub rx : Int64
  pub tx : Int64
  pub persistent_keepalive : Text

-- What `GetPeerStats` makes of it.
abbrev pub reported : Report → Text × Stat
reported r = (
  r.public_key,
  record {
    rx = r.rx;
    tx = r.tx;
    latest_handshake = handshake_time r.latest_handshake;
    latest_endpoint = parsed_endpoint r.endpoint;
  },
)

-- The lines, each ended by a line feed.
abbrev pub print_lines : List Text → Text
print_lines [] = []
print_lines (line ∷ lines) = line ++ (10 ∷ print_lines lines)

split-print_lines :
    (lines : List Text)
    → any_has 10 lines ≡ false
    → split 10 (print_lines lines) ≡ lines ++ ([] ∷ [])
unfolding split
split-print_lines [] h = refl
split-print_lines (line ∷ lines) h =
    let n = or_false (has 10 line) (any_has 10 lines) h in
    split-append 10 line (print_lines lines) n.0
    ∙ ap (λ (ls : List Text). line ∷ ls) (split-print_lines lines n.1)

is_empty-append : (text rest : Text) (c : ℕ) → is_empty (text ++ (c ∷ rest)) ≡ false
is_empty-append [] rest c = refl
is_empty-append (d ∷ text) rest c = refl

then_read-inr : {A : Type 0} (r : Read A) → r ≡ then_read r (λ a. inr a)
then_read-inr (inl e) = refl
then_read-inr (inr a) = refl

then_read-map :
    {A : Type 0} (a : A) (r : Read (List A)) (xs : List A)
    → then_read (then_read r (λ bs. inr (xs ++ bs))) (λ bs. inr (a ∷ bs))
      ≡ then_read r (λ bs. inr ((a ∷ xs) ++ bs))
then_read-map a (inl e) xs = refl
then_read-map a (inr bs) xs = refl

any_has-append :
    (c : ℕ) (ls ls' : List Text) → any_has c (ls ++ ls') ≡ any_has c ls || any_has c ls'
any_has-append c [] ls' = refl
any_has-append c (l ∷ ls) ls' = rw (any_has-append c ls ls') (ground arith)

-- The columns of a line after the key.
abbrev later_columns : Report → List Text
later_columns r =
    r.preshared_key
    ∷ r.endpoint
    ∷ r.allowed_ips
    ∷ itoa r.latest_handshake
    ∷ itoa r.rx
    ∷ itoa r.tx
    ∷ r.persistent_keepalive
    ∷ []

module _ (key_string : Text → Text) where
  -- The columns of a line.
  abbrev pub columns : Report → List Text
  columns r = key_string r.public_key ∷ later_columns r

  abbrev pub print_report : Report → Text
  print_report r = join 9 (columns r)

module _ (parse_key : Text → Option Text) (key_string : Text → Text) where
  -- The key reads back, the numbers are words, and no text has a tab or a line feed.
  pub record IsReport (r : Report) : Type 0 where
    pub key_back : parse_key (key_string r.public_key) ≡ some r.public_key
    pub handshake_lt : r.latest_handshake < 2 ^ 64
    pub rx_lt : r.rx < 2 ^ 64
    pub tx_lt : r.tx < 2 ^ 64
    pub no_tab :
        any_has 9 (
          key_string r.public_key
          ∷ r.preshared_key
          ∷ r.endpoint
          ∷ r.allowed_ips
          ∷ r.persistent_keepalive
          ∷ [])
        ≡ false
    pub no_feed :
        any_has 10 (
          key_string r.public_key
          ∷ r.preshared_key
          ∷ r.endpoint
          ∷ r.allowed_ips
          ∷ r.persistent_keepalive
          ∷ [])
        ≡ false

  abbrev pub AreReports : List Report → Type 0
  AreReports [] = Unit
  AreReports (r ∷ rs) = IsReport r × AreReports rs

  module _ (r : Report) (v : IsReport r) where
    no_tab_columns : any_has 9 (columns key_string r) ≡ false
    no_tab_columns =
        let h = v.no_tab in
        rw
          (
            has-itoa 9 r.latest_handshake refl refl,
            has-itoa 9 r.rx refl refl,
            has-itoa 9 r.tx refl refl,
          )
          h

    no_feed_line : has 10 (print_report key_string r) ≡ false
    no_feed_line =
        let h = v.no_feed in
        has-join 10 9 (columns key_string r) refl (
          rw
            (
              has-itoa 10 r.latest_handshake refl refl,
              has-itoa 10 r.rx refl refl,
              has-itoa 10 r.tx refl refl,
            )
            h)

    parse_columns-report : parse_columns parse_key (columns key_string r) ≡ inr (reported r)
    parse_columns-report =
        rw
          (
            v.key_back,
            parse_int-itoa r.latest_handshake v.handshake_lt,
            parse_int-itoa r.rx v.rx_lt,
            parse_int-itoa r.tx v.tx_lt,
          )
          refl

    parse_line-report :
        parse_line parse_key (print_report key_string r) (split 9 (print_report key_string r))
        ≡ inr (reported r)
    parse_line-report =
        ap (λ (cs : List Text). parse_line parse_key (print_report key_string r) cs)
          (split-join 9 (key_string r.public_key) (later_columns r) no_tab_columns)
        ∙ parse_columns-report

  any_has-map :
      (rs : List Report) → AreReports rs → any_has 10 (map (print_report key_string) rs) ≡ false
  any_has-map [] v = refl
  any_has-map (r ∷ rs) (v, vs) = rw (no_feed_line r v, any_has-map rs vs) refl

  -- Readable lines come before whatever the others give.
  parse_lines-reports :
      (rs : List Report) (lines : List Text)
      → AreReports rs
      → parse_lines parse_key (map (print_report key_string) rs ++ lines)
        ≡ then_read (parse_lines parse_key lines) (λ peers. inr (map reported rs ++ peers))
  unfolding parse_lines
  parse_lines-reports [] lines v = then_read-inr (parse_lines parse_key lines)
  parse_lines-reports (r ∷ rs) lines (v, vs) =
      rw
        (
          is_empty-append (key_string r.public_key) _ 9,
          parse_line-report r v,
          parse_lines-reports rs lines vs,
        )
        (then_read-map (reported r) (parse_lines parse_key lines) (map reported rs))

  module _ (run : Command → Option Text) (s : Service) (header : Text) (rs : List Report)
      (v : AreReports rs) (h : has 10 header ≡ false) where
    -- What the tool prints, a header and then the lines of the reports and others, is read so.
    read_dump :
        (lines : List Text)
        → any_has 10 lines ≡ false
        → exec_wg_cmd run s (show_word ∷ s.ifce ∷ dump_word ∷ [])
          ≡ some (print_lines (header ∷ map (print_report key_string) rs ++ lines))
        → get_peer_stats parse_key run s
          ≡ then_read
              (parse_lines parse_key (lines ++ ([] ∷ [])))
              (λ peers. inr (map reported rs ++ peers))
    unfolding get_peer_stats parse_dump
    read_dump lines g e =
        let all = map (print_report key_string) rs ++ lines in
        let free : any_has 10 (header ∷ all) ≡ false =
          rw (h, any_has-append 10 (map (print_report key_string) rs) lines, any_has-map rs v, g)
            refl in
        ap (parse_output parse_key) e
        ∙ ap (skip_first parse_key) (split-print_lines (header ∷ all) free)
        ∙ ap (parse_lines parse_key)
            (append_assoc (map (print_report key_string) rs) lines ([] ∷ []))
        ∙ parse_lines-reports rs (lines ++ ([] ∷ [])) v

    -- If the tool prints a line without a line feed and then a line for each of the reports, whose
    -- numbers are 64-bit words, whose keys read back and whose texts have no tab and no line feed, then
    -- `GetPeerStats` returns the statistics of the reports, in their order.
    pub get_peer_stats-print :
        exec_wg_cmd run s (show_word ∷ s.ifce ∷ dump_word ∷ [])
          ≡ some (print_lines (header ∷ map (print_report key_string) rs))
        → get_peer_stats parse_key run s ≡ inr (map reported rs)
    unfolding parse_lines
    get_peer_stats-print e =
        read_dump [] refl (rw (append-nil (map (print_report key_string) rs)) e)
        ∙ ap inr (append-nil (map reported rs))

    -- If the tool prints a line without a line feed, then a line for each of the reports, as above,
    -- and then a line that is not empty and does not read, then `GetPeerStats` returns the error of
    -- that line and no statistics, whatever lines follow.
    pub get_peer_stats-bad_line :
        (line : Text) (lines : List Text) (err : StatsErr)
        → any_has 10 (line ∷ lines) ≡ false
        → is_empty line ≡ false
        → parse_line parse_key line (split 9 line) ≡ inl err
        → exec_wg_cmd run s (show_word ∷ s.ifce ∷ dump_word ∷ [])
          ≡ some (print_lines (header ∷ map (print_report key_string) rs ++ (line ∷ lines)))
        → get_peer_stats parse_key run s ≡ inl err
    unfolding parse_lines
    get_peer_stats-bad_line line lines err g n b e = read_dump (line ∷ lines) g e ∙ rw (n, b) refl
