-- ===== src/PeerStats/Laws.antt =====
-- The totals that `Calculate` returns.
use tanlnode.Base.{
  ℕ, ◌+◌, ◌-◌, ◌%◌, ◌^◌, ◌≤◌, ◌<◌, ◌≡◌, refl, sym, ap, ◌∙◌, Bool, true, false, arith, List, [], ◌∷◌,
  ltb, if◌then◌else◌,
}
use tanlnode.Sqlgen.{less64}
use tanlnode.PeerStats.{Stat, TotalStatCalc, add64, is_new_period, end_period, total_of, calculate}

-- The calls of `Calculate` on the samples in order, and the total that the last one returned, or
-- else the one of before.
abbrev pub last_total : Stat → TotalStatCalc → List Stat → Stat
last_total total ts [] = total
last_total total ts (s ∷ samples) = last_total (calculate ts s).1 (calculate ts s).0 samples

-- The traffic that a sample reports besides the one before it: all of it after a reset.
abbrev pub gain : Bool → ℕ → ℕ → ℕ
gain reset old cur = if reset then cur else cur - old

abbrev pub tx_gains : Stat → List Stat → ℕ
tx_gains old [] = 0
tx_gains old (s ∷ samples) = gain (is_new_period old s) old.tx s.tx + tx_gains s samples

abbrev pub rx_gains : Stat → List Stat → ℕ
rx_gains old [] = 0
rx_gains old (s ∷ samples) = gain (is_new_period old s) old.rx s.rx + rx_gains s samples

-- The counters are not negative.
pub record IsCount (s : Stat) : Type 0 where
  pub tx_lt : s.tx < 2 ^ 63
  pub rx_lt : s.rx < 2 ^ 63

abbrev pub AreCounts : List Stat → Type 0
AreCounts [] = Unit
AreCounts (s ∷ samples) = IsCount s × AreCounts samples

less-ltb : (a b : ℕ) → a < 2 ^ 63 → b < 2 ^ 63 → less64 a b ≡ ltb a b
less-ltb a b ha hb = rw (shifted a ha, shifted b hb) (ground arith)
  where
    shifted : (c : ℕ) → c < 2 ^ 63 → (c + 2 ^ 63) % 2 ^ 64 ≡ c + 2 ^ 63
    shifted c h = omega (arith, h)

-- Within a period the counters do not fall.
no_fall :
    (old s : Stat)
    → IsCount old
    → IsCount s
    → is_new_period old s ≡ false
    → (old.tx ≤ s.tx) × (old.rx ≤ s.rx)
no_fall old s ho hs e =
    let tx_eq = less-ltb s.tx old.tx hs.tx_lt ho.tx_lt in
    let rx_eq = less-ltb s.rx old.rx hs.rx_lt ho.rx_lt in
    (le_of_not _ _ (sym tx_eq ∙ ground (arith, e)), le_of_not _ _ (sym rx_eq ∙ ground (arith, e)))
  where
    le_of_not : (a b : ℕ) → ltb a b ≡ false → b ≤ a
    le_of_not a b h = ground (arith, h)

step_sum :
    (reset : Bool) (prev old s : ℕ)
    → (reset ≡ false → old ≤ s)
    → add64 (if reset then add64 prev old else prev) s
      ≡ (add64 prev old + gain reset old s) % 2 ^ 64
step_sum true prev old s h = refl
step_sum false prev old s h = omega (arith, h refl)

ended_tx :
    (b : Bool) (ts : TotalStatCalc)
    → (if b then end_period ts else ts).prev_total_tx
      ≡ (if b then add64 ts.prev_total_tx ts.cur_period.tx else ts.prev_total_tx)
ended_tx true ts = refl
ended_tx false ts = refl

ended_rx :
    (b : Bool) (ts : TotalStatCalc)
    → (if b then end_period ts else ts).prev_total_rx
      ≡ (if b then add64 ts.prev_total_rx ts.cur_period.rx else ts.prev_total_rx)
ended_rx true ts = refl
ended_rx false ts = refl

-- One call adds the gains of its sample to the totals.
module _ (ts : TotalStatCalc) (s : Stat) (ho : IsCount ts.cur_period) (hs : IsCount s) where
  tx_step :
      (total_of (calculate ts s).0).tx
      ≡ ((total_of ts).tx + gain (is_new_period ts.cur_period s) ts.cur_period.tx s.tx) % 2 ^ 64
  unfolding calculate
  tx_step =
      ap (λ (n : ℕ). add64 n s.tx) (ended_tx (is_new_period ts.cur_period s) ts)
      ∙ step_sum (is_new_period ts.cur_period s) ts.prev_total_tx ts.cur_period.tx s.tx
          (λ e. (no_fall ts.cur_period s ho hs e).0)

  rx_step :
      (total_of (calculate ts s).0).rx
      ≡ ((total_of ts).rx + gain (is_new_period ts.cur_period s) ts.cur_period.rx s.rx) % 2 ^ 64
  unfolding calculate
  rx_step =
      ap (λ (n : ℕ). add64 n s.rx) (ended_rx (is_new_period ts.cur_period s) ts)
      ∙ step_sum (is_new_period ts.cur_period s) ts.prev_total_rx ts.cur_period.rx s.rx
          (λ e. (no_fall ts.cur_period s ho hs e).1)

  next_period : (calculate ts s).0.cur_period ≡ s
  unfolding calculate
  next_period = refl

add_again :
    (total old g n : ℕ)
    → total ≡ (old + g) % 2 ^ 64
    → (total + n) % 2 ^ 64 ≡ (old + (g + n)) % 2 ^ 64
add_again total old g n e = omega (arith, e)

-- After any number of calls of `Calculate` on counters that are not negative, the total that the
-- last call returned is that of the state from before the calls and what each sample reports
-- besides the one before it: the difference within a period, and the whole counter where a new
-- period was seen; all modulo 2 ^ 64.
pub last_total-gains :
    (ts : TotalStatCalc) (samples : List Stat)
    → IsCount ts.cur_period
    → AreCounts samples
    → ((last_total (total_of ts) ts samples).tx
        ≡ ((total_of ts).tx + tx_gains ts.cur_period samples) % 2 ^ 64)
      × ((last_total (total_of ts) ts samples).rx
          ≡ ((total_of ts).rx + rx_gains ts.cur_period samples) % 2 ^ 64)
unfolding calculate
last_total-gains ts [] ho hs = (omega arith, omega arith)
last_total-gains ts (s ∷ samples) ho (hs, rest) =
    let (et, er) = last_total-gains (calculate ts s).0 samples hs rest in
    (
      et ∙ add_again _ (total_of ts).tx _ (tx_gains s samples) (tx_step ts s ho hs),
      er ∙ add_again _ (total_of ts).rx _ (rx_gains s samples) (rx_step ts s ho hs),
    )
