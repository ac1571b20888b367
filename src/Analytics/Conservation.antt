-- ===== src/Analytics/Conservation.antt =====
-- What backend/analytics/aggregator.py counts is what it stores: runs of one stream's records and
-- flushes, and the sums over the window and over the rows.
use omnitrack_ai_platform.Prelude.{ℕ, ◌+◌, ◌≡◌, true, false, List, [], ◌∷◌, arith}
use omnitrack_ai_platform.Events.{EventRecord}
use omnitrack_ai_platform.Analytics.Flush.{
  Outcome, no_session, failed, committed, Meanwhile, Tables, before_reset, flush, handle_all,
}
use omnitrack_ai_platform.Analytics.{StreamAgg, handle_event}

pub data Action : Type 0 where
  record_of : EventRecord → Action
  flush_at : ℕ → Outcome → Meanwhile → Action

unfoldable pub run : ℕ → List Action → StreamAgg → Tables → StreamAgg × Tables
unfolding handle_event flush
run stream [] a db = (a, db)
run stream (record_of r ∷ xs) a db = run stream xs (handle_event a r) db
run stream (flush_at now o w ∷ xs) a db = let r = flush stream now o w a db in run stream xs r.0 r.1

-- What a list of records adds.
unfoldable pub gains : (EventRecord → ℕ) → List EventRecord → ℕ
gains gain [] = 0
gains gain (r ∷ rs) = gain r + gains gain rs

-- What all records add that come during a flush.
abbrev pub gains_during : (EventRecord → ℕ) → Meanwhile → ℕ
gains_during gain w =
    gains gain w.after_summaries
    + gains gain w.after_zones
    + gains gain w.after_lines
    + gains gain w.in_reset

-- A quantity of the window and of the tables, what a record adds to it, and what of it a flush loses
-- where the commit succeeds.
pub record Measure : Type 0 where
  pub in_window : StreamAgg → ℕ
  pub in_tables : Tables → ℕ
  pub gain : EventRecord → ℕ
  pub lost : Meanwhile → ℕ
  pub adds : (a : StreamAgg) (r : EventRecord) → in_window (handle_event a r) ≡ in_window a + gain r
  pub commits :
      (stream now : ℕ) (w : Meanwhile) (a : StreamAgg) (db : Tables)
      → let r = flush stream now committed w a db in
        in_window r.0 + in_tables r.1 + lost w ≡ in_window a + in_tables db + gains_during gain w

-- No commit of the run fails: every flush either finds no session or is stored.
abbrev pub IsStored : List Action → Type 0
IsStored [] = Unit {0}
IsStored (record_of r ∷ xs) = IsStored xs
IsStored (flush_at now failed w ∷ xs) = false ≡ true
IsStored (flush_at now no_session w ∷ xs) = IsStored xs
IsStored (flush_at now committed w ∷ xs) = IsStored xs

-- What the records of a run add, those that come during a flush too.
unfoldable pub total_gain : (EventRecord → ℕ) → List Action → ℕ
unfolding gains
total_gain gain [] = 0
total_gain gain (record_of r ∷ xs) = gain r + total_gain gain xs
total_gain gain (flush_at now o w ∷ xs) = gains_during gain w + total_gain gain xs

-- What the flushes of a run lose that are committed.
unfoldable pub total_lost : (Meanwhile → ℕ) → List Action → ℕ
total_lost lost [] = 0
total_lost lost (record_of r ∷ xs) = total_lost lost xs
total_lost lost (flush_at now no_session w ∷ xs) = total_lost lost xs
total_lost lost (flush_at now failed w ∷ xs) = total_lost lost xs
total_lost lost (flush_at now committed w ∷ xs) = lost w + total_lost lost xs

pub handle_all-adds :
    (in_window : StreamAgg → ℕ) (gain : EventRecord → ℕ)
    → ((a : StreamAgg) (r : EventRecord) → in_window (handle_event a r) ≡ in_window a + gain r)
    → (rs : List EventRecord) (a : StreamAgg)
    → in_window (handle_all rs a) ≡ in_window a + gains gain rs
unfolding handle_all gains
handle_all-adds in_window gain adds [] a = omega arith
handle_all-adds in_window gain adds (r ∷ rs) a =
    omega (arith, adds a r, handle_all-adds in_window gain adds rs (handle_event a r))

module _ (m : Measure) where
  -- Where no session is opened every record that comes is counted.
  no_session-adds :
      (w : Meanwhile) (a : StreamAgg)
      → m.in_window (handle_all w.in_reset (before_reset w a))
        ≡ m.in_window a + gains_during m.gain w
  unfolding before_reset
  no_session-adds w a =
      let one = handle_all w.after_summaries a in
      let two = handle_all w.after_zones one in
      let handled = handle_all-adds m.in_window m.gain m.adds in
      omega (
        arith,
        handled w.after_summaries a,
        handled w.after_zones one,
        handled w.after_lines two,
        handled w.in_reset (handle_all w.after_lines two),
      )

  no_session-flush :
      (stream now : ℕ) (w : Meanwhile) (a : StreamAgg) (db : Tables)
      → let r = flush stream now no_session w a db in
        m.in_window r.0 + m.in_tables r.1 ≡ m.in_window a + m.in_tables db + gains_during m.gain w
  unfolding flush
  no_session-flush stream now w a db = omega (arith, no_session-adds w a)

  pub run_kept :
      (stream : ℕ) (xs : List Action) (a : StreamAgg) (db : Tables)
      → IsStored xs
      → let r = run stream xs a db in
        m.in_window r.0 + m.in_tables r.1 + total_lost m.lost xs
        ≡ m.in_window a + m.in_tables db + total_gain m.gain xs
  unfolding run total_gain total_lost
  run_kept stream [] a db h = omega arith
  run_kept stream (record_of r ∷ xs) a db h =
      omega (arith, run_kept stream xs (handle_event a r) db h, m.adds a r)
  run_kept stream (flush_at now no_session w ∷ xs) a db h =
      let r = flush stream now no_session w a db in
      omega (arith, run_kept stream xs r.0 r.1 h, no_session-flush stream now w a db)
  run_kept stream (flush_at now failed w ∷ xs) a db h = absurd cc
  run_kept stream (flush_at now committed w ∷ xs) a db h =
      let r = flush stream now committed w a db in
      omega (arith, run_kept stream xs r.0 r.1 h, m.commits stream now w a db)
