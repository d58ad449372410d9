-- ===== src/BronzeAudit/Shards/Repeats.antt =====
-- scripts/profiling/bronze_duplicate_scan.py: what the counts of a shard's report say.
use urban_ops_intelligence_p.Prelude.{
  ℕ, suc, ◌+◌, ◌-◌, ◌≤◌, ◌≡◌, refl, Bool, true, false, ◌||◌, none, some, List, [], ◌∷◌, ltb,
  if◌then◌else◌, Text, any, length, ap, All, ok, ◌>>=◌, bind-ok, arith, Bool-cases, inl, inr,
}
use urban_ops_intelligence_p.Records.{Value}
use urban_ops_intelligence_p.Platform.{Platform}
use urban_ops_intelligence_p.BronzeAudit.{Reader, shard_lines}
use urban_ops_intelligence_p.BronzeAudit.Shards.{
  Key, key_eq, Entry, tallied, tally, sum_by, repeated_entries, ShardReport, is_dirty, keyed,
  scan_shard, report_of, hashed, key_of,
}

abbrev pub IsTransitive : (Value → Value → Bool) → Type 0
IsTransitive same = (u v w : Value) → same u v ≡ true → same v w ≡ true → same u w ≡ true

module _ (same : Value → Value → Bool) where
  abbrev has : Key → List Entry → Bool
  has k es = any (λ e. key_eq same e.key k) es

  -- Some key is equal to one that comes later.
  abbrev pub repeated : List (Key × Text) → Bool
  repeated [] = false
  repeated ((k, line) ∷ rows) = any (λ r. key_eq same k r.0) rows || repeated rows

  abbrev meets : List Entry → List (Key × Text) → Bool
  meets es rows = any (λ r. has r.0 es) rows

  abbrev total : List Entry → ℕ
  total = sum_by (λ e. e.count)

  key_eq_trans :
      (t : IsTransitive same) (i j k : Key)
      → key_eq same i j ≡ true
      → key_eq same j k ≡ true
      → key_eq same i k ≡ true
  key_eq_trans t [] [] [] g h = refl
  key_eq_trans t [] [] (w ∷ k) g h = cc
  key_eq_trans t [] (v ∷ j) k g h = cc
  key_eq_trans t (u ∷ i) [] k g h = cc
  key_eq_trans t (u ∷ i) (v ∷ j) [] g h = cc
  key_eq_trans t (none ∷ i) (none ∷ j) (none ∷ k) g h = key_eq_trans t i j k g h
  key_eq_trans t (none ∷ i) (none ∷ j) (some w ∷ k) g h = cc
  key_eq_trans t (none ∷ i) (some v ∷ j) (w ∷ k) g h = cc
  key_eq_trans t (some u ∷ i) (none ∷ j) (w ∷ k) g h = cc
  key_eq_trans t (some u ∷ i) (some v ∷ j) (none ∷ k) g h = cc
  key_eq_trans t (some u ∷ i) (some v ∷ j) (some w ∷ k) g h =
      ground (arith, t u v w, key_eq_trans t i j k)

  length-tallied :
      (k : Key) (line : Text) (es : List Entry)
      → length (tallied same k line es) ≡ (if has k es then length es else suc (length es))
  unfolding tallied
  length-tallied k line [] = refl
  length-tallied k line (e ∷ es) = ground (arith, length-tallied k line es)

  has-tallied :
      (t : IsTransitive same) (j k : Key) (line : Text) (es : List Entry)
      → has j (tallied same k line es) ≡ (has j es || key_eq same k j)
  unfolding tallied
  has-tallied t j k line [] = ground arith
  has-tallied t j k line (e ∷ es) = elim (Bool-cases (key_eq same e.key k)) [
    | inl equal ↦ rw equal (ground (arith, key_eq_trans t e.key k j))
    | inr differ ↦ rw differ (ground (arith, has-tallied t j k line es))
  ]

  total-tallied :
      (k : Key) (line : Text) (es : List Entry) → total (tallied same k line es) ≡ suc (total es)
  unfolding tallied
  total-tallied k line [] = omega arith
  total-tallied k line (e ∷ es) = ground (arith, total-tallied k line es)

  total-tally :
      (es : List Entry) (rows : List (Key × Text))
      → total (tally same es rows) ≡ total es + length rows
  unfolding tally
  total-tally es [] = omega arith
  total-tally es ((k, line) ∷ rows) =
      omega (arith, total-tally (tallied same k line es) rows, total-tallied k line es)

  -- Every entry has been counted.
  abbrev Positive : List Entry → Type 0
  Positive es = All (λ e. 1 ≤ e.count) es

  tallied-Positive :
      (k : Key) (line : Text) (es : List Entry) → Positive es → Positive (tallied same k line es)
  unfolding tallied
  tallied-Positive k line [] h = omega arith
  tallied-Positive k line (e ∷ es) h = ground (arith, tallied-Positive k line es)

  tally-Positive :
      (es : List Entry) (rows : List (Key × Text)) → Positive es → Positive (tally same es rows)
  unfolding tally
  tally-Positive es [] h = h
  tally-Positive es ((k, line) ∷ rows) h =
      tally-Positive (tallied same k line es) rows (tallied-Positive k line es h)

  -- What is counted beyond the first of each key.
  excess-total :
      (es : List Entry)
      → Positive es
      → sum_by (λ e. e.count - 1) (repeated_entries es) + length es ≡ total es
  excess-total [] h = omega arith
  excess-total (e ∷ es) h = ground (arith, excess-total es)

  meets-tallied :
      (t : IsTransitive same) (k : Key) (line : Text) (es : List Entry) (rows : List (Key × Text))
      → meets (tallied same k line es) rows ≡ (meets es rows || any (λ r. key_eq same k r.0) rows)
  meets-tallied t k line es [] = refl
  meets-tallied t k line es (r ∷ rows) =
      ground (arith, meets-tallied t k line es rows, has-tallied t r.0 k line es)

  length-tally-le :
      (es : List Entry) (rows : List (Key × Text))
      → length (tally same es rows) ≤ length es + length rows
  unfolding tally
  length-tally-le es [] = omega arith
  length-tally-le es ((k, line) ∷ rows) =
      ground (arith, length-tally-le (tallied same k line es) rows, length-tallied k line es)

  -- Fewer entries than keys exactly if some key had an entry before.
  length-tally :
      (t : IsTransitive same) (es : List Entry) (rows : List (Key × Text))
      → ltb (length (tally same es rows)) (length es + length rows)
        ≡ (meets es rows || repeated rows)
  unfolding tally
  length-tally t es [] = ground arith
  length-tally t es ((k, line) ∷ rows) = ground (
    arith,
    length-tally t (tallied same k line es) rows,
    length-tallied k line es,
    length-tally-le (tallied same k line es) rows,
    meets-tallied t k line es rows,
  )

  meets-nil : (rows : List (Key × Text)) → meets [] rows ≡ false
  meets-nil [] = refl
  meets-nil (r ∷ rows) = meets-nil rows

module _ (P : Platform) (R : Reader P) where
  length-keyed :
      (fields lines : List Text) (rows : List (Key × Text))
      → keyed P R fields lines ≡ ok rows
      → length rows ≡ length lines
  unfolding keyed
  length-keyed fields [] rows h = let e : [] ≡ rows = cc in rw (← e) refl
  length-keyed fields (line ∷ lines) rows h =
      let (r, e, h1) = bind-ok (R.loads line) _ rows h in
      let (k, e1, h2) =
        bind-ok (hashed P R (key_of fields r))
          (λ k. keyed P R fields lines >>= λ later. ok ((k, line) ∷ later)) rows h1 in
      let (later, e2, h3) = bind-ok (keyed P R fields lines) _ rows h2 in
      let same : (k, line) ∷ later ≡ rows = cc in
      rw (← same) (ap suc (length-keyed fields lines later e2))

  -- The report of a shard whose lines have these keys: its rows are its lines, each is the first of its key or one in excess, and the shard is dirty exactly if two lines have equal keys.
  pub scan_shard-repeated :
      (t : IsTransitive R.same) (key : Text) (fields lines : List Text) (rows : List (Key × Text))
      (s : P.State)
      → shard_lines P R key s ≡ ok lines
      → keyed P R fields lines ≡ ok rows
      → (report : ShardReport) × (scan_shard P R key fields s ≡ ok report)
        × (report.total_rows ≡ length lines)
        × (report.excess_rows + report.distinct_keys ≡ report.total_rows)
        × (is_dirty report ≡ repeated R.same rows)
  unfolding scan_shard
  scan_shard-repeated t key fields lines rows s read keys =
      let es = tally R.same [] rows in
      let split = excess-total R.same es (tally-Positive R.same [] rows tt) in
      let all = total-tally R.same [] rows in
      (
        report_of key rows es,
        rw read (rw keys refl),
        length-keyed fields lines rows keys,
        omega (arith, split, all),
        ground (arith, split, all, length-tally R.same t [] rows, meets-nil R.same rows),
      )
