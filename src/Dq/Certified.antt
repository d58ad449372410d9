-- ===== src/Dq/Certified.antt =====
-- scripts/dq/certify.py: what a certified run is.
use urban_ops_intelligence_p.Prelude.{
  ℕ, zero, suc, ◌<◌, ◌≡◌, refl, sym, ap, subst, ◌∙◌, ◌↔◌, Bool, true, false, Option, List, [], ◌∷◌,
  ◌++◌, Text, codes, text_eq, text_eq_refl, is_some, keep, length, All, ok, bind-ok, arith,
  Bool-cases, inl, inr,
}
use urban_ops_intelligence_p.Dq.Vocabulary.{Rule}
use urban_ops_intelligence_p.Dq.Comparators.{Numbers, evaluate}
use urban_ops_intelligence_p.Dq.Audit.{
  Measured, measured, could_not_run, Observation, logged, audit_loop, audit,
}
use urban_ops_intelligence_p.Dq.Certify.{
  Status, certified, decide, count_if, failed_at, rows_of_run, verdict_on, summarise_run,
}

keep_whole {ℓ} :
    {A : Type ℓ} (p : A → Bool) (xs : List A) → All (λ x. p x ≡ true) xs → keep p xs ≡ xs
keep_whole p [] h = refl
keep_whole p (x ∷ xs) h = rw h.0 (ap (λ rest. x ∷ rest) (keep_whole p xs h.1))

keep_none {ℓ} :
    {A : Type ℓ} (p : A → Bool) (xs ys : List A)
    → All (λ x. p x ≡ false) xs
    → keep p (xs ++ ys) ≡ keep p ys
keep_none p [] ys h = refl
keep_none p (x ∷ xs) ys h = rw h.0 (keep_none p xs ys h.1)

zero-keep {ℓ} :
    {A : Type ℓ} (p : A → Bool) (xs : List A)
    → length (keep p xs) ≡ zero
    → All (λ x. p x ≡ false) xs
zero-keep p [] h = tt
zero-keep p (x ∷ xs) h = elim (Bool-cases (p x)) [
  | inl taken ↦ let k : suc (length (keep p xs)) ≡ zero = rw taken at h in elim (impossible _ k) [ ]
  | inr left ↦ let k : length (keep p xs) ≡ zero = rw left at h in (left, zero-keep p xs k)
]
  where
    impossible : (n : ℕ) → suc n ≡ zero → ⊥
    impossible n k = omega arith

keep-zero {ℓ} :
    {A : Type ℓ} (p : A → Bool) (xs : List A)
    → All (λ x. p x ≡ false) xs
    → length (keep p xs) ≡ zero
keep-zero p [] h = refl
keep-zero p (x ∷ xs) h = rw h.0 (keep-zero p xs h.1)

decide→certified : (e w n b : ℕ) → (0 < n) → b ≡ zero → e ≡ zero → decide e w n b ≡ certified
unfolding decide
decide→certified e w n b h k l = ground arith

certified→decide : (e w n b : ℕ) → decide e w n b ≡ certified → (0 < n) × (b ≡ zero) × (e ≡ zero)
unfolding decide
certified→decide e w n b h = ground arith

-- The check ran, and if it is of the level of an error it passed.
abbrev pub Sound : {F : Type 0} → Observation F → Type 0
Sound row = (is_some row.error_text ≡ false) × (failed_at (codes "error") row ≡ false)

module _ {F : Type 0} where
  abbrev judged : List (Observation F) → Status
  judged group =
      decide (count_if (failed_at (codes "error")) group)
        (count_if (failed_at (codes "warn")) group) (length group)
        (count_if (λ row. is_some row.error_text) group)

  Sound-parts :
      (rows : List (Observation F))
      → All Sound rows
      → All (λ r. is_some r.error_text ≡ false) rows
        × All (λ r. failed_at (codes "error") r ≡ false) rows
  Sound-parts [] h = (tt, tt)
  Sound-parts (r ∷ rows) h =
      let (ran, passed) = Sound-parts rows h.1 in ((h.0.0, ran), (h.0.1, passed))

  parts-Sound :
      (rows : List (Observation F))
      → All (λ r. is_some r.error_text ≡ false) rows
      → All (λ r. failed_at (codes "error") r ≡ false) rows
      → All Sound rows
  parts-Sound [] h k = tt
  parts-Sound (r ∷ rows) h k = ((h.0, k.0), parts-Sound rows h.1 k.1)

  judged→Sound :
      (rows : List (Observation F)) → judged rows ≡ certified → (0 < length rows) × All Sound rows
  judged→Sound rows h =
      let (some_rows, ran, passed) =
        certified→decide _ (count_if (failed_at (codes "warn")) rows) _ _ h in
      (
        some_rows,
        parts-Sound rows (zero-keep (λ row. is_some row.error_text) rows ran)
            (zero-keep (failed_at (codes "error")) rows passed),
      )

  Sound→judged :
      (rows : List (Observation F)) → (0 < length rows) → All Sound rows → judged rows ≡ certified
  Sound→judged rows h sound =
      let (ran, passed) = Sound-parts rows sound in
      decide→certified _ _ _ _ h (keep-zero (λ row. is_some row.error_text) rows ran)
        (keep-zero (failed_at (codes "error")) rows passed)

  same_cadence :
      (cadence other : Text) (rows : List (Observation F))
      → other ≡ cadence
      → All (λ r. r.cadence ≡ cadence) rows
      → keep (λ r. text_eq r.cadence other) rows ≡ rows
  same_cadence cadence other [] e one = refl
  same_cadence cadence other (r ∷ rows) e one =
      let found : text_eq r.cadence other ≡ true = rw (one.0, e) (text_eq_refl cadence) in
      rw found (ap (λ rest. r ∷ rest) (same_cadence cadence other rows e one.1))

  verdict_on-judged :
      (run_id cadence : Text) (rows : List (Observation F))
      → All (λ r. r.cadence ≡ cadence) rows
      → (verdict_on run_id rows).status ≡ judged rows
  unfolding verdict_on
  verdict_on-judged run_id cadence [] one = refl
  verdict_on-judged run_id cadence (first ∷ rest) one =
      ap judged (same_cadence cadence first.cadence (first ∷ rest) one.0 one)

-- The rows that a run of the audit returns carry its id and its cadence.
abbrev pub OfRun : {F : Type 0} → Text → Text → Observation F → Type 0
OfRun run_id cadence row = (row.run_id ≡ run_id) × (row.cadence ≡ cadence)

ok_same {ℓ} : {A : Type ℓ} (a b : A) → ok a ≡ ok b → a ≡ b
ok_same a b h = cc

module _ (N : Numbers) (run_check : Rule N.F → Text → Measured N.F)
    (previous : Text → Text → Option N.F) where
  logged-OfRun :
      (run_id cadence : Text) (rule : Rule N.F) (table : Text) (m : Measured N.F)
      (row : Observation N.F)
      → logged N run_check previous run_id cadence rule table m ≡ ok row
      → OfRun run_id cadence row
  logged-OfRun run_id cadence rule table (could_not_run message) row h =
      let same = ok_same _ row h in (ap (λ r. r.run_id) (sym same), ap (λ r. r.cadence) (sym same))
  logged-OfRun run_id cadence rule table (measured observed checked failed) row h =
      let (passed, e, k) = bind-ok (evaluate N rule observed (previous rule.id table)) _ row h in
      let same = ok_same _ row k in (ap (λ r. r.run_id) (sym same), ap (λ r. r.cadence) (sym same))

  audit_loop-OfRun :
      (run_id cadence : Text) (pairs : List (Rule N.F × Text)) (rows : List (Observation N.F))
      → audit_loop N run_check previous run_id cadence pairs ≡ ok rows
      → All (OfRun run_id cadence) rows
  unfolding audit_loop
  audit_loop-OfRun run_id cadence [] rows h =
      let none : [] ≡ rows = cc in subst (All (OfRun run_id cadence)) none tt
  audit_loop-OfRun run_id cadence (pair ∷ pairs) rows h =
      let (row, e1, h1) =
        bind-ok (logged N run_check previous run_id cadence pair.0 pair.1 (run_check pair.0 pair.1))
          _ rows h in
      let (rest, e2, h2) =
        bind-ok (audit_loop N run_check previous run_id cadence pairs) _ rows h1 in
      let whole : row ∷ rest ≡ rows = cc in
      subst (All (OfRun run_id cadence)) whole (
        logged-OfRun run_id cadence pair.0 pair.1 (run_check pair.0 pair.1) row e1,
        audit_loop-OfRun run_id cadence pairs rest e2,
      )

  audit-OfRun :
      (run_id cadence : Text) (rules : List (Rule N.F)) (rows : List (Observation N.F))
      → audit N run_check previous run_id cadence rules ≡ ok rows
      → All (OfRun run_id cadence) rows
  unfolding audit
  audit-OfRun run_id cadence rules rows h = audit_loop-OfRun run_id cadence _ rows h

  OfRun-parts :
      (run_id cadence : Text) (rows : List (Observation N.F))
      → All (OfRun run_id cadence) rows
      → All (λ r. text_eq r.run_id run_id ≡ true) rows × All (λ r. r.cadence ≡ cadence) rows
  OfRun-parts run_id cadence [] h = (tt, tt)
  OfRun-parts run_id cadence (r ∷ rows) h =
      let (ids, cadences) = OfRun-parts run_id cadence rows h.1 in
      ((rw h.0.0 (text_eq_refl run_id), ids), (h.0.1, cadences))

  -- After a run of the audit that returns, its rows appended to a log that has none of its id, the verdict of the run is `certified` exactly if it has at least one row, every check could run, and every check of the level of an error passed.
  pub audit-certified :
      (run_id cadence : Text) (rules : List (Rule N.F)) (log rows : List (Observation N.F))
      → audit N run_check previous run_id cadence rules ≡ ok rows
      → All (λ r. text_eq r.run_id run_id ≡ false) log
      → ((summarise_run run_id (log ++ rows)).status ≡ certified)
        ↔ ((0 < length rows) × All Sound rows)
  unfolding summarise_run
  audit-certified run_id cadence rules log rows h others =
      let (ids, one) = OfRun-parts run_id cadence rows (audit-OfRun run_id cadence rules rows h) in
      let own : rows_of_run run_id (log ++ rows) ≡ rows =
        keep_none (λ r. text_eq r.run_id run_id) log rows others
        ∙ keep_whole (λ r. text_eq r.run_id run_id) rows ids in
      let status : (verdict_on run_id (rows_of_run run_id (log ++ rows))).status ≡ judged rows =
        ap (λ rs. (verdict_on run_id rs).status) own ∙ verdict_on-judged run_id cadence rows one in
      (λ e. judged→Sound rows (sym status ∙ e), λ (n, sound). status ∙ Sound→judged rows n sound)
