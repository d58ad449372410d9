-- ===== src/Prelude/Outcome.antt =====
-- Exceptions as values. A message is modelled by the values that its text is built from.
use Prim.Native.Nat.{ℕ}
use mathlib.Core.Path.{◌≡◌, refl}
use mathlib.Core.Bool.{Bool, true, false}
use mathlib.Core.List.{List, [], ◌∷◌, ◌++◌}
use urban_ops_intelligence_p.Prelude.Texts.{Text}

-- The phase that a `BackfillError` names.
pub data Phase : Type 0 where
  fetch upload : Phase

-- One constructor for each `raise` of the program, and one for what its libraries raise.
pub data Exception : Type 0 where
  -- `ValueError`
  unknown_dataset : Text → List Text → Exception
  no_dataset_with_strategy : Exception
  no_snapshot_dataset : Exception
  not_first_of_month : Exception
  static_not_windowed : Exception
  missing_resource : Text → Exception
  missing_timestamp_field : Text → Exception
  missing_endpoint : Text → Exception
  blank_domain : Exception
  past_days_too_large : ℕ → Exception
  forecast_days_too_large : ℕ → Exception
  invalid_int : Exception
  not_snapshot_api : Text → Exception
  timestamp_field_not_configured : Exception
  invalid_date_text : Exception
  invalid_config : List Text → Exception
  -- `AttributeError`, of `raw.replace` on what is no text
  attribute_error : Exception
  -- `SnapshotTooSmallError`
  snapshot_too_small : ℕ → ℕ → Exception
  -- `BackfillError`
  snapshot_leaked : Text → List Text → Exception
  fetch_failed : Text → Text → Exception → Exception
  upload_failed : Text → Text → Exception → Exception
  all_failed : Phase → Text → ℕ → Exception → Exception
  -- `SocrataFetchError`, and the two errors that wrap it
  failed_after_attempts : ℕ → Exception → Exception
  unexpected_after_retries : ℕ → Exception
  socrata_fetch_failed : Text → Exception → Exception
  snapshot_fetch_error : Text → Exception → Exception
  snapshot_collection_error : Text → ℕ → ℕ → List Text → Exception
  -- `requests.RequestException`, and what the object store's client raises
  request_exception : ℕ → Exception
  client_error : ℕ → Exception
  -- `ConfigLoadError`
  corrupt_yaml : Text → Exception
  not_a_mapping : Text → Exception
  validation_failed : Text → Exception
  duplicate_source : Text → Text → Exception
  source_not_found : Text → List Text → Exception
  -- `DqRuleError`, with the rule and the field or the value at fault; `float(v)` of what is none
  dq_rule_error : Text → Text → Exception
  not_a_number : Exception
  -- of the Gold build: `ValueError`, then `SystemExit`, then `IndexError`
  table_order : Text → List Text → Exception
  no_literal : Text → Text → Exception
  delimiter_in_seed : Text → Exception
  seed_mismatch : Text → ℕ → Exception
  stale_rows : Text → ℕ → Exception
  no_select_file : Text → Exception
  unknown_version : Text → Exception
  several_versions : List Text → Exception
  no_artefact : Exception
  index_error : Exception
  -- of the audits of the Bronze layer: `ValueError`, then `SystemExit`, then `TypeError`, of a key that is a list or
  -- a dictionary
  dataset_missing : Text → Text → Exception
  not_reconcilable : Text → Exception
  unhashable_key : Exception
  -- of the DDL tools: `ValueError`, then `TrinoConfigError`, then `AssertionError`
  substring_missing : Text → Exception
  no_layer : Text → Exception
  no_smoke_literal : Text → Exception
  purge_refused : Exception
  trino_config_error : Text → Exception
  read_back : ℕ → Exception
  -- of the readers of the Bronze layer: `ValueError`
  no_bronze_month : Text → Text → Exception
  -- a loop of the model had too little fuel
  out_of_fuel : Exception

pub data Result {ℓ} (A : Type ℓ) : Type ℓ where
  ok : A → Result A
  err : Exception → Result A

infixl 5 ◌>>=◌
abbrev pub ◌>>=◌ {ℓ κ} : {A : Type ℓ} {B : Type κ} → Result A → (A → Result B) → Result B
ok a >>= f = f a
err e >>= f = err e

-- A chain that returns has passed its first step.
pub bind-ok {ℓ κ} :
    {A : Type ℓ} {B : Type κ} (x : Result A) (f : A → Result B) (b : B)
    → (x >>= f) ≡ ok b
    → (a : A) × (x ≡ ok a) × (f a ≡ ok b)
bind-ok (ok a) f b h = (a, refl, h)
bind-ok (err e) f b h = cc

-- Two checks in a row pass when each does.
pub both_ok : (m n : Result (Unit {0})) → (m >>= λ _. n) ≡ ok tt → (m ≡ ok tt) × (n ≡ ok tt)
both_ok (ok t) n h = (refl, h)
both_ok (err e) n h = cc

-- `isinstance(e, BackfillError)`
abbrev pub is_backfill_error : Exception → Bool
is_backfill_error (snapshot_leaked s ds) = true
is_backfill_error (fetch_failed s d e) = true
is_backfill_error (upload_failed s d e) = true
is_backfill_error (all_failed p s n e) = true
is_backfill_error _ = false

-- `isinstance(e, ValueError)`; `ConfigLoadError` is one.
abbrev pub is_value_error : Exception → Bool
is_value_error (unknown_dataset n ns) = true
is_value_error no_dataset_with_strategy = true
is_value_error no_snapshot_dataset = true
is_value_error not_first_of_month = true
is_value_error static_not_windowed = true
is_value_error (missing_resource n) = true
is_value_error (missing_timestamp_field n) = true
is_value_error (missing_endpoint n) = true
is_value_error blank_domain = true
is_value_error (past_days_too_large n) = true
is_value_error (forecast_days_too_large n) = true
is_value_error invalid_int = true
is_value_error (not_snapshot_api n) = true
is_value_error timestamp_field_not_configured = true
is_value_error invalid_date_text = true
is_value_error (invalid_config fs) = true
is_value_error (corrupt_yaml f) = true
is_value_error (not_a_mapping f) = true
is_value_error (validation_failed f) = true
is_value_error (duplicate_source i f) = true
is_value_error (source_not_found i is) = true
is_value_error (dq_rule_error r w) = true
is_value_error not_a_number = true
is_value_error (table_order n ds) = true
is_value_error (no_literal v t) = true
is_value_error (delimiter_in_seed c) = true
is_value_error (seed_mismatch n k) = true
is_value_error (dataset_missing s d) = true
is_value_error (substring_missing t) = true
is_value_error (no_layer t) = true
is_value_error (no_smoke_literal t) = true
is_value_error purge_refused = true
is_value_error (no_bronze_month s d) = true
is_value_error _ = false

-- `isinstance(e, SystemExit)`, which `except Exception` lets through, for those that may meet one
abbrev pub is_system_exit : Exception → Bool
is_system_exit (not_reconcilable d) = true
is_system_exit _ = false

-- How a command ends: with an exit code, or in an exception that nothing catches.
pub data Ending : Type 0 where
  exits : ℕ → Ending
  crashes : Exception → Ending

-- A generator that has run: what it yields in order, and how it ends.
pub data Generator {ℓ} (A : Type ℓ) : Type ℓ where
  stop : Generator A
  raises : Exception → Generator A
  yields : A → Generator A → Generator A

module _ {ℓ} {A : Type ℓ} where
  -- `yield from xs`, and then the rest
  abbrev pub yield_from : List A → Generator A → Generator A
  yield_from [] g = g
  yield_from (x ∷ xs) g = yields x (yield_from xs g)

  -- `list(g)`
  abbrev pub list_of : Generator A → Result (List A)
  list_of stop = ok []
  list_of (raises e) = err e
  list_of (yields x g) = list_of g >>= λ xs. ok (x ∷ xs)

  -- `except`: the exception that ends the generator is replaced, what it yielded stays.
  abbrev pub catching : (Exception → Exception) → Generator A → Generator A
  catching f stop = stop
  catching f (raises e) = raises (f e)
  catching f (yields x g) = yields x (catching f g)

  pub yield_from-append :
      (xs ys : List A) (g : Generator A) → yield_from (xs ++ ys) g ≡ yield_from xs (yield_from ys g)
  yield_from-append [] ys g = refl
  yield_from-append (x ∷ xs) ys g = λ i. yields x (yield_from-append xs ys g i)

  pub list_of-yield_from : (xs : List A) → list_of (yield_from xs stop) ≡ ok xs
  list_of-yield_from [] = refl
  list_of-yield_from (x ∷ xs) = λ i. list_of-yield_from xs i >>= λ ys. ok (x ∷ ys)

  pub catching-yield_from :
      (f : Exception → Exception) (xs : List A) (g : Generator A)
      → catching f (yield_from xs g) ≡ yield_from xs (catching f g)
  catching-yield_from f [] g = refl
  catching-yield_from f (x ∷ xs) g = λ i. yields x (catching-yield_from f xs g i)
