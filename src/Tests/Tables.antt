-- ===== src/Tests/Tables.antt =====
-- Declared columns, and a bucket that is a list of keys, on which a teardown runs.
use urban_ops_intelligence_p.Prelude.{
  ℕ, ◌≡◌, refl, ap, sym, ◌∙◌, Bool, true, false, not, ◌&&◌, ◌||◌, Option, none, some, List, [], ◌∷◌,
  ◌++◌, Text, codes, text_eq, text_eq→eq, is_empty, any, keep, map, All, ok, arith,
}
use urban_ops_intelligence_p.Strings.{starts_with, split, strip, replace}
use urban_ops_intelligence_p.Strings.Lines.{split_lines}
use urban_ops_intelligence_p.Gold.Selects.{normalise_prefix, schema_name}
use urban_ops_intelligence_p.Gold.Gates.{block, block_of}
use urban_ops_intelligence_p.Gold.Gates.Lines.{
  Condition, Stated, IsStated, declared, comment_line, block-comment_line,
}
use urban_ops_intelligence_p.Ddl.Scan.{is_digit}
use urban_ops_intelligence_p.Ddl.Parser.{columns_from, match_column, index, parse_ddl, layer}
use urban_ops_intelligence_p.Ddl.Apply.{load_trino_settings}
use urban_ops_intelligence_p.Ddl.Parser.Columns.{all_lines, columns_from-all_lines}
use urban_ops_intelligence_p.Ddl.Parser.Lines.{Declared, IsDeclared, declared_column}
use urban_ops_intelligence_p.Ddl.Commands.{
  Cluster, Arguments, teardown, main, cmd_teardown, tables_by_layer, load_tables, grouped_from,
  drop_layers, for_tables, purge_storage, purge_pages,
}
use urban_ops_intelligence_p.Ddl.Commands.Laws.{IsCluster, DeletesAll}
use urban_ops_intelligence_p.Ddl.Commands.Teardown.{main-others_kept, main-purged}

-- `label_type VARCHAR,` behind `-- not_null` and another comment, and `"built" TIMESTAMP(6)` as the
-- last column, without a comma.
abbrev label_type : Declared
label_type = record {
  first = b'l';
  more = codes "abel_type";
  in_quotes = false;
  letter = b'V';
  letters = codes "ARCHAR";
  size = none;
  comma = true;
  before = [];
  required = true;
  after = codes "    -- accepted_values: ['ward', 'neighbourhood']" ∷ [];
}

abbrev built : Declared
built = record {
  first = b'b';
  more = codes "uilt";
  in_quotes = true;
  letter = b'T';
  letters = codes "IMESTAMP";
  size = some (codes "6");
  comma = false;
  before = codes "    -- when the row was built" ∷ [];
  required = false;
  after = [];
}

label_type-IsDeclared : IsDeclared label_type
unfolding strip
label_type-IsDeclared = record {
  name_is_word = (refl, (refl, (refl, (refl, (refl, (refl, (refl, (refl, (refl, (refl, tt))))))))));
  type_is_upper = (refl, (refl, (refl, (refl, (refl, (refl, (refl, tt)))))));
  size_is_digits = λ n h. cc;
  before_are_notes = tt;
  after_are_notes = ((refl, refl), tt);
}

six : (n : Text) → some (codes "6") ≡ some n → All (λ c. is_digit c ≡ true) n × (is_empty n ≡ false)
six n h = let e : codes "6" ≡ n = cc in rw (sym e) ((refl, tt), refl)

built-IsDeclared : IsDeclared built
unfolding strip
built-IsDeclared = record {
  name_is_word = (refl, (refl, (refl, (refl, (refl, tt)))));
  type_is_upper = (refl, (refl, (refl, (refl, (refl, (refl, (refl, (refl, (refl, tt)))))))));
  size_is_digits = λ n h. six n h;
  before_are_notes = ((refl, refl), tt);
  after_are_notes = tt;
}

columns_from-all_lines_example :
    columns_from false ([] ∷ all_lines (label_type ∷ built ∷ []))
    ≡ map declared_column (label_type ∷ built ∷ [])
columns_from-all_lines_example =
    columns_from-all_lines (label_type ∷ built ∷ []) (label_type-IsDeclared, (built-IsDeclared, tt))

abbrev has_key : List Text → Text → Bool
has_key keys k = any (text_eq k) keys

has_key-keep :
    (p : Text → Bool) (keys : List Text) (k : Text)
    → has_key (keep p keys) k ≡ (p k && has_key keys k)
has_key-keep p [] k = ground arith
has_key-keep p (j ∷ keys) k = by_key (text_eq k j) (p j) refl refl (has_key-keep p keys k)
  where
    by_key :
        (b c : Bool)
        → text_eq k j ≡ b
        → p j ≡ c
        → has_key (keep p keys) k ≡ (p k && has_key keys k)
        → has_key (keep p (j ∷ keys)) k ≡ (p k && has_key (j ∷ keys) k)
    by_key true c e f h =
        let same : p k ≡ p j = ap p (text_eq→eq k j e) in by_pass c e f (same ∙ f) h
      where
        by_pass :
            (c : Bool)
            → text_eq k j ≡ true
            → p j ≡ c
            → p k ≡ c
            → has_key (keep p keys) k ≡ (p k && has_key keys k)
            → has_key (keep p (j ∷ keys)) k ≡ (p k && has_key (j ∷ keys) k)
        by_pass true e f g h = rw (f, e, g) refl
        by_pass false e f g h = rw (f, e, g) (rw g at h)
    by_key false true e f h = rw (f, e) h
    by_key false false e f h = rw (f, e) h

-- The bucket alone: no statement changes it, and a listing is one page.
abbrev bucket_of_keys : Cluster
bucket_of_keys = record {
  S = List Text;
  execute = λ schema sql s. (ok [], s);
  pages = λ s p. ok (keep (starts_with p) s) ∷ [];
  delete = λ keys s. (ok [], keep (λ k. not (has_key keys k)) s);
}

one_page :
    (s : List Text) (p k : Text)
    → (has_key (keep (starts_with p) s) k || false) ≡ (starts_with p k && has_key s k)
one_page s p k = or_none (has_key (keep (starts_with p) s) k) ∙ has_key-keep (starts_with p) s k
  where
    or_none : (b : Bool) → (b || false) ≡ b
    or_none true = refl
    or_none false = refl

bucket_of_keys-IsCluster : IsCluster bucket_of_keys has_key
bucket_of_keys-IsCluster = record {
  listed_under = λ s p k off. one_page s p k ∙ ap (λ b. b && has_key s k) off;
  listed = λ s p k h. one_page s p k;
  dropped = λ schema sql s k h. refl;
  deleted = λ keys failed s k h g. has_key-keep (λ k. not (has_key keys k)) s k;
  others_kept =
      λ keys s k h. has_key-keep (λ k. not (has_key keys k)) s k ∙ ap (λ b. not b && has_key s k) h;
}

bucket_of_keys-DeletesAll : DeletesAll bucket_of_keys
bucket_of_keys-DeletesAll keys failed s h = cc

-- A trial run of a table, and a production object.
abbrev trial_key : Text
trial_key = codes "trial/gold/dim_region/part-0.parquet"

abbrev production_key : Text
production_key = codes "gold/dim_region/part-0.parquet"

abbrev stored_keys : List Text
stored_keys = trial_key ∷ production_key ∷ []

abbrev trial_arguments : Arguments
trial_arguments = record {
  command = teardown;
  bucket = some (codes "city");
  location_prefix = codes "/trial/";
}

abbrev port_of : Text → Option ℕ
port_of t = some 8080

abbrev region_file : Text × Text
region_file = (
  codes "dim_region",
  codes
      "CREATE TABLE dim_region (\n    region_id VARCHAR\n)\nWITH (external_location = 's3a://{bucket}/gold/dim_region/');",
)

abbrev environment : List (Text × Text)
environment = (codes "TRINO_HOST", codes "trino") ∷ []

main-others_kept_example :
    has_key
      (main bucket_of_keys port_of (region_file ∷ []) trial_arguments environment stored_keys).1
      production_key
    ≡ has_key stored_keys production_key
unfolding normalise_prefix split strip
main-others_kept_example =
    main-others_kept bucket_of_keys has_key bucket_of_keys-IsCluster port_of (region_file ∷ [])
      trial_arguments refl environment stored_keys production_key refl

main-purged_example :
    has_key
      (main bucket_of_keys port_of (region_file ∷ []) trial_arguments environment stored_keys).1
      trial_key
    ≡ false
unfolding main normalise_prefix split strip schema_name replace cmd_teardown load_trino_settings
    tables_by_layer load_tables grouped_from drop_layers for_tables purge_storage purge_pages
    parse_ddl layer columns_from match_column index split_lines
main-purged_example =
    main-purged bucket_of_keys has_key bucket_of_keys-IsCluster port_of (region_file ∷ [])
      trial_arguments refl environment stored_keys trial_key bucket_of_keys-DeletesAll refl refl

-- `COUNT(*) = 1,298` and `COUNT(*) WHERE label_type = 'ward' = 15`
abbrev all_rows : Stated
all_rows = record { condition = none; figure = b'1'; more = codes ",298" }

abbrev ward : Condition
ward = record { first = b'l'; middle = codes "abel_type = 'ward"; last = b'\'' }

abbrev ward_rows : Stated
ward_rows = record { condition = some ward; figure = b'1'; more = codes "5" }

all_rows-IsStated : IsStated all_rows
all_rows-IsStated = record { condition_is_trimmed = tt; has_figures = refl; has_digit = refl }

ward_rows-IsStated : IsStated ward_rows
ward_rows-IsStated = record {
  condition_is_trimmed = record { first_is_no_space = refl; last_is_no_space = refl };
  has_figures = refl;
  has_digit = refl;
}

block-comment_line_example :
    block (
      block_of (
        (codes "-- unique: []" ∷ [])
        ++ (codes "-- relationships:"
            ∷ (map comment_line (all_rows ∷ ward_rows ∷ []) ++ ([] ∷ [])))))
    ≡ ok (map declared (all_rows ∷ ward_rows ∷ []), [])
unfolding strip
block-comment_line_example =
    block-comment_line (codes "-- unique: []" ∷ []) (all_rows ∷ ward_rows ∷ []) [] [] (refl, tt)
      (all_rows-IsStated, (ward_rows-IsStated, tt)) refl
