-- ===== src/Gold/Gates.antt =====
-- scripts/gold/gates.py: the gates that the header of a DDL file states.
pub mod Lines
use urban_ops_intelligence_p.Prelude.{
  ℕ, ◌+◌, ◌*◌, ◌-◌, Bool, true, false, not, ◌&&◌, ◌||◌, Option, none, some, List, [], ◌∷◌, ◌++◌,
  ◌==◌, leb, if◌then◌else◌, Text, codes, is_empty, any, drop, keep, invalid_int, Result, ok, err,
  ◌>>=◌,
}
use urban_ops_intelligence_p.Config.{is_space}
use urban_ops_intelligence_p.Strings.{strip, starts_with, lower, upper}
use urban_ops_intelligence_p.Strings.Lines.{split_lines}
use urban_ops_intelligence_p.Ddl.Scan.{is_digit, span, after, and_then, until}

-- A gate of the header: the line, its predicate, and the number of rows.
pub record Gate : Type 0 where
  pub source_text : Text
  pub predicate : Option Text
  pub expected : ℕ

-- `if self.predicate`
abbrev where_part : Option Text → Text
where_part none = []
where_part (some p) = if is_empty p then [] else codes " WHERE " ++ p

-- `Gate.sql`
unfoldable pub sql : Gate → Text → Text
sql gate table = codes "SELECT COUNT(*) FROM " ++ (table ++ where_part gate.predicate)

-- `[\d,]`
abbrev pub is_figure : ℕ → Bool
is_figure c = is_digit c || (c == b',')

abbrev pub figures : Option Text → Option Text
figures none = none
figures (some t) =
    let n = (span is_space t).1 in
    if not (is_empty n) && not (any (λ c. not (is_figure c)) n) then some n else none

-- `\s*=\s*(?P<n>[\d,]+)$`
abbrev pub tail : Text → Option Text
tail t = figures (after (b'=' ∷ []) (span is_space t).1)

abbrev pub with_predicate :
    Text → Option Text → Option (Option Text × Text) → Option (Option Text × Text)
with_predicate p (some n) later = some (some p, n)
with_predicate p none later = later

-- `(?P<pred>.+?)` and the tail: the shortest predicate that has one behind it. `p` is what it begins with.
unfoldable pub predicate_from : Text → Text → Option (Option Text × Text)
predicate_from p [] = none
predicate_from p (c ∷ t) =
    let later = predicate_from (p ++ c ∷ []) t in with_predicate (p ++ c ∷ []) (tail t) later

abbrev or_else :
    Option (Option Text × Text) → Option (Option Text × Text) → Option (Option Text × Text)
or_else none later = later
or_else (some m) later = some m

-- `\s+` and the predicate: as much space as can be.
unfoldable pub spaces_then : Text → Option (Option Text × Text)
spaces_then [] = none
spaces_then (c ∷ t) =
    let later = spaces_then t in if is_space c then or_else later (predicate_from [] t) else none

abbrev after_word : Text → Text → Option Text
after_word word t = if starts_with word (upper t) then after_length word t else none
  where
    after_length : Text → Text → Option Text
    after_length [] t = some t
    after_length (c ∷ w) [] = none
    after_length (c ∷ w) (d ∷ t) = after_length w t

abbrev plain : Option Text → Option (Option Text × Text)
plain none = none
plain (some n) = some (none, n)

abbrev conditional : Option Text → Option (Option Text × Text)
conditional none = none
conditional (some t) = spaces_then t

-- `_COUNT_GATE.match(body)`: the predicate and the figures, without regard to case
unfoldable pub match_gate : Text → Option (Option Text × Text)
match_gate body = counted (after_word (codes "COUNT(*)") body)
  where
    counted : Option Text → Option (Option Text × Text)
    counted none = none
    counted (some t) =
        or_else (conditional (after_word (codes "WHERE") (span is_space t).1)) (plain (tail t))

-- `int(n)`, of digits
abbrev pub value_of : ℕ → Text → ℕ
value_of n [] = n
value_of n (c ∷ t) = value_of (n * 10 + (c - b'0')) t

abbrev pub number_of : Text → Result ℕ
number_of n = if is_empty n then err invalid_int else ok (value_of 0 n)

-- `int(n.replace(",", ""))`
abbrev pub without_commas : Text → Text
without_commas n = keep (λ c. not (c == b',')) n

abbrev key_char : ℕ → Bool
key_char c = (leb b'a' c && leb c b'z') || (c == b'_')

-- `^[a-z_]+ ?\([^)]*\):|^[a-z_]+:`
abbrev is_header : Text → Bool
is_header body = named (span key_char body)
  where
    closed : Option Text → Text → Bool
    closed none t = false
    closed (some group) t = starts_with (codes "):") (drop_group group t)
      where
        drop_group : Text → Text → Text
        drop_group [] t = t
        drop_group (c ∷ g) [] = []
        drop_group (c ∷ g) (d ∷ t) = drop_group g t

    opened : Option Text → Bool
    opened none = false
    opened (some t) = closed (until b')' t) t

    unspaced : Text → Text
    unspaced [] = []
    unspaced (c ∷ t) = if c == b' ' then t else c ∷ t

    named : Text × Text → Bool
    named (key, t) =
        not (is_empty key) && (starts_with (codes ":") t || opened (after (codes "(") (unspaced t)))

-- The line ends the block: it is no comment, it is blank, or it is a new key.
abbrev pub ends_block : Text → Bool
ends_block stripped =
    let body = strip (drop 2 stripped) in
    not (starts_with (codes "--") stripped)
    || is_empty body
    || (is_header body && not (starts_with (codes "COUNT(") (upper body)))

abbrev pub Parsed : Type 0
Parsed = List Gate × List Text

abbrev pub with_line : Text → Option (Option Text × Text) → Result Parsed → Result Parsed
with_line body none rest = rest >>= λ (gates, notes). ok (gates, body ∷ notes)
with_line body (some (p, n)) rest = number_of (without_commas n) >>= λ k. rest >>= λ (gates, notes).
    ok (record { source_text = body; predicate = p; expected = k } ∷ gates, notes)

-- The loop over the lines of the block.
unfoldable pub block : List Text → Result Parsed
block [] = ok ([], [])
block (line ∷ lines) =
    let rest = block lines in
    let body = strip (drop 2 (strip line)) in
    if ends_block (strip line) then ok ([], []) else with_line body (match_gate body) rest

abbrev pub starts_block : Text → Bool
starts_block line = starts_with (codes "-- relationships:") (lower (strip line))

-- The lines behind the first that starts the block.
abbrev pub block_of : List Text → List Text
block_of [] = []
block_of (line ∷ lines) = let rest = block_of lines in if starts_block line then lines else rest

-- `parse_gates`
unfoldable pub parse_gates : Text → Result (List Gate × List Text)
parse_gates ddl_text = block (block_of (split_lines ddl_text))
