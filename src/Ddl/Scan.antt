-- ===== src/Ddl/Scan.antt =====
-- The regular expressions of scripts/ddl/ddl_parser.py, as scanners of a text. Letters, digits and
-- words are those of ASCII.
use urban_ops_intelligence_p.Prelude.{
  ℕ, zero, suc, Bool, true, false, ◌||◌, ◌&&◌, Option, none, some, [], ◌∷◌, ◌==◌, leb,
  if◌then◌else◌, Text, is_empty, length, drop,
}
use urban_ops_intelligence_p.Config.{is_space}
use urban_ops_intelligence_p.Strings.{starts_with}

abbrev pub is_digit : ℕ → Bool
is_digit c = leb b'0' c && leb c b'9'

abbrev pub is_upper : ℕ → Bool
is_upper c = leb b'A' c && leb c b'Z'

-- `\w`
abbrev pub is_word : ℕ → Bool
is_word c = is_upper c || (leb b'a' c && leb c b'z') || is_digit c || (c == b'_')

-- The longest beginning of characters that pass, and what is left.
abbrev pub span : (ℕ → Bool) → Text → Text × Text
span p [] = ([], [])
span p (c ∷ t) = let rest = span p t in if p c then (c ∷ rest.0, rest.1) else ([], c ∷ t)

-- `t.index(s)`
abbrev pub index_of : Text → Text → Option ℕ
index_of s [] = if is_empty s then some 0 else none
index_of s (c ∷ t) = here (starts_with s (c ∷ t)) (index_of s t)
  where
    here : Bool → Option ℕ → Option ℕ
    here true later = some 0
    here false none = none
    here false (some n) = some (suc n)

-- `s` and then what follows
abbrev pub after : Text → Text → Option Text
after s t = if starts_with s t then some (drop (length s) t) else none

-- `s?`, for one character
abbrev pub after_optional : ℕ → Text → Text
after_optional c [] = []
after_optional c (d ∷ t) = if c == d then t else d ∷ t

-- `^\s{n}`
abbrev pub after_spaces : ℕ → Text → Option Text
after_spaces zero t = some t
after_spaces (suc n) [] = none
after_spaces (suc n) (c ∷ t) = let rest = after_spaces n t in if is_space c then rest else none

abbrev pub and_then : Option Text → (Text → Option Text) → Option Text
and_then none f = none
and_then (some t) f = f t

abbrev skip : Text → Text
skip t = (span is_space t).1

-- `name\s*=\s*opening`, and what follows
abbrev pub assigned : Text → Text → Text → Option Text
assigned name opening t =
    and_then (after name t)
      (λ u. and_then (after (b'=' ∷ []) (skip u)) (λ v. after opening (skip v)))

-- What stands before the first `c`, of a text that has one.
abbrev pub until : ℕ → Text → Option Text
until c [] = none
until c (d ∷ t) = more (d == c) (until c t)
  where
    more : Bool → Option Text → Option Text
    more true later = some []
    more false none = none
    more false (some u) = some (d ∷ u)

-- The first place of a text where a scanner succeeds.
abbrev pub search_in : {A : Type 0} → (Text → Option A) → Text → Option A
search_in f [] = f []
search_in f (c ∷ t) = or_later (f (c ∷ t)) (search_in f t)
  where
    or_later : {A : Type 0} → Option A → Option A → Option A
    or_later none later = later
    or_later (some a) later = some a
