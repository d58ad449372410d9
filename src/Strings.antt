-- ===== src/Strings.antt =====
-- What the scripts use of Python's `str`: `strip`, `in`, `split` and `join`.
pub mod Pieces
pub mod Lines
pub mod Sorting
use urban_ops_intelligence_p.Prelude.{
  ℕ, zero, suc, ◌+◌, ◌-◌, ◌/◌, ◌%◌, ltb, Bool, true, false, ◌||◌, ◌&&◌, List, [], ◌∷◌, ◌++◌, ◌==◌,
  leb, map, length, if◌then◌else◌, Text,
}
use urban_ops_intelligence_p.Config.{is_space}

abbrev pub strip_left : Text → Text
strip_left [] = []
strip_left (c ∷ t) = let rest = strip_left t in if is_space c then rest else c ∷ t

-- The end, without the space after it.
abbrev pub strip_right : Text → Text
strip_right [] = []
strip_right (c ∷ t) = keep_end c (strip_right t)
  where
    keep_end : ℕ → Text → Text
    keep_end c [] = if is_space c then [] else c ∷ []
    keep_end c (d ∷ u) = c ∷ d ∷ u

-- `t.strip()`
unfoldable pub strip : Text → Text
strip t = strip_left (strip_right t)

abbrev pub starts_with : Text → Text → Bool
starts_with [] t = true
starts_with (c ∷ s) [] = false
starts_with (c ∷ s) (d ∷ t) = c == d && starts_with s t

-- `s in t`
unfoldable pub contains : Text → Text → Bool
contains s [] = starts_with s []
contains s (c ∷ t) = starts_with s (c ∷ t) || contains s t

-- `t.rstrip(c)`, for one character
abbrev pub strip_end : ℕ → Text → Text
strip_end c [] = []
strip_end c (d ∷ t) = kept (strip_end c t)
  where
    kept : Text → Text
    kept [] = if d == c then [] else d ∷ []
    kept (e ∷ u) = d ∷ e ∷ u

-- The letters of ASCII: `t.upper()` and `t.lower()` of such a text.
abbrev pub upper : Text → Text
upper t = map (λ c. if leb 97 c && leb c 122 then c - 32 else c) t

abbrev pub lower : Text → Text
lower t = map (λ c. if leb 65 c && leb c 90 then c + 32 else c) t

-- `t.split(c)`, for one character
abbrev pub onto : ℕ → List Text → List Text
onto c [] = (c ∷ []) ∷ []
onto c (piece ∷ pieces) = (c ∷ piece) ∷ pieces

unfoldable pub split : ℕ → Text → List Text
split sep [] = [] ∷ []
split sep (c ∷ t) = let pieces = split sep t in if c == sep then [] ∷ pieces else onto c pieces

-- `s.join(pieces)`
abbrev pub join : Text → List Text → Text
join s [] = []
join s (piece ∷ []) = piece
join s (piece ∷ next ∷ pieces) = piece ++ (s ++ join s (next ∷ pieces))

-- `t.replace(old, new)` for a text `old` of at least one character; the number is what is still
-- to be passed over of an occurrence.
abbrev replaced : Text → Text → ℕ → Text → Text
replaced old new skip [] = []
replaced old new (suc skip) (c ∷ t) = replaced old new skip t
replaced old new zero (c ∷ t) =
    let after = replaced old new (length old - 1) t in
    let next = replaced old new 0 t in if starts_with old (c ∷ t) then new ++ after else c ∷ next

unfoldable pub replace : Text → Text → Text → Text
replace old new t = replaced old new 0 t

-- `str(n)`: a number has fewer digits than it counts and one.
abbrev digits : ℕ → ℕ → Text → Text
digits zero n rest = rest
digits (suc fuel) n rest =
    if ltb n 10 then (48 + n) ∷ rest else digits fuel (n / 10) ((48 + n % 10) ∷ rest)

unfoldable pub decimal : ℕ → Text
decimal n = digits (suc n) n []
