-- ===== src/Gold/Gates/Lines.antt =====
-- scripts/gold/gates.py: the lines of gates are read back as the gates that they state.
use urban_ops_intelligence_p.Prelude.{
  ℕ, ◌≡◌, refl, ap, Bool, true, false, not, ◌&&◌, Option, none, some, List, [], ◌∷◌, ◌++◌, ◌==◌,
  Text, codes, is_empty, any, All, map, append_assoc, arith, Bool-cases, inl, inr, if◌then◌else◌,
  ok,
}
use urban_ops_intelligence_p.Config.{is_space}
use urban_ops_intelligence_p.Strings.{strip, strip_right}
use urban_ops_intelligence_p.Ddl.Scan.{span}
use urban_ops_intelligence_p.Gold.Gates.{
  is_figure, figures, tail, with_predicate, predicate_from, spaces_then, plain, match_gate, Gate,
  without_commas, value_of, with_line, ends_block, starts_block, block, block_of,
}

-- A condition has at least two characters, and begins and ends with no space.
pub record Condition : Type 0 where
  pub first : ℕ
  pub middle : Text
  pub last : ℕ

abbrev pub condition_text : Condition → Text
condition_text q = q.first ∷ (q.middle ++ q.last ∷ [])

pub record IsTrimmed (q : Condition) : Type 0 where
  pub first_is_no_space : is_space q.first ≡ false
  pub last_is_no_space : is_space q.last ≡ false

abbrev pub no_figure : ℕ → Bool
no_figure c = not (is_figure c)

abbrev equals : Text → Text
equals n = codes " = " ++ n

any-equals : (w n : Text) → any no_figure (w ++ equals n) ≡ true
any-equals [] n = refl
any-equals (c ∷ w) n = ground (arith, any-equals w n)

any_later : (w : Text) (e : ℕ) (n : Text) → any no_figure (w ++ (e ∷ equals n)) ≡ true
any_later [] e n = any-equals (e ∷ []) n
any_later (c ∷ w) e n = ground (arith, any_later w e n)

spaces_leave :
    (w : Text) (e : ℕ) (n : Text) → any no_figure ((span is_space (w ++ (e ∷ equals n))).1) ≡ true
spaces_leave [] e n = elim (Bool-cases (is_space e)) [
  | inl space ↦ rw space refl
  | inr other ↦ rw other (any-equals (e ∷ []) n)
]
spaces_leave (c ∷ w) e n = elim (Bool-cases (is_space c)) [
  | inl space ↦ rw space (spaces_leave w e n)
  | inr other ↦ rw other (any_later (c ∷ w) e n)
]

no_figures : (t : Text) → any no_figure ((span is_space t).1) ≡ true → figures (some t) ≡ none
no_figures t h = rw h (never (not (is_empty (span is_space t).1)))
  where
    never : (b : Bool) → (if b && false then some ((span is_space t).1) else none) ≡ none
    never true = refl
    never false = refl

figures_here :
    (d : ℕ) (n : Text) → any no_figure (d ∷ n) ≡ false → figures (some (d ∷ n)) ≡ some (d ∷ n)
figures_here d n h = let e : is_space d ≡ false = ground arith in rw (e, h) refl

tail_here :
    (d : ℕ) (n : Text) → any no_figure (d ∷ n) ≡ false → tail (equals (d ∷ n)) ≡ some (d ∷ n)
tail_here d n h = figures_here d n h

tail_other :
    (c : ℕ) (t : Text)
    → is_space c ≡ false
    → any no_figure ((span is_space t).1) ≡ true
    → tail (c ∷ t) ≡ none
tail_other c t h k = rw h (by_sign (b'=' == c))
  where
    by_sign : (b : Bool) → figures (if b && true then some t else none) ≡ none
    by_sign true = no_figures t k
    by_sign false = refl

tail_later : (v : Text) (e : ℕ) (n : Text) → is_space e ≡ false → tail (v ++ (e ∷ equals n)) ≡ none
tail_later [] e n h = tail_other e (equals n) h refl
tail_later (c ∷ v) e n h = elim (Bool-cases (is_space c)) [
  | inl space ↦ rw space (tail_later v e n h)
  | inr other ↦ tail_other c (v ++ (e ∷ equals n)) other (spaces_leave v e n)
]

predicate_step :
    (p : Text) (c : ℕ) (t : Text)
    → predicate_from p (c ∷ t)
      ≡ with_predicate (p ++ c ∷ []) (tail t) (predicate_from (p ++ c ∷ []) t)
unfolding predicate_from
predicate_step p c t = refl

predicate_here :
    (p u : Text) (e d : ℕ) (n : Text)
    → is_space e ≡ false
    → any no_figure (d ∷ n) ≡ false
    → predicate_from p (u ++ (e ∷ equals (d ∷ n))) ≡ some (some (p ++ (u ++ e ∷ [])), d ∷ n)
predicate_here p [] e d n h k = rw (predicate_step p e (equals (d ∷ n)), tail_here d n k) refl
predicate_here p (c ∷ u) e d n h k =
    rw
      (
        predicate_step p c (u ++ (e ∷ equals (d ∷ n))),
        tail_later u e (d ∷ n) h,
        predicate_here (p ++ c ∷ []) u e d n h k,
        append_assoc,
      )
      refl

-- A gate as a line states it: its condition, if it has one, and the figures of its number.
pub record Stated : Type 0 where
  pub condition : Option Condition
  pub figure : ℕ
  pub more : Text

abbrev pub number_text : Stated → Text
number_text g = g.figure ∷ g.more

abbrev condition_part : Option Condition → Text
condition_part none = []
condition_part (some q) = codes " WHERE " ++ condition_text q

abbrev pub gate_text : Stated → Text
gate_text g = codes "COUNT(*)" ++ (condition_part g.condition ++ equals (number_text g))

abbrev TrimmedOption : Option Condition → Type 0
TrimmedOption none = Unit
TrimmedOption (some q) = IsTrimmed q

pub record IsStated (g : Stated) : Type 0 where
  pub condition_is_trimmed : TrimmedOption g.condition
  pub has_figures : any no_figure (number_text g) ≡ false
  pub has_digit : is_empty (without_commas (number_text g)) ≡ false

abbrev predicate_of : Option Condition → Option Text
predicate_of none = none
predicate_of (some q) = some (condition_text q)

spaces_then_here :
    (q : Condition) (d : ℕ) (n : Text)
    → IsTrimmed q
    → any no_figure (d ∷ n) ≡ false
    → spaces_then (b' ' ∷ (condition_text q ++ equals (d ∷ n)))
      ≡ some (some (condition_text q), d ∷ n)
unfolding spaces_then
spaces_then_here q d n v k =
    rw (v.first_is_no_space, append_assoc)
      (predicate_here [] (q.first ∷ q.middle) q.last d n v.last_is_no_space k)

match_gate-gate_text :
    (g : Stated)
    → IsStated g
    → match_gate (gate_text g) ≡ some (predicate_of g.condition, number_text g)
unfolding match_gate
match_gate-gate_text g v = by_condition g.condition v.condition_is_trimmed
  where
    by_condition :
        (o : Option Condition)
        → TrimmedOption o
        → match_gate (codes "COUNT(*)" ++ (condition_part o ++ equals (number_text g)))
          ≡ some (predicate_of o, number_text g)
    by_condition none w = ap plain (tail_here g.figure g.more v.has_figures)
    by_condition (some q) w = rw (spaces_then_here q g.figure g.more w v.has_figures) refl

strip_right-figures :
    (t : Text) (d : ℕ) (n : Text)
    → any no_figure (d ∷ n) ≡ false
    → strip_right (t ++ (d ∷ n)) ≡ t ++ (d ∷ n)
strip_right-figures [] d [] h = let e : is_space d ≡ false = ground arith in rw e refl
strip_right-figures [] d (c ∷ n) h = rw (strip_right-figures [] c n (ground arith)) refl
strip_right-figures (b ∷ []) d n h = rw (strip_right-figures [] d n h) refl
strip_right-figures (b ∷ c ∷ t) d n h = rw (strip_right-figures (c ∷ t) d n h) refl

-- What stands before the figures.
front : (g : Stated) → (t : Text) × (gate_text g ≡ t ++ number_text g)
front g = (codes "COUNT(*)" ++ (condition_part g.condition ++ codes " = "), simp append_assoc)

strip_right-gate_text :
    (w : Text) (g : Stated) → IsStated g → strip_right (w ++ gate_text g) ≡ w ++ gate_text g
strip_right-gate_text w g v =
    let (t, e) = front g in
    let same : w ++ gate_text g ≡ (w ++ t) ++ number_text g = rw e (simp append_assoc) in
    rw same (strip_right-figures (w ++ t) g.figure g.more v.has_figures)

-- The line of a gate in the header.
abbrev pub comment_line : Stated → Text
comment_line g = codes "--   " ++ gate_text g

strip-comment_line : (g : Stated) → IsStated g → strip (comment_line g) ≡ comment_line g
unfolding strip
strip-comment_line g v = rw (strip_right-gate_text (codes "--   ") g v) refl

strip_body : (g : Stated) → IsStated g → strip (codes "   " ++ gate_text g) ≡ gate_text g
unfolding strip
strip_body g v = rw (strip_right-gate_text (codes "   ") g v) refl

abbrev pub declared : Stated → Gate
declared g = record {
  source_text = gate_text g;
  predicate = predicate_of g.condition;
  expected = value_of 0 (without_commas (number_text g));
}

block_step :
    (g : Stated) (lines : List Text)
    → IsStated g
    → block (comment_line g ∷ lines)
      ≡ with_line (gate_text g) (some (predicate_of g.condition, number_text g)) (block lines)
unfolding block
block_step g lines v = rw (strip-comment_line g v, strip_body g v, match_gate-gate_text g v) refl

with_line_step :
    (g : Stated) (gates : List Gate)
    → IsStated g
    → with_line (gate_text g) (some (predicate_of g.condition, number_text g)) (ok (gates, []))
      ≡ ok (declared g ∷ gates, [])
with_line_step g gates v = rw v.has_digit refl

block_end :
    (line : Text) (more : List Text)
    → ends_block (strip line) ≡ true
    → block (line ∷ more) ≡ ok ([], [])
unfolding block
block_end line more h = rw h refl

block_lines :
    (gs : List Stated) (line : Text) (more : List Text)
    → All IsStated gs
    → ends_block (strip line) ≡ true
    → block (map comment_line gs ++ (line ∷ more)) ≡ ok (map declared gs, [])
block_lines [] line more v h = block_end line more h
block_lines (g ∷ gs) line more v h =
    rw (block_step g (map comment_line gs ++ (line ∷ more)) v.0, block_lines gs line more v.1 h)
      (with_line_step g (map declared gs) v.0)

-- The gates that the block of a header states, each on a comment line, are read back: their conditions, their numbers without the commas, in their order and with no line left as prose, up to a line that ends the block.
pub block-comment_line :
    (before : List Text) (gs : List Stated) (line : Text) (more : List Text)
    → All (λ l. starts_block l ≡ false) before
    → All IsStated gs
    → ends_block (strip line) ≡ true
    → block
        (block_of (before ++ (codes "-- relationships:" ∷ (map comment_line gs ++ (line ∷ more)))))
      ≡ ok (map declared gs, [])
unfolding strip
block-comment_line [] gs line more b v h = block_lines gs line more v h
block-comment_line (l ∷ before) gs line more b v h =
    rw b.0 (block-comment_line before gs line more b.1 v h)
