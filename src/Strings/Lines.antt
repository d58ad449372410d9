-- ===== src/Strings/Lines.antt =====
-- Python's `splitlines`, which knows more ends of lines than the newline.
use urban_ops_intelligence_p.Prelude.{
  ℕ, ◌≡◌, refl, ap, ◌∙◌, Bool, false, ◌||◌, ◌&&◌, List, [], ◌∷◌, ◌++◌, ◌==◌, leb, if◌then◌else◌,
  Text, any, All, append_assoc, arith,
}
use urban_ops_intelligence_p.Strings.{onto}
use urban_ops_intelligence_p.Loader.{newline, join_lines}

-- A character that ends a line.
abbrev pub is_break : ℕ → Bool
is_break c =
    (leb 10 c && leb c 13) || (leb 28 c && leb c 30) || (c == 133) || (c == 8232) || (c == 8233)

-- The lines that are left, just after a carriage return or not.
abbrev pub lines_after : Bool → Text → List Text
lines_after returned [] = []
lines_after returned (c ∷ t) =
    let rest = lines_after (c == 13) t in
    if returned && (c == 10) then rest else if is_break c then [] ∷ rest else onto c rest

-- `t.splitlines()`
unfoldable pub split_lines : Text → List Text
split_lines t = lines_after false t

-- A text of one line.
abbrev pub OneLine : Text → Type 0
OneLine t = any is_break t ≡ false

lines_after-newline :
    (c : ℕ) (t u : Text)
    → OneLine (c ∷ t)
    → lines_after false ((c ∷ t) ++ (newline ∷ u)) ≡ (c ∷ t) ∷ lines_after false u
lines_after-newline c [] u h = ground arith
lines_after-newline c (d ∷ t) u h = ground (arith, lines_after-newline d t u)

after_line :
    (t u : Text) → OneLine t → lines_after false (t ++ (newline ∷ u)) ≡ t ∷ lines_after false u
after_line [] u h = refl
after_line (c ∷ t) u h = lines_after-newline c t u h

-- Lines that are joined, with a last newline, are read back one by one.
pub split_lines-join_lines :
    (l : Text) (ls : List Text)
    → All OneLine (l ∷ ls)
    → split_lines (join_lines (l ∷ ls) ++ (newline ∷ [])) ≡ l ∷ ls
unfolding split_lines
split_lines-join_lines l [] h = after_line l [] h.0
split_lines-join_lines l (m ∷ ls) h =
    ap (λ t. split_lines t) (append_assoc l (newline ∷ join_lines (m ∷ ls)) (newline ∷ []))
    ∙ (after_line l (join_lines (m ∷ ls) ++ (newline ∷ [])) h.0
        ∙ ap (λ rest. l ∷ rest) (split_lines-join_lines m ls h.1))
