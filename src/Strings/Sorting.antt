-- ===== src/Strings/Sorting.antt =====
-- Python's `sorted` by keys that are texts, and the sorted list of a set of texts.
use urban_ops_intelligence_p.Prelude.{List, [], ◌∷◌, if◌then◌else◌, Text, text_lt, text_eq, any}

module _ {ℓ} {A : Type ℓ} (key : A → Text) where
  abbrev pub placed : A → List A → List A
  placed x [] = x ∷ []
  placed x (y ∷ ys) =
      let rest = placed x ys in if text_lt (key y) (key x) then y ∷ rest else x ∷ y ∷ ys

  -- `sorted(xs, key=key)`, stable
  unfoldable pub sort_by : List A → List A
  sort_by [] = []
  sort_by (x ∷ xs) = placed x (sort_by xs)

-- `list(dict.fromkeys(ts))`
abbrev pub distinct : List Text → List Text
distinct [] = []
distinct (t ∷ ts) = let rest = distinct ts in if any (text_eq t) ts then rest else t ∷ rest

-- `sorted(set(ts))`
unfoldable pub sorted_set : List Text → List Text
unfolding sort_by
sorted_set ts = sort_by (λ t. t) (distinct ts)
