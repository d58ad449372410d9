-- ===== src/Registry/Matching.antt =====
-- ingestion/config/loader.py: an index and a registry of the same files.
use urban_ops_intelligence_p.Prelude.{
  ◌≡◌, refl, Option, none, some, [], ◌∷◌, Text, text_eq, is_some, lookup, insert, Bool-cases, inl,
  inr, ok,
}
use urban_ops_intelligence_p.Config.{SourceConfig}
use urban_ops_intelligence_p.Registry.{SourceFile, Index, load_file, keys, Registry}

-- An index and a registry with the same keys, where each file loads to its entry.
abbrev pub Match : Index → Registry → Type 0
Match [] [] = Unit
Match [] (e ∷ out) = ⊥
Match (e ∷ index) [] = ⊥
Match ((k, f) ∷ index) ((j, cfg) ∷ out) = (k ≡ j) × (load_file f ≡ ok cfg) × Match index out

pub Match-keys : (index : Index) (out : Registry) → Match index out → keys index ≡ keys out
Match-keys [] [] h = refl
Match-keys [] (e ∷ out) h = elim h [ ]
Match-keys (e ∷ index) [] h = elim h [ ]
Match-keys ((k, f) ∷ index) ((j, cfg) ∷ out) h = λ i. h.0 i ∷ Match-keys index out h.2 i

pub Match-insert :
    (k : Text) (f : SourceFile) (cfg : SourceConfig) (index : Index) (out : Registry)
    → load_file f ≡ ok cfg
    → Match index out
    → Match (insert k f index) (insert k cfg out)
Match-insert k f cfg [] [] e h = (refl, e, tt)
Match-insert k f cfg [] (x ∷ out) e h = elim h [ ]
Match-insert k f cfg (x ∷ index) [] e h = elim h [ ]
Match-insert k f cfg ((i, g) ∷ index) ((j, c) ∷ out) e h = rw h.0 (elim (Bool-cases (text_eq j k)) [
  | inl same ↦ rw same (refl, e, h.2)
  | inr differ ↦ rw differ (refl, h.1, Match-insert k f cfg index out e h.2)
])

-- What a lookup in the two finds.
abbrev pub Found : Option SourceFile → Option SourceConfig → Type 0
Found none none = Unit
Found none (some cfg) = ⊥
Found (some f) none = ⊥
Found (some f) (some cfg) = load_file f ≡ ok cfg

pub Match-Found :
    (k : Text) (index : Index) (out : Registry)
    → Match index out
    → Found (lookup k index) (lookup k out)
Match-Found k [] [] h = tt
Match-Found k [] (x ∷ out) h = elim h [ ]
Match-Found k (x ∷ index) [] h = elim h [ ]
Match-Found k ((i, g) ∷ index) ((j, c) ∷ out) h = rw h.0 (elim (Bool-cases (text_eq j k)) [
  | inl same ↦ rw same h.1
  | inr differ ↦ rw differ (Match-Found k index out h.2)
])

pub Found-is_some :
    (f : Option SourceFile) (c : Option SourceConfig) → Found f c → is_some f ≡ is_some c
Found-is_some none none h = refl
Found-is_some none (some c) h = elim h [ ]
Found-is_some (some f) none h = elim h [ ]
Found-is_some (some f) (some c) h = refl
