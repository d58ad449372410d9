-- ===== src/Loader/Stream/Lines.antt =====
-- The payload of a list of records, line by line.
use urban_ops_intelligence_p.Prelude.{
  ◌≡◌, refl, sym, ap, ◌∙◌, List, [], ◌∷◌, ◌++◌, map, append_assoc, Text,
}
use urban_ops_intelligence_p.Records.{Record}
use urban_ops_intelligence_p.Platform.{Platform}
use urban_ops_intelligence_p.Loader.{newline, encode, utf8_bytes, join_lines, to_ndjson}
use urban_ops_intelligence_p.Loader.Stream.{line_of}

encode-append : (s t : Text) → encode (s ++ t) ≡ encode s ++ encode t
unfolding encode
encode-append [] t = refl
encode-append (c ∷ s) t =
    ap (λ bs. utf8_bytes c ++ bs) (encode-append s t) ∙ sym (append_assoc (utf8_bytes c) _ _)

module _ (P : Platform) where
  unfoldable pub lines : List Record → Text
  lines [] = []
  lines (r ∷ rs) = P.dumps r ++ (newline ∷ lines rs)

  joined :
      (r : Record) (rs : List Record)
      → join_lines (map P.dumps (r ∷ rs)) ++ (newline ∷ []) ≡ lines (r ∷ rs)
  unfolding lines
  joined r [] = refl
  joined r (q ∷ rs) =
      append_assoc (P.dumps r) (newline ∷ join_lines (map P.dumps (q ∷ rs))) (newline ∷ [])
      ∙ ap (λ t. P.dumps r ++ (newline ∷ t)) (joined q rs)

  -- The payload is the lines of the records, each ended by a newline.
  pub to_ndjson-lines : (rs : List Record) → to_ndjson P.dumps rs ≡ encode (lines rs)
  unfolding to_ndjson lines encode
  to_ndjson-lines [] = refl
  to_ndjson-lines (r ∷ rs) = ap encode (joined r rs)

  pub encode-lines :
      (r : Record) (rs : List Record) → encode (lines (r ∷ rs)) ≡ line_of P r ++ encode (lines rs)
  unfolding lines
  encode-lines r rs =
      ap encode (sym (append_assoc (P.dumps r) (newline ∷ []) (lines rs)))
      ∙ encode-append (P.dumps r ++ (newline ∷ [])) (lines rs)

  pub encode_no_lines : encode (lines []) ≡ []
  unfolding lines encode
  encode_no_lines = refl
