-- ===== src/Tests/Utf8.antt =====
-- A decoder of UTF-8, which undoes the loader's encoding.
use urban_ops_intelligence_p.Prelude.{
  ℕ, zero, suc, ◌+◌, ◌-◌, ◌*◌, ◌/◌, ◌%◌, ◌≡◌, ◌≤◌, ◌<◌, refl, ap, ◌∙◌, true, [], ◌∷◌, ◌++◌, ◌==◌,
  ltb, if◌then◌else◌, Text, arith, Bool-cases, inl, inr,
}
use urban_ops_intelligence_p.Platform.{Bytes}
use urban_ops_intelligence_p.Loader.{utf8_bytes, encode}

-- How many bytes are still to come, after one more.
abbrev pending : ℕ → ℕ → ℕ
pending zero b = if ltb b 128 then 0 else if ltb b 224 then 1 else if ltb b 240 then 2 else 3
pending (suc n) b = n

abbrev value : ℕ → ℕ → ℕ → ℕ
value zero v b =
    if ltb b 128 then b else if ltb b 224 then b - 192 else if ltb b 240 then b - 224 else b - 240
value (suc n) v b = v * 64 + (b - 128)

unfoldable pub decode_from : ℕ → ℕ → Bytes → Text
decode_from n v [] = []
decode_from n v (b ∷ bs) =
    let rest = decode_from (pending n b) (value n v b) bs in
    if pending n b == 0 then value n v b ∷ rest else rest

unfoldable pub decoded : Bytes → Text
decoded bs = decode_from 0 0 bs

forgets : (v w : ℕ) (bs : Bytes) → decode_from 0 v bs ≡ decode_from 0 w bs
unfolding decode_from
forgets v w [] = refl
forgets v w (b ∷ bs) = refl

ascii_byte :
    (c : ℕ) (bs : Bytes) → ltb c 128 ≡ true → decode_from 0 0 (c ∷ bs) ≡ c ∷ decode_from 0 0 bs
unfolding decode_from
ascii_byte c bs h = rw h (ap (λ t. c ∷ t) (forgets c 0 bs))

first_of_two :
    (b : ℕ) (bs : Bytes) → 192 ≤ b → b < 224 → decode_from 0 0 (b ∷ bs) ≡ decode_from 1 (b - 192) bs
unfolding decode_from
first_of_two b bs h k = ground arith

first_of_three :
    (b : ℕ) (bs : Bytes) → 224 ≤ b → b < 240 → decode_from 0 0 (b ∷ bs) ≡ decode_from 2 (b - 224) bs
unfolding decode_from
first_of_three b bs h k = ground arith

first_of_four :
    (b : ℕ) (bs : Bytes) → 240 ≤ b → decode_from 0 0 (b ∷ bs) ≡ decode_from 3 (b - 240) bs
unfolding decode_from
first_of_four b bs h = ground arith

later_byte :
    (n v b : ℕ) (bs : Bytes)
    → decode_from (suc (suc n)) v (b ∷ bs) ≡ decode_from (suc n) (v * 64 + (b - 128)) bs
unfolding decode_from
later_byte n v b bs = ground arith

last_byte :
    (v b c : ℕ) (bs : Bytes)
    → v * 64 + (b - 128) ≡ c
    → decode_from 1 v (b ∷ bs) ≡ c ∷ decode_from 0 0 bs
unfolding decode_from
last_byte v b c bs h = λ i. h i ∷ forgets (v * 64 + (b - 128)) 0 bs i

one_character : (c : ℕ) (bs : Bytes) → decode_from 0 0 (utf8_bytes c ++ bs) ≡ c ∷ decode_from 0 0 bs
unfolding utf8_bytes
one_character c bs = elim (Bool-cases (ltb c 128)) [
  | inl ascii ↦ rw ascii (ascii_byte c bs ascii)
  | inr wide ↦ rw wide (elim (Bool-cases (ltb c 2048)) [
    | inl two ↦ rw two (
        first_of_two (192 + c / 64) _ (omega arith) (ground arith)
        ∙ last_byte _ (128 + c % 64) c bs (omega arith))
    | inr wider ↦ rw wider (elim (Bool-cases (ltb c 65536)) [
      | inl three ↦ rw three (
          first_of_three (224 + c / 4096) _ (omega arith) (ground arith)
          ∙ (later_byte 0 _ (128 + c / 64 % 64) _ ∙ last_byte _ (128 + c % 64) c bs (omega arith)))
      | inr four ↦ rw four (
          first_of_four (240 + c / 262144) _ (omega arith)
          ∙ (later_byte 1 _ (128 + c / 4096 % 64) _
              ∙ (later_byte 0 _ (128 + c / 64 % 64) _
                  ∙ last_byte _ (128 + c % 64) c bs (omega arith))))
    ])
  ])
]

no_bytes : decode_from 0 0 [] ≡ []
unfolding decode_from
no_bytes = refl

-- What is encoded is decoded.
pub decoded-encode : (t : Text) → decoded (encode t) ≡ t
unfolding decoded encode
decoded-encode [] = no_bytes
decoded-encode (c ∷ t) = one_character c (encode t) ∙ ap (λ u. c ∷ u) (decoded-encode t)
