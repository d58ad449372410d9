-- ===== src/Calendar/Iso.antt =====
-- ISO texts of dates tell dates of four-digit years apart, and stand in the order of the dates.
use urban_ops_intelligence_p.Prelude.{
  ℕ, ◌/◌, ◌%◌, ◌<◌, ◌≡◌, refl, false, arith, ltb, ◌==◌, ◌∷◌, ◌++◌, Text, if◌then◌else◌, text_lt,
  text_lt-cons, [],
}
use urban_ops_intelligence_p.Calendar.{Date, date_lt, isoformat, pad_two, pad_four}

-- The fields fit their places: four digits for the year, two for the month and two for the day.
pub record IsIso (t : Date) : Type 0 where
  pub year_in : t.year < 10000
  pub month_in : t.month < 100
  pub day_in : t.day < 100

text_lt-pad_two :
    (a b : ℕ) (s t : Text)
    → a < 100
    → b < 100
    → text_lt (pad_two a ++ s) (pad_two b ++ t) ≡ (if a == b then text_lt s t else ltb a b)
unfolding pad_two text_lt
text_lt-pad_two a b s t h k = ground arith

pad_four-append :
    (n : ℕ) (s : Text) → pad_four n ++ s ≡ pad_two (n / 100) ++ (pad_two (n % 100) ++ s)
unfolding pad_four
pad_four-append n s = refl

text_lt-pad_four :
    (a b : ℕ) (s t : Text)
    → a < 10000
    → b < 10000
    → text_lt (pad_four a ++ s) (pad_four b ++ t) ≡ (if a == b then text_lt s t else ltb a b)
text_lt-pad_four a b s t h k =
    rw (pad_four-append a s, pad_four-append b t)
      (rw
        (
          text_lt-pad_two (a / 100) (b / 100) (pad_two (a % 100) ++ s) (pad_two (b % 100) ++ t)
              (omega arith) (omega arith),
          text_lt-pad_two (a % 100) (b % 100) s t (omega arith) (omega arith),
        )
        (ground arith))

isoformat_parts :
    (t : Date)
    → isoformat t ≡ pad_four t.year ++ (b'-' ∷ (pad_two t.month ++ (b'-' ∷ (pad_two t.day ++ []))))
unfolding isoformat
isoformat_parts t = refl

text_lt-nil : text_lt [] [] ≡ false
unfolding text_lt
text_lt-nil = refl

-- Texts of dates stand in the order of the dates.
pub text_lt-isoformat :
    (a b : Date) → IsIso a → IsIso b → text_lt (isoformat a) (isoformat b) ≡ date_lt a b
unfolding date_lt
text_lt-isoformat a b v w =
    rw (isoformat_parts a, isoformat_parts b)
      (rw
        (
          text_lt-pad_four a.year b.year _ _ v.year_in w.year_in,
          text_lt-cons b'-' _ _,
          text_lt-pad_two a.month b.month _ _ v.month_in w.month_in,
          text_lt-cons b'-' _ _,
          text_lt-pad_two a.day b.day [] [] v.day_in w.day_in,
          text_lt-nil,
        )
        (ground arith))

-- Two dates whose texts begin two equal texts agree in every field.
pub isoformat_inj :
    (a b : Date) (s t : Text)
    → IsIso a
    → IsIso b
    → isoformat a ++ s ≡ isoformat b ++ t
    → (a.year ≡ b.year) × (a.month ≡ b.month) × (a.day ≡ b.day)
unfolding isoformat
isoformat_inj a b s t v w e = ground arith
