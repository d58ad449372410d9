-- ===== src/Loader/Daily/Groups.antt =====
-- What `_group_by_date` files where, and the texts of its days.
use urban_ops_intelligence_p.Prelude.{
  ◌≡◌, refl, ap, ◌∙◌, Bool, true, false, Option, none, some, List, [], ◌∷◌, ◌++◌, append_assoc,
  append-nil, arith, Text, text_eq, text_eq_iff, lookup, lookup-insert, keep, is_empty,
  if◌then◌else◌, Result, ok, err, Bool-cases, inl, inr, ◌>>=◌,
}
use urban_ops_intelligence_p.Calendar.{Date, isoformat}
use urban_ops_intelligence_p.Calendar.Iso.{IsIso}
use urban_ops_intelligence_p.Records.{Record}
use urban_ops_intelligence_p.Platform.{Platform}
use urban_ops_intelligence_p.Loader.{date_of}
use urban_ops_intelligence_p.Loader.Daily.{
  Groups, or_nil, file_under, group_loop, group_by_date, parse_iso,
}

-- The text of a date whose fields fit its places reads back as that date.
pub parse_iso-isoformat : (d : Date) → IsIso d → parse_iso (isoformat d) ≡ some d
unfolding parse_iso isoformat
parse_iso-isoformat d v = ground arith

push_if :
    (b : Bool) (r : Record) (rs : List Record)
    → (if b then r ∷ [] else []) ++ rs ≡ (if b then r ∷ rs else rs)
push_if true r rs = refl
push_if false r rs = refl

module _ (P : Platform) (field : Text) where
  abbrev dated_as : Text → Result (Option Date) → Bool
  dated_as k (ok (some d)) = text_eq (isoformat d) k
  dated_as k (ok none) = false
  dated_as k (err e) = false

  -- The record has a date with this text.
  abbrev pub filed_as : Text → Record → Bool
  filed_as k r = dated_as k (date_of P field r)

  lookup-file_under :
      (k : Text) (d : Option Date) (r : Record) (groups : Groups)
      → or_nil (lookup k (file_under d r groups))
        ≡ or_nil (lookup k groups) ++ (if dated_as k (ok d) then r ∷ [] else [])
  lookup-file_under k none r groups = rw append-nil
  lookup-file_under k (some d) r groups =
      rw (lookup-insert (isoformat d) k _ groups) (elim (Bool-cases (text_eq (isoformat d) k)) [
        | inl same ↦
            rw same
              (ap (λ j. or_nil (lookup j groups) ++ r ∷ []) ((text_eq_iff (isoformat d) k).0 same))
        | inr differ ↦ rw (differ, append-nil)
      ])

  group_loop-keep :
      (k : Text) (rs : List Record) (groups filed : Groups)
      → group_loop P field groups rs ≡ ok filed
      → or_nil (lookup k filed) ≡ or_nil (lookup k groups) ++ keep (filed_as k) rs
  unfolding group_loop
  group_loop-keep k [] groups filed h =
      let e : filed ≡ groups = cc in rw append-nil (ap (λ g. or_nil (lookup k g)) e)
  group_loop-keep k (r ∷ rs) groups filed h =
      go (date_of P field r) h (λ gs. group_loop-keep k rs gs filed)
    where
      go :
          (x : Result (Option Date))
          → (x >>= λ d. group_loop P field (file_under d r groups) rs) ≡ ok filed
          → ((gs : Groups)
              → group_loop P field gs rs ≡ ok filed
              → or_nil (lookup k filed) ≡ or_nil (lookup k gs) ++ keep (filed_as k) rs)
          → or_nil (lookup k filed)
            ≡ or_nil (lookup k groups)
              ++ (if dated_as k x then r ∷ keep (filed_as k) rs else keep (filed_as k) rs)
      go (err e) h' ih = cc
      go (ok d) h' ih =
          ih (file_under d r groups) h'
          ∙ ap (λ xs. xs ++ keep (filed_as k) rs) (lookup-file_under k d r groups)
          ∙ append_assoc (or_nil (lookup k groups)) _ _
          ∙ ap (λ xs. or_nil (lookup k groups) ++ xs) (push_if (dated_as k (ok d)) r _)

  -- Where records are grouped, the group of a day is exactly the records with that date, in
  -- their order.
  pub group_by_date-keep :
      (k : Text) (records : List Record) (groups : Groups)
      → group_by_date P field records ≡ ok groups
      → or_nil (lookup k groups) ≡ keep (filed_as k) records
  unfolding group_by_date
  group_by_date-keep k records groups h = elim (Bool-cases (is_empty field)) [
    | inl e ↦ let h' : err _ ≡ ok groups = rw e at h in cc
    | inr e ↦ group_loop-keep k records [] groups (rw e at h)
  ]
