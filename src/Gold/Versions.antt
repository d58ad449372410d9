-- ===== src/Gold/Versions.antt =====
-- scripts/gold/build_gold.py: the version of the forecast that a build scores against.
use urban_ops_intelligence_p.Prelude.{
  ◌≡◌, refl, sym, subst, ◌⊎◌, inl, inr, Bool, true, false, List, [], ◌∷◌, if◌then◌else◌, Text,
  codes, text_eq, text_eq_refl, any, map, unknown_version, several_versions, index_error, Result,
  ok, err, Bool-cases,
}
use urban_ops_intelligence_p.Strings.{replace}

-- `serving_version`, of the option `--forecast-version`, blank where it is not given, and of the
-- versions of the artefacts
unfoldable pub serving_version : Text → List Text → Result Text
serving_version [] [] = err index_error
serving_version [] (version ∷ []) = ok version
serving_version [] (version ∷ other ∷ versions) =
    err (several_versions (version ∷ other ∷ versions))
serving_version (c ∷ wanted) versions =
    if any (text_eq (c ∷ wanted)) versions
    then ok (c ∷ wanted)
    else err (unknown_version (c ∷ wanted))

abbrev one_select : Text → Result Text → Result (List Text)
one_select text (ok version) = ok (replace (codes "{forecast_version}") version text ∷ [])
one_select text (err e) = err e

-- `intelligence_selects`, of the rendered text of the file
unfoldable pub intelligence_selects : Bool → Text → Text → List Text → Result (List Text)
intelligence_selects true text wanted versions =
    ok (map (λ v. replace (codes "{model_version}") v text) versions)
intelligence_selects false text wanted versions = one_select text (serving_version wanted versions)

-- No choice between versions is made for the caller: a version that is returned is one of those that exist, and it is the one that was asked for or, where none was, the only one.
pub serving_version-known :
    (wanted : Text) (versions : List Text) (version : Text)
    → serving_version wanted versions ≡ ok version
    → (any (text_eq version) versions ≡ true)
      × ((version ≡ wanted) ⊎ ((wanted ≡ []) × (versions ≡ version ∷ [])))
unfolding serving_version
serving_version-known [] [] version h = cc
serving_version-known [] (v ∷ []) version h =
    let same : v ≡ version = cc in
    (rw same (rw (text_eq_refl version) refl), inr (refl, rw same refl))
serving_version-known [] (v ∷ w ∷ versions) version h = cc
serving_version-known (c ∷ wanted) versions version h =
    elim (Bool-cases (any (text_eq (c ∷ wanted)) versions)) [
      | inl found ↦
          let k : ok (c ∷ wanted) ≡ ok version = rw found at h in
          let same : c ∷ wanted ≡ version = cc in
          (subst (λ v. any (text_eq v) versions ≡ true) same found, inl (sym same))
      | inr lost ↦ let k : err _ ≡ ok version = rw lost at h in cc
    ]
