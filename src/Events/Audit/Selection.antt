-- ===== src/Events/Audit/Selection.antt =====
-- Which entries of the log in memory a query selects.
use arcana_cloud_nodejs.Base.{
  ℕ, suc, ◌≡◌, refl, ap, Bool, true, ◌&&◌, Option, none, some, List, [], ◌∷◌, keep, length, leb,
  str_eq, arith, All, Bool-cases, inl, inr, if◌then◌else◌,
}
use arcana_cloud_nodejs.Events.Audit.{
  AuditLogEntry, AuditQuery, filter_if, filled_text, same_text, matching,
}

module _ {P : Type 0} where
  -- what an option that is given asks of an entry
  abbrev asks : {A : Type 0} → (A → AuditLogEntry P → Bool) → Option A → AuditLogEntry P → Bool
  asks test none e = true
  asks test (some a) e = test a e

  -- whether an entry has the type and the correlation of a query, if those are given and not blank, and is from
  -- its time
  abbrev pub fits : AuditQuery → AuditLogEntry P → Bool
  fits q e =
      asks (λ s f. str_eq f.event_type s) (filled_text q.event_type) e
      && (asks (λ s f. same_text f.correlation_id s) (filled_text q.correlation_id) e
          && (asks (λ t f. leb t f.occurred_at) q.from_date e
              && asks (λ t f. leb f.occurred_at t) q.to_date e))

  abbrev pub number_fitting : AuditQuery → List (AuditLogEntry P) → ℕ
  number_fitting q [] = 0
  number_fitting q (e ∷ es) = let n = number_fitting q es in if fits q e then suc n else n

  filter_if-keep :
      {A : Type 0} (test : A → AuditLogEntry P → Bool) (o : Option A) (es : List (AuditLogEntry P))
      → filter_if test o es ≡ keep (asks test o) es
  filter_if-keep test none [] = refl
  filter_if-keep test none (e ∷ es) = ap (λ fs. e ∷ fs) (filter_if-keep test none es)
  filter_if-keep test (some a) es = refl

  four_filters :
      (a b c d : AuditLogEntry P → Bool) (es : List (AuditLogEntry P))
      → keep d (keep c (keep b (keep a es))) ≡ keep (λ e. a e && (b e && (c e && d e))) es
  four_filters a b c d [] = refl
  four_filters a b c d (e ∷ es) = ground (arith, four_filters a b c d es)

  fitting-keep :
      (q : AuditQuery) (es : List (AuditLogEntry P))
      → All (λ e. fits q e ≡ true) (keep (fits q) es)
        × (length (keep (fits q) es) ≡ number_fitting q es)
  fitting-keep q [] = (tt, refl)
  fitting-keep q (e ∷ es) = elim (Bool-cases (fits q e)) [
    | inl fit ↦ let (fits_too, same) = fitting-keep q es in rw fit ((fit, fits_too), ap suc same)
    | inr other ↦ rw other (fitting-keep q es)
  ]

  -- The filters of a query, one after another, keep the entries that fit it.
  pub matching-fits :
      (q : AuditQuery) (es : List (AuditLogEntry P))
      → All (λ e. fits q e ≡ true) (matching q es) × (length (matching q es) ≡ number_fitting q es)
  unfolding matching
  matching-fits q es =
      rw
        (
          filter_if-keep (λ s e. str_eq e.event_type s) (filled_text q.event_type) es,
          filter_if-keep (λ s e. same_text e.correlation_id s) (filled_text q.correlation_id) _,
          filter_if-keep (λ t e. leb t e.occurred_at) q.from_date _,
          filter_if-keep (λ t e. leb e.occurred_at t) q.to_date _,
          four_filters _ _ _ _ es,
        )
        (fitting-keep q es)
