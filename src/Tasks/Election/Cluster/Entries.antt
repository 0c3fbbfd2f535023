-- ===== src/Tasks/Election/Cluster/Entries.antt =====
-- The entry of the key under the changes that instances make and under the passing of time.
use arcana_cloud_nodejs.Base.{
  ℕ, ◌≤◌, ◌<◌, String, ◌≡◌, ◌≢◌, refl, sym, ◌∙◌, false, Option, none, some, ◌⊎◌, inl, inr, arith,
  eq_iff, str_eq, Bool-cases,
}
use arcana_cloud_nodejs.Tasks.Redis.{expire}
use arcana_cloud_nodejs.Tasks.Election.Ticks.{Effect, kept, taken, extended, released}
use arcana_cloud_nodejs.Tasks.Election.Cluster.{lease_of}

-- The leader's lease is the entry of the key, if it has not run out.
pub leased_self :
    {P : Type 0} (own : String) (l now u : ℕ) (old new : Option (String × ℕ))
    → (new ≡ some (own, u)) ⊎ (P × (new ≡ old))
    → (P → now < l → old ≡ some (own, l))
    → now < lease_of new own l
    → new ≡ some (own, lease_of new own l)
leased_self own l now u old none (inl held) ih live = cc
leased_self own l now u old none (inr (p, same)) ih live = same ∙ ih p live
leased_self {P = P} own l now u old (some (v, e)) by ih live = elim (Bool-cases (str_eq v own)) [
  | inl mine ↦ rw mine (rw ((eq_iff v own).0 mine))
  | inr other ↦ rw other (untouched other by (rw other at live))
]
  where
    untouched :
        str_eq v own ≡ false
        → (◌≡◌ {A = Option (String × ℕ)} (some (v, e)) (some (own, u)))
          ⊎ (P × ◌≡◌ {A = Option (String × ℕ)} (some (v, e)) old)
        → now < l
        → ◌≡◌ {A = Option (String × ℕ)} (some (v, e)) (some (own, l))
    untouched other (inl held) k = ground (arith, eq_iff v own)
    untouched other (inr (p, same)) k = same ∙ ih p k

-- A change by one instance leaves the entry of another alone.
pub leased_other :
    {own : String} {u : ℕ} {old new : Option (String × ℕ)} (v : String) (e : ℕ)
    → Effect own u old new
    → own ≢ v
    → old ≡ some (v, e)
    → new ≡ some (v, e)
leased_other v e (kept same) d h = same ∙ h
leased_other v e (taken free held) d h = cc
leased_other v e (extended x mine held) d h = absurd (d (ground arith))
leased_other v e (released x mine gone) d h = absurd (d (ground arith))

pub bounded_after :
    {own : String} {u : ℕ} {old new : Option (String × ℕ)}
    → Effect own u old new
    → ((v : String) (e : ℕ) → old ≡ some (v, e) → e ≤ u)
    → (v : String) (e : ℕ) → new ≡ some (v, e)
    → e ≤ u
bounded_after (kept same) b v e h = b v e (sym same ∙ h)
bounded_after (taken free held) b v e h = ground arith
bounded_after (extended x mine held) b v e h = ground arith
bounded_after (released x mine gone) b v e h = ground arith

pub unexpired :
    (now : ℕ) {e : ℕ} {v : String} (old : Option (String × ℕ))
    → expire now old ≡ some (v, e)
    → old ≡ some (v, e)
unexpired now none h = h
unexpired now (some (w, f)) h = ground arith

pub run_out :
    (now : ℕ) (old : Option (String × ℕ))
    → ((v : String) (e : ℕ) → old ≡ some (v, e) → e ≤ now)
    → expire now old ≡ none
run_out now none h = refl
run_out now (some (v, e)) h = ground (arith, h v e refl)
