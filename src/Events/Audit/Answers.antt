-- ===== src/Events/Audit/Answers.antt =====
-- What the queries on the log in memory answer.
use arcana_cloud_nodejs.Base.{ℕ, ◌+◌, ◌≤◌, String, List, [], ◌∷◌, All}
use arcana_cloud_nodejs.Events.Audit.{AuditLogEntry}

module _ {P : Type 0} where
  -- each entry is no older than those after it
  abbrev pub IsNewestFirst : List (AuditLogEntry P) → Type 0
  IsNewestFirst [] = Unit
  IsNewestFirst (e ∷ es) = All (λ f. f.occurred_at ≤ e.occurred_at) es × IsNewestFirst es

abbrev pub sum_counts : List (String × ℕ) → ℕ
sum_counts [] = 0
sum_counts ((t, n) ∷ rest) = n + sum_counts rest
