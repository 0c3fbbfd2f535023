-- ===== src/Events/Audit/Bound.antt =====
-- What the log in memory keeps.
use mathlib.Core.List.{append-nil, append_assoc}
use arcana_cloud_nodejs.Base.{
  ℕ, zero, suc, ◌+◌, ◌-◌, ◌≤◌, ◌≡◌, refl, sym, ◌∙◌, ap, Bool, true, false, List, [], ◌∷◌, ◌++◌,
  length, drop, ltb, if◌then◌else◌, arith, length-append, length-drop,
}
use arcana_cloud_nodejs.Events.Audit.{AuditLogEntry, max_in_memory_size, add_to_in_memory_audit_log}

module _ {A : Type 0} where
  drop-append :
      (k : ℕ) (xs : List A) (y : A) → k ≤ length xs → drop k (xs ++ y ∷ []) ≡ drop k xs ++ y ∷ []
  drop-append zero xs y h = refl
  drop-append (suc k) [] y h = elim h [ ]
  drop-append (suc k) (x ∷ xs) y h = drop-append k xs y (omega arith)

  drop-drop : (j k : ℕ) (xs : List A) → drop j (drop k xs) ≡ drop (k + j) xs
  drop-drop j zero xs = ap (λ n. drop n xs) (omega arith)
  drop-drop zero (suc k) [] = ap (λ n. drop n []) (let e : suc k ≡ suc k + 0 = omega arith in e)
  drop-drop (suc j) (suc k) [] =
      ap (λ n. drop n []) (let e : suc (k + suc j) ≡ suc k + suc j = omega arith in e)
  drop-drop j (suc k) (x ∷ xs) =
      drop-drop j k xs
      ∙ ap (λ n. drop n (x ∷ xs)) (let e : suc (k + j) ≡ suc k + j = omega arith in e)

module _ {P : Type 0} where
  -- the log after entries are added one after another
  abbrev pub add_all : List (AuditLogEntry P) → List (AuditLogEntry P) → List (AuditLogEntry P)
  add_all [] log = log
  add_all (e ∷ es) log = add_all es (add_to_in_memory_audit_log e log)

  abbrev pub newest : List (AuditLogEntry P) → List (AuditLogEntry P)
  newest es = drop (length es - max_in_memory_size) es

  add-drop :
      (e : AuditLogEntry P) (log : List (AuditLogEntry P))
      → add_to_in_memory_audit_log e log
        ≡ drop (length (log ++ e ∷ []) - max_in_memory_size) (log ++ e ∷ [])
  unfolding add_to_in_memory_audit_log
  add-drop e log = split (ltb max_in_memory_size (length (log ++ e ∷ []))) refl
    where
      split :
          (b : Bool)
          → ltb max_in_memory_size (length (log ++ e ∷ [])) ≡ b
          → (if b
              then drop (length (log ++ e ∷ []) - max_in_memory_size) (log ++ e ∷ [])
              else log ++ e ∷ [])
            ≡ drop (length (log ++ e ∷ []) - max_in_memory_size) (log ++ e ∷ [])
      split true h = refl
      split false h =
          let none_over : 0 ≡ length (log ++ e ∷ []) - max_in_memory_size = ground arith in
          ap (λ n. drop n (log ++ e ∷ [])) none_over

  add-newest :
      (e : AuditLogEntry P) (es : List (AuditLogEntry P))
      → add_to_in_memory_audit_log e (newest es) ≡ newest (es ++ e ∷ [])
  add-newest e es =
      let k = length es - max_in_memory_size in
      let all = es ++ e ∷ [] in
      let pushed : newest es ++ e ∷ [] ≡ drop k all = sym (drop-append k es e (omega arith)) in
      let over : k + (length (drop k all) - max_in_memory_size) ≡ length all - max_in_memory_size =
        omega (arith, length-drop k all, length-append es (e ∷ [])) in
      add-drop e (newest es)
      ∙ ap (λ xs. drop (length xs - max_in_memory_size) xs) pushed
      ∙ drop-drop (length (drop k all) - max_in_memory_size) k all
      ∙ ap (λ n. drop n all) over

  add_all-newest : (es old : List (AuditLogEntry P)) → add_all es (newest old) ≡ newest (old ++ es)
  add_all-newest [] old = ap newest (sym (append-nil old))
  add_all-newest (e ∷ es) old =
      ap (add_all es) (add-newest e old)
      ∙ add_all-newest es (old ++ e ∷ [])
      ∙ ap newest (append_assoc old (e ∷ []) es)

  -- Whatever entries are added to an empty log one after another, the log in memory is the last ten
  -- thousand of them in the order in which they were added, and all of them while there are no more.
  pub add_all_lem :
      (es : List (AuditLogEntry P))
      → (add_all es [] ≡ drop (length es - max_in_memory_size) es)
        × (length (add_all es []) ≤ max_in_memory_size)
  add_all_lem es =
      let same = add_all-newest es [] in
      (same, rw same (omega (arith, length-drop (length es - max_in_memory_size) es)))
