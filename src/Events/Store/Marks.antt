-- ===== src/Events/Store/Marks.antt =====
-- The idempotency marks in memory: they stay bounded and distinct, and a mark just set is there.
use arcana_cloud_nodejs.Base.{
  ℕ, zero, suc, ◌+◌, ◌-◌, ◌≤◌, String, ◌≡◌, refl, true, false, ◌||◌, List, [], ◌∷◌, ◌++◌, ltb,
  ltb→lt, eq_iff, eq_refl, arith, inl, inr, Bool-cases, length, ap, ◌∙◌, if-false, length-append,
  length-drop, drop,
}
use arcana_cloud_nodejs.Base.Exec.{ok, after}
use arcana_cloud_nodejs.Events.Backend.{Backend}
use arcana_cloud_nodejs.Events.Store.{
  Stored, has, add, is_empty, trim_first, remember, is_event_processed, mark_event_processed,
}

-- No identifier stands in a `Set` twice.
abbrev pub IsDistinct : List String → Type 0
IsDistinct [] = Unit
IsDistinct (x ∷ xs) = (has x xs ≡ false) × IsDistinct xs

pub record IsMarks (xs : List String) : Type 0 where
  pub distinct : IsDistinct xs
  pub few : length xs ≤ 10000

has-append : (id : String) (xs ys : List String) → has id (xs ++ ys) ≡ (has id xs || has id ys)
has-append id [] ys = refl
has-append id (x ∷ xs) ys = ground (arith, has-append id xs ys)

IsDistinct-concat :
    (id : String) (xs : List String)
    → IsDistinct xs
    → has id xs ≡ false
    → IsDistinct (xs ++ id ∷ [])
IsDistinct-concat id [] d h = (refl, tt)
IsDistinct-concat id (x ∷ xs) (fresh, d) h = (
  rw has-append (ground (arith, eq_iff x id, eq_iff id x)),
  IsDistinct-concat id xs d (ground arith),
)

add-IsDistinct : (id : String) (xs : List String) → IsDistinct xs → IsDistinct (add id xs)
add-IsDistinct id xs d = elim (Bool-cases (has id xs)) [
  | inl old ↦ rw old d
  | inr new ↦ rw new (IsDistinct-concat id xs d new)
]

has-add : (id : String) (xs : List String) → has id (add id xs) ≡ true
has-add id xs = elim (Bool-cases (has id xs)) [
  | inl old ↦ rw old old
  | inr new ↦ rw new (rw (has-append, new, eq_refl) refl)
]

-- Trimming adds nothing.
has-trim_first :
    (id : String) (n : ℕ) (xs : List String) → has id xs ≡ false → has id (trim_first n xs) ≡ false
unfolding trim_first
has-trim_first id zero xs h = h
has-trim_first id (suc n) [] h = refl
has-trim_first id (suc n) (x ∷ xs) h = ground (arith, has-trim_first id n xs)

trim_first-IsDistinct : (n : ℕ) (xs : List String) → IsDistinct xs → IsDistinct (trim_first n xs)
unfolding trim_first
trim_first-IsDistinct zero xs d = d
trim_first-IsDistinct (suc n) [] d = tt
trim_first-IsDistinct (suc n) (x ∷ xs) (fresh, d) = elim (Bool-cases (is_empty x)) [
  | inl e ↦ rw e (has-trim_first x n xs fresh, trim_first-IsDistinct n xs d)
  | inr e ↦ rw e (trim_first-IsDistinct n xs d)
]

-- Where the empty identifier is not, the first `n` go.
trim_first-eq-drop : (n : ℕ) (xs : List String) → has "" xs ≡ false → trim_first n xs ≡ drop n xs
unfolding trim_first
trim_first-eq-drop zero xs h = refl
trim_first-eq-drop (suc n) [] h = refl
trim_first-eq-drop (suc n) (x ∷ xs) h = ground (arith, trim_first-eq-drop n xs)

length-trim_first :
    (n : ℕ) (xs : List String) → IsDistinct xs → length (trim_first n xs) ≤ length xs - n + 1
unfolding trim_first
length-trim_first zero xs d = omega arith
length-trim_first (suc n) [] d = omega arith
length-trim_first (suc n) (x ∷ xs) (fresh, d) = elim (Bool-cases (is_empty x)) [
  | inl e ↦ rw e (
      rw (trim_first-eq-drop n xs (rw ((eq_iff x "").0 e) at fresh))
        (omega (arith, length-drop n xs)))
  | inr e ↦ rw e (omega (arith, length-trim_first n xs d))
]

length-add : (id : String) (xs : List String) → length (add id xs) ≤ length xs + 1
length-add id xs = ground (arith, length-append xs (id ∷ []))

-- The set of marks in memory never holds an identifier twice and never more than 10000 of them,
-- whatever is marked.
pub remember-IsMarks : (id : String) (xs : List String) → IsMarks xs → IsMarks (remember id xs)
unfolding remember
remember-IsMarks id xs h = elim (Bool-cases (ltb 10000 (length (add id xs)))) [
  | inl full ↦ rw full (record {
    distinct = trim_first-IsDistinct 1000 (add id xs) (add-IsDistinct id xs h.distinct);
    few = omega (
      arith,
      h.few,
      length-add id xs,
      length-trim_first 1000 (add id xs) (add-IsDistinct id xs h.distinct),
    );
  })
  | inr room ↦ rw room (record { distinct = add-IsDistinct id xs h.distinct; few = ground arith })
]

-- The last of more than `n` identifiers survives.
has-trim_first_last :
    (id : String) (n : ℕ) (xs : List String)
    → n ≤ length xs
    → has id (trim_first n (xs ++ id ∷ [])) ≡ true
unfolding trim_first
has-trim_first_last id zero xs h = ground (arith, has-append id xs (id ∷ []), eq_refl id)
has-trim_first_last id (suc n) [] h = elim h [ ]
has-trim_first_last id (suc n) (x ∷ xs) h =
    ground (arith, has-trim_first_last id n xs (omega arith))

fits : (n : ℕ) → n ≤ 10000 → ltb 10000 n ≡ false
fits n h = ground arith

-- A mark just set is in the set, also when it was full.
pub has-remember : (id : String) (xs : List String) → IsMarks xs → has id (remember id xs) ≡ true
unfolding remember
has-remember id xs h = elim (Bool-cases (has id xs)) [
  | inl old ↦ rw (old, fits (length xs) h.few) old
  | inr new ↦ rw new (elim (Bool-cases (ltb 10000 (length (xs ++ id ∷ [])))) [
    | inl full ↦ rw full (
        has-trim_first_last id 1000 xs
          (omega (arith, length-append xs (id ∷ []), ltb→lt 10000 _ full)))
    | inr room ↦ rw room (ground (arith, has-append id xs (id ∷ []), eq_refl id))
  ])
]

module _ {P W : Type 0} (backend : Backend P W) where
  -- While the store has no Redis client: once an event has been marked, also when the set of marks was full,
  -- `isEventProcessed` answers true for it, and changes nothing.
  pub is_event_processed-mark :
      (id : String) (s : Stored W)
      → s.store.connected ≡ false
      → IsMarks s.store.local_processed_events
      → is_event_processed backend id (after (mark_event_processed backend id s))
        ≡ ok true (after (mark_event_processed backend id s))
  unfolding is_event_processed mark_event_processed
  is_event_processed-mark id s off marks =
      let t : Stored W = record s {
        store = record s.store {
          local_processed_events = remember id s.store.local_processed_events;
        };
      } in
      let marked : mark_event_processed backend id s ≡ ok tt t = if-false _ _ off in
      rw marked
        (if-false _ _ off ∙ ap (λ b. ok b t) (has-remember id s.store.local_processed_events marks))
