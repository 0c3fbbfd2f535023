-- ===== src/Events/Bus/Order.antt =====
-- The order of the handlers: by priority, and by registration among those of one priority.
use arcana_cloud_nodejs.Base.{
  ℕ, String, ◌≡◌, ◌≢◌, refl, Bool, true, false, List, [], ◌∷◌, ◌++◌, str_eq, eq_iff, eq_refl, arith,
  inl, inr, Bool-cases, if◌then◌else◌, ◌&&◌, not,
}
use arcana_cloud_nodejs.Base.Int.{ℤ, ltb_ℤ}
use arcana_cloud_nodejs.Base.Exec.{Exec}
use arcana_cloud_nodejs.Events.Domain.{DomainEvent}
use arcana_cloud_nodejs.Events.Bus.{
  HandlerRegistration, EventBus, HandlerOptions, registration, insert_sorted, sort, handlers_of,
  set_handlers, on,
}

abbrev pub same_priority : ℤ → ℤ → Bool
same_priority p q = not (ltb_ℤ p q) && not (ltb_ℤ q p)

not_lt_trans : (a b c : ℤ) → ltb_ℤ a b ≡ false → ltb_ℤ b c ≡ false → ltb_ℤ a c ≡ false
not_lt_trans a b c h k = ground arith

module _ {P W : Type 0} where
  -- `r` runs no later than the others by its priority
  abbrev pub Leads : HandlerRegistration P W → List (HandlerRegistration P W) → Type 0
  Leads r [] = Unit
  Leads r (x ∷ xs) = (ltb_ℤ r.priority x.priority ≡ false) × Leads r xs

  abbrev pub IsSorted : List (HandlerRegistration P W) → Type 0
  IsSorted [] = Unit
  IsSorted (x ∷ xs) = Leads x xs × IsSorted xs

  -- the handlers of one priority, in their order
  abbrev pub at_priority : ℤ → List (HandlerRegistration P W) → List (HandlerRegistration P W)
  at_priority p [] = []
  at_priority p (x ∷ xs) =
      let rest = at_priority p xs in if same_priority p x.priority then x ∷ rest else rest

  pub Leads-trans :
      (r x : HandlerRegistration P W) (xs : List (HandlerRegistration P W))
      → ltb_ℤ r.priority x.priority ≡ false
      → Leads x xs
      → Leads r xs
  Leads-trans r x [] h l = tt
  Leads-trans r x (y ∷ ys) h (k, l) =
      (not_lt_trans r.priority x.priority y.priority h k, Leads-trans r x ys h l)

  Leads-insert_sorted :
      (x r : HandlerRegistration P W) (xs : List (HandlerRegistration P W))
      → ltb_ℤ x.priority r.priority ≡ false
      → Leads x xs
      → Leads x (insert_sorted r xs)
  unfolding insert_sorted
  Leads-insert_sorted x r [] h l = (h, tt)
  Leads-insert_sorted x r (y ∷ ys) h (k, l) = elim (Bool-cases (ltb_ℤ r.priority y.priority)) [
    | inl less ↦ rw less (k, Leads-insert_sorted x r ys h l)
    | inr more ↦ rw more (h, (k, l))
  ]

  insert_sorted-IsSorted :
      (r : HandlerRegistration P W) (xs : List (HandlerRegistration P W))
      → IsSorted xs
      → IsSorted (insert_sorted r xs)
  unfolding insert_sorted
  insert_sorted-IsSorted r [] s = (tt, tt)
  insert_sorted-IsSorted r (x ∷ xs) (l, s) = elim (Bool-cases (ltb_ℤ r.priority x.priority)) [
    | inl less ↦ rw less (
      Leads-insert_sorted x r xs (flip r.priority x.priority less) l,
      insert_sorted-IsSorted r xs s,
    )
    | inr more ↦ rw more ((more, Leads-trans r x xs more l), (l, s))
  ]
    where
      flip : (a b : ℤ) → ltb_ℤ a b ≡ true → ltb_ℤ b a ≡ false
      flip a b h = ground arith

  pub sort-IsSorted : (xs : List (HandlerRegistration P W)) → IsSorted (sort xs)
  unfolding sort
  sort-IsSorted [] = tt
  sort-IsSorted (x ∷ xs) = insert_sorted-IsSorted x (sort xs) (sort-IsSorted xs)

  at_priority-insert_sorted :
      (p : ℤ) (r : HandlerRegistration P W) (xs : List (HandlerRegistration P W))
      → at_priority p (insert_sorted r xs) ≡ at_priority p (r ∷ xs)
  unfolding insert_sorted
  at_priority-insert_sorted p r [] = refl
  at_priority-insert_sorted p r (x ∷ xs) = ground (arith, at_priority-insert_sorted p r xs)

  pub at_priority-sort :
      (p : ℤ) (xs : List (HandlerRegistration P W)) → at_priority p (sort xs) ≡ at_priority p xs
  unfolding sort
  at_priority-sort p [] = refl
  at_priority-sort p (x ∷ xs) =
      ground (arith, at_priority-insert_sorted p x (sort xs), at_priority-sort p xs)

  -- the handlers of a type, after a registration
  pub handlers_of-set_handlers :
      (t u : String) (hs : List (HandlerRegistration P W))
      (m : List (String × List (HandlerRegistration P W)))
      → handlers_of u (set_handlers t hs m) ≡ (if str_eq t u then hs else handlers_of u m)
  unfolding handlers_of set_handlers
  handlers_of-set_handlers t u hs [] = refl
  handlers_of-set_handlers t u hs ((v, gs) ∷ m) =
      ground (arith, handlers_of-set_handlers t u hs m, eq_iff v t, eq_iff v u, eq_iff t u)

  -- After `on`, the handlers of the event's type are in the order of falling priorities; those of
  -- each priority are the earlier ones in their earlier order, with the new one last if the priority
  -- is its own; and every other type has the handlers that it had.
  pub on_lem :
      (t : String) (id : ℕ) (handler : DomainEvent P → Exec W (Unit {0})) (o : HandlerOptions)
      (bus : EventBus P W) (p : ℤ) (u : String)
      → u ≢ t
      → IsSorted (handlers_of t (on t id handler o bus).handlers)
        × (at_priority p (handlers_of t (on t id handler o bus).handlers)
            ≡ at_priority p (handlers_of t bus.handlers ++ registration id handler o ∷ []))
        × (handlers_of u (on t id handler o bus).handlers ≡ handlers_of u bus.handlers)
  unfolding on
  on_lem t id handler o bus p u d =
      let added = handlers_of t bus.handlers ++ registration id handler o ∷ [] in
      (
        rw (handlers_of-set_handlers, eq_refl) (sort-IsSorted added),
        rw (handlers_of-set_handlers, eq_refl) (at_priority-sort p added),
        ground (arith, handlers_of-set_handlers t u (sort added) bus.handlers, eq_iff t u),
      )
