-- ===== src/Events/Bus/Removal.antt =====
-- `off` undoes `on`.
use arcana_cloud_nodejs.Base.{
  ℕ, String, ◌≡◌, refl, ◌∙◌, ap, false, List, [], ◌∷◌, ◌++◌, ◌==◌, str_eq, eq_iff, arith, inl, inr,
  Bool-cases, if◌then◌else◌,
}
use arcana_cloud_nodejs.Base.Int.{ltb_ℤ}
use arcana_cloud_nodejs.Base.Exec.{Exec}
use arcana_cloud_nodejs.Events.Domain.{DomainEvent}
use arcana_cloud_nodejs.Events.Bus.{
  HandlerRegistration, EventBus, HandlerOptions, registration, insert_sorted, sort, handlers_of, on,
  remove_handler, remove_at, off,
}
use arcana_cloud_nodejs.Events.Bus.Order.{
  Leads, IsSorted, sort-IsSorted, Leads-trans, handlers_of-set_handlers,
}

module _ {P W : Type 0} where
  -- no registration is of this handler
  abbrev pub Fresh : ℕ → List (HandlerRegistration P W) → Type 0
  Fresh id [] = Unit
  Fresh id (x ∷ xs) = ((x.handler_id == id) ≡ false) × Fresh id xs

  insert_sorted-first :
      (x : HandlerRegistration P W) (xs : List (HandlerRegistration P W))
      → Leads x xs
      → insert_sorted x xs ≡ x ∷ xs
  unfolding insert_sorted
  insert_sorted-first x [] l = refl
  insert_sorted-first x (y ∷ ys) (h, l) = rw h refl

  sort_of_IsSorted : (xs : List (HandlerRegistration P W)) → IsSorted xs → sort xs ≡ xs
  unfolding sort
  sort_of_IsSorted [] s = refl
  sort_of_IsSorted (x ∷ xs) (l, s) = rw (sort_of_IsSorted xs s, insert_sorted-first x xs l) refl

  remove_handler-insert_sorted :
      (id : ℕ) (x : HandlerRegistration P W) (ys : List (HandlerRegistration P W))
      → (x.handler_id == id) ≡ false
      → IsSorted ys
      → remove_handler id (insert_sorted x ys) ≡ insert_sorted x (remove_handler id ys)
  unfolding remove_handler insert_sorted
  remove_handler-insert_sorted id x [] d s = rw d refl
  remove_handler-insert_sorted id x (y ∷ ys) d (l, s) =
      elim (Bool-cases (ltb_ℤ x.priority y.priority)) [
        | inl less ↦ ground (arith, remove_handler-insert_sorted id x ys d s)
        | inr more ↦ ground (arith, insert_sorted-first x ys (Leads-trans x y ys more l))
      ]

  remove_handler-insert_sorted_self :
      (r : HandlerRegistration P W) (ys : List (HandlerRegistration P W))
      → Fresh r.handler_id ys
      → remove_handler r.handler_id (insert_sorted r ys) ≡ ys
  unfolding remove_handler insert_sorted
  remove_handler-insert_sorted_self r [] f = ground arith
  remove_handler-insert_sorted_self r (y ∷ ys) (d, f) =
      ground (arith, remove_handler-insert_sorted_self r ys f)

  remove_handler-sort :
      (r : HandlerRegistration P W) (xs : List (HandlerRegistration P W))
      → Fresh r.handler_id xs
      → remove_handler r.handler_id (sort (xs ++ r ∷ [])) ≡ sort xs
  unfolding sort
  remove_handler-sort r [] f = remove_handler-insert_sorted_self r [] tt
  remove_handler-sort r (x ∷ xs) (d, f) =
      remove_handler-insert_sorted r.handler_id x (sort (xs ++ r ∷ [])) d
        (sort-IsSorted (xs ++ r ∷ []))
      ∙ ap (insert_sorted x) (remove_handler-sort r xs f)

  handlers_of-remove_at :
      (t u : String) (id : ℕ) (m : List (String × List (HandlerRegistration P W)))
      → handlers_of u (remove_at t id m)
        ≡ (if str_eq t u then remove_handler id (handlers_of u m) else handlers_of u m)
  unfolding handlers_of remove_at remove_handler
  handlers_of-remove_at t u id [] = ground arith
  handlers_of-remove_at t u id ((v, hs) ∷ m) =
      ground (arith, handlers_of-remove_at t u id m, eq_iff v t, eq_iff v u, eq_iff t u)

  -- `off` after `on` gives every event type the handlers that it had before, if those of the type
  -- were in order and the handler was not among them.
  pub off-on :
      (t u : String) (id : ℕ) (handler : DomainEvent P → Exec W (Unit {0})) (o : HandlerOptions)
      (bus : EventBus P W)
      → IsSorted (handlers_of t bus.handlers)
      → Fresh id (handlers_of t bus.handlers)
      → handlers_of u (off t id (on t id handler o bus)).handlers ≡ handlers_of u bus.handlers
  unfolding on off
  off-on t u id handler o bus s f =
      let r = registration id handler o in
      let old = handlers_of t bus.handlers in
      ground (
        arith,
        handlers_of-remove_at t u id (on t id handler o bus).handlers,
        handlers_of-set_handlers t u (sort (old ++ r ∷ [])) bus.handlers,
        remove_handler-sort r old f,
        sort_of_IsSorted old s,
        eq_iff t u,
      )
