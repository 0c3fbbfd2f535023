-- ===== src/Communication/Pool/Retry.antt =====
-- The repetition of failed calls, told without the index of the pool.
use Prim.Native.Nat.{◌^◌}
use arcana_cloud_nodejs.Base.{
  true, false, ℕ, zero, suc, Bool, ◌-◌, ◌*◌, ◌≡◌, refl, Option, none, some, List, [], ◌∷◌, length,
  ltb, if◌then◌else◌,
}
use arcana_cloud_nodejs.Base.Exec.{Outcome, Exec, ok, err}
use arcana_cloud_nodejs.Errors.{Throwable}
use arcana_cloud_nodejs.Communication.Pool.{
  Session, next_index, client_at, get_next_client, max_retries, retry_delay, last_or_null, put_back,
  call, attempt_call, pause, attempt_rounds, execute_with_retry,
}

-- the clients whose turn it is from an index on
abbrev pub chosen : {C : Type 0} → List C → ℕ → Option ℕ → List (Option C)
chosen clients zero i = []
chosen clients (suc k) i = client_at clients i ∷ chosen clients k (next_index i (length clients))

-- what an outcome of the communication object is to the world
abbrev pub seen : {W A : Type 0} → Outcome (Session W) A → Outcome W A
seen (ok a s) = ok a s.world
seen (err e s) = err e s.world

module _ {W C A : Type 0} (delay : ℕ → W → W) (undefined_client : Throwable)
    (operation : C → Exec W A) where
  abbrev pub wait : ℕ → W → W
  wait attempt w = if ltb attempt (max_retries - 1) then delay (retry_delay * 2 ^ attempt) w else w

  -- One client after another is called until one answers; the error is that of the last.
  unfoldable pub relay : List (Option C) → ℕ → Option Throwable → Exec W A
  relay [] attempt last w = err (last_or_null last) w
  relay (client ∷ rest) attempt last w = elim (call undefined_client operation client w) [
    | ok a w' ↦ ok a w'
    | err e w' ↦ relay rest (suc attempt) (some e) (wait attempt w')
  ]

module _ {W C A : Type 0} (delay : ℕ → W → W) (undefined_client : Throwable) (clients : List C)
    (operation : C → Exec W A) where
  at : Option ℕ → W → Session W
  at i w = record { current_index = i; world = w }

  world-at : (i : Option ℕ) (w : W) → (at i w).world ≡ w
  unfolding at
  world-at i w = refl

  pause-at :
      (attempt : ℕ) (i : Option ℕ) (w : W)
      → pause delay undefined_client clients operation attempt (at i w)
        ≡ at i (wait delay undefined_client operation attempt w)
  unfolding pause at
  pause-at attempt i w = split (ltb attempt (max_retries - 1))
    where
      split :
          (b : Bool)
          → (if b then at i (delay (retry_delay * 2 ^ attempt) w) else at i w)
            ≡ at i (if b then delay (retry_delay * 2 ^ attempt) w else w)
      split true = refl
      split false = refl

  attempt_call-at :
      (i : Option ℕ) (w : W)
      → attempt_call undefined_client clients operation (at i w)
        ≡ put_back
            (at (next_index i (length clients)) w)
            (call undefined_client operation (client_at clients i) w)
  unfolding attempt_call get_next_client at
  attempt_call-at i w = refl

  seen-attempt_rounds :
      (left attempt : ℕ) (last : Option Throwable) (i : Option ℕ) (w : W)
      → seen (attempt_rounds delay undefined_client clients operation left attempt last (at i w))
        ≡ relay delay undefined_client operation (chosen clients left i) attempt last w
  unfolding attempt_rounds relay at
  seen-attempt_rounds zero attempt last i w = rw (world-at i w) refl
  seen-attempt_rounds (suc left) attempt last i w =
      split (call undefined_client operation (client_at clients i) w) refl (λ e w'.
        seen-attempt_rounds left (suc attempt) (some e) (next_index i (length clients))
          (wait delay undefined_client operation attempt w'))
    where
      split :
          (o : Outcome W A)
          → call undefined_client operation (client_at clients i) w ≡ o
          → ((e : Throwable) (w' : W)
              → seen (
                  attempt_rounds delay undefined_client clients operation left
                    (suc attempt)
                    (some e)
                    (at
                      (next_index i (length clients))
                      (wait delay undefined_client operation attempt w')))
                ≡ relay delay undefined_client operation
                    (chosen clients left (next_index i (length clients)))
                    (suc attempt)
                    (some e)
                    (wait delay undefined_client operation attempt w'))
          → seen (
              attempt_rounds delay undefined_client clients operation
                (suc left)
                attempt
                last
                (at i w))
            ≡ relay delay undefined_client operation (chosen clients (suc left) i) attempt last w
      split (ok a w') e ih = rw (attempt_call-at i w, relay, e) refl
      split (err x w') e ih =
          rw (attempt_call-at i w, relay, e, pause-at attempt (next_index i (length clients)) w')
            (ih x w')

  -- A call through the pool is a call of the three clients whose turn it is, one after another until one
  -- answers, with a wait of one second after the first failure and of two after the second; if all
  -- fail, the error is that of the last.
  pub execute_with_retry_lem :
      (i : Option ℕ) (w : W)
      → seen (
          execute_with_retry delay undefined_client clients operation
            (record { current_index = i; world = w }))
        ≡ relay delay undefined_client operation (chosen clients 3 i) 0 none w
  unfolding execute_with_retry at
  execute_with_retry_lem i w = seen-attempt_rounds max_retries 0 none i w
