-- ===== src/Communication/Pool.antt =====
-- The clients of another process, in turns, and the repetition of failed calls: `getNextClient` and
-- `executeWithRetry` of src/communication/impl/http.impl.ts, and `getNextClient` of
-- src/communication/impl/grpc.impl.ts.
pub mod Turns
pub mod Retry
use Prim.Native.Nat.{◌^◌}
use arcana_cloud_nodejs.Base.{
  ℕ, zero, suc, ◌+◌, ◌-◌, ◌*◌, ◌%◌, Option, none, some, List, [], ◌∷◌, length, ltb, if◌then◌else◌,
}
use arcana_cloud_nodejs.Base.Exec.{Outcome, Exec, ok, err, throw, ◌>>=◌}
use arcana_cloud_nodejs.Errors.{Throwable, plain}

-- A communication object and what lies outside it. `current_index` is `none` once it is NaN.
pub record Session (W : Type 0) : Type 0 where
  pub current_index : Option ℕ
  pub world : W

-- `(currentIndex + 1) % clients.length`
abbrev pub next_index : Option ℕ → ℕ → Option ℕ
next_index none n = none
next_index (some i) zero = none
next_index (some i) (suc n) = some ((i + 1) % suc n)

module _ {ℓ} {A : Type ℓ} where
  abbrev pub get_elem? : List A → ℕ → Option A
  get_elem? [] i = none
  get_elem? (x ∷ xs) zero = some x
  get_elem? (x ∷ xs) (suc i) = get_elem? xs i

  -- `clients[currentIndex]`, with `none` for undefined
  abbrev pub client_at : List A → Option ℕ → Option A
  client_at xs none = none
  client_at xs (some i) = get_elem? xs i

module _ {W C : Type 0} (clients : List C) where
  unfoldable pub get_next_client : Exec (Session W) (Option C)
  get_next_client s =
      ok (client_at clients s.current_index)
        (record s { current_index = next_index s.current_index (length clients) })

-- an action on what lies outside, done by the communication object
abbrev pub put_back : {W A : Type 0} → Session W → Outcome W A → Outcome (Session W) A
put_back s (ok a w) = ok a (record s { world = w })
put_back s (err e w) = err e (record s { world = w })

abbrev pub outside : {W A : Type 0} → Exec W A → Exec (Session W) A
outside m s = put_back s (m s.world)

abbrev pub max_retries : ℕ
max_retries = 3

abbrev pub retry_delay : ℕ
retry_delay = 1000

-- `throw lastError`, with `none` for null
abbrev pub last_or_null : Option Throwable → Throwable
last_or_null none = plain "null"
last_or_null (some e) = e

-- A client that is undefined has no method to call.
module _ {W C A : Type 0} (undefined_client : Throwable) (operation : C → Exec W A) where
  abbrev pub call : Option C → Exec W A
  call none = throw undefined_client
  call (some client) = operation client

-- a call of the client whose turn it is
module _ {W C A : Type 0} (undefined_client : Throwable) (clients : List C)
    (operation : C → Exec W A) where
  unfoldable pub attempt_call : Exec (Session W) A
  unfolding get_next_client
  attempt_call = do
    client ← get_next_client clients
    outside (call undefined_client operation client)

-- The timer is that of the world.
module _ {W C A : Type 0} (delay : ℕ → W → W) (undefined_client : Throwable) (clients : List C)
    (operation : C → Exec W A) where
  -- `if (attempt < this.maxRetries - 1) await delay(…)`
  unfoldable pub pause : ℕ → Session W → Session W
  pause attempt s =
      if ltb attempt (max_retries - 1)
      then record s { world = delay (retry_delay * 2 ^ attempt) s.world }
      else s

  -- the loop, of the rounds left, the number of the round and `lastError`
  unfoldable pub attempt_rounds : ℕ → ℕ → Option Throwable → Exec (Session W) A
  unfolding attempt_call pause
  attempt_rounds zero attempt last s = err (last_or_null last) s
  attempt_rounds (suc left) attempt last s =
      elim (attempt_call undefined_client clients operation s) [
        | ok a s' ↦ ok a s'
        | err e s' ↦ attempt_rounds left (suc attempt) (some e) (pause attempt s')
      ]

  unfoldable pub execute_with_retry : Exec (Session W) A
  unfolding attempt_rounds
  execute_with_retry = attempt_rounds max_retries 0 none
