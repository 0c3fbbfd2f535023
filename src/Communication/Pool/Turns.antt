-- ===== src/Communication/Pool/Turns.antt =====
-- The turns of the clients of a pool.
use native.Mathlib.Nat.{mod-eq_of_lt, mod_self}
use mathlib.Core.List.{map-append}
use arcana_cloud_nodejs.Base.{
  ℕ, zero, suc, ◌+◌, ◌-◌, ◌≤◌, ◌<◌, ◌≡◌, ◌≢◌, refl, ◌∙◌, sym, ap, Option, some, List, [], ◌∷◌, ◌++◌,
  length, take, drop, map, arith, length-drop,
}
use arcana_cloud_nodejs.Base.Exec.{Exec, ok, pure, ◌>>=◌}
use arcana_cloud_nodejs.Communication.Pool.{Session, next_index, get_elem?, get_next_client}

-- the clients that `k` calls of `getNextClient` answer
unfoldable pub turns : {W C : Type 0} → List C → ℕ → Exec (Session W) (List (Option C))
turns clients zero s = ok [] s
turns clients (suc k) s =
    (do client ← get_next_client clients; rest ← turns clients k; pure (client ∷ rest)) s

pub next_index-step : (i n : ℕ) → suc i < n → next_index (some i) n ≡ some (suc i)
next_index-step i zero h = elim h [ ]
next_index-step i (suc n) h =
    let small : i + 1 < suc n = omega arith in ap some (rw (mod-eq_of_lt small) (omega arith))

pub next_index-wrap : (i n : ℕ) → suc i ≡ n → next_index (some i) n ≡ some 0
next_index-wrap i zero h = let unequal : suc i ≢ 0 = omega arith in elim (unequal h) [ ]
next_index-wrap i (suc n) h =
    let last : i + 1 ≡ suc n = omega arith in ap some (rw last (mod_self (suc n)))

module _ {C : Type 0} where
  get_elem?-drop :
      (xs : List C) (i : ℕ) {c : C} {cs : List C}
      → drop i xs ≡ c ∷ cs
      → (get_elem? xs i ≡ some c) × (drop (suc i) xs ≡ cs) × (i + length (c ∷ cs) ≡ length xs)
  get_elem?-drop [] zero h = cc h
  get_elem?-drop [] (suc i) h = cc h
  get_elem?-drop (x ∷ xs) zero {cs = cs} h =
      let rest : xs ≡ cs = cc h in (cc h, rest, rw rest (omega arith))
  get_elem?-drop (x ∷ xs) (suc i) h =
      let (found, rest, len) = get_elem?-drop xs i h in (found, rest, omega (arith, len))

module _ {W C : Type 0} (clients : List C) (w : W) where
  at : ℕ → Session W
  at i = record { current_index = some i; world = w }

  get_next_client-drop :
      (i j : ℕ) {c : C} {cs : List C}
      → drop i clients ≡ c ∷ cs
      → next_index (some i) (length clients) ≡ some j
      → get_next_client clients (at i) ≡ ok (some c) (at j)
  unfolding get_next_client at
  get_next_client-drop i j h step = rw ((get_elem?-drop clients i h).0, step) refl

  turns-suc :
      (k : ℕ) (s : Session W) {t u : Session W} {c : Option C} {cs : List (Option C)}
      → get_next_client clients s ≡ ok c t
      → turns clients k t ≡ ok cs u
      → turns clients (suc k) s ≡ ok (c ∷ cs) u
  unfolding turns
  turns-suc k s first rest = rw (◌>>=◌, first, ◌>>=◌, rest) refl

  -- the turns up to the end of the list, which go on with the first client
  turns-drop :
      (cs : List C) (i m : ℕ) {c : C} {ds : List (Option C)} {u : Session W}
      → drop i clients ≡ c ∷ cs
      → turns clients m (at 0) ≡ ok ds u
      → turns clients (length (c ∷ cs) + m) (at i) ≡ ok (map some (c ∷ cs) ++ ds) u
  turns-drop [] i m h more =
      let one : 1 + m ≡ suc m = omega arith in
      rw one (
        turns-suc m (at i)
          (get_next_client-drop i 0 h
            (next_index-wrap i (length clients) (omega (arith, (get_elem?-drop clients i h).2))))
          more)
  turns-drop (d ∷ ds) i m h more =
      let (_, rest, len) = get_elem?-drop clients i h in
      let one_more : suc (length (d ∷ ds)) + m ≡ suc (length (d ∷ ds) + m) = omega arith in
      rw one_more (
        turns-suc (length (d ∷ ds) + m) (at i)
          (get_next_client-drop i (suc i) h
            (next_index-step i (length clients) (omega (arith, len))))
          (turns-drop ds (suc i) m rest more))

  drop-cases : (i : ℕ) → i < length clients → (c : C) × (cs : List C) × (drop i clients ≡ c ∷ cs)
  drop-cases i h = split (drop i clients) refl
    where
      split :
          (xs : List C) → drop i clients ≡ xs → (c : C) × (cs : List C) × (drop i clients ≡ c ∷ cs)
      split [] e =
          let none_left : 0 ≡ length clients - i = sym (ap length e) ∙ length-drop i clients in
          let absurd : 1 ≤ 0 = omega arith in elim absurd [ ]
      split (c ∷ cs) e = (c, cs, e)

  -- the turns before that
  turns-take :
      (k i : ℕ)
      → i + k < length clients
      → turns clients k (at i) ≡ ok (map some (take k (drop i clients))) (at (i + k))
  unfolding turns
  turns-take zero i h = ap (λ j. ok [] (at j)) (omega arith)
  turns-take (suc k) i h =
      let (c, cs, e) = drop-cases i (omega arith) in
      let (_, rest, len) = get_elem?-drop clients i e in
      let moved : suc i + k ≡ i + suc k = omega arith in
      rw (e, sym rest, sym moved)
        (turns-suc k (at i)
          (get_next_client-drop i (suc i) e (next_index-step i (length clients) (omega arith)))
          (turns-take k (suc i) (omega arith)))

  -- Beginning at any client of a pool, as many calls of `getNextClient` as there are clients answer each
  -- of them once, in the order of the list from that client on and then from its start; the next
  -- call begins there again.
  pub turns_lem :
      (i : ℕ)
      → i < length clients
      → turns clients (length clients) (record { current_index = some i; world = w })
        ≡ ok
            (map some (drop i clients ++ take i clients))
            (record { current_index = some i; world = w })
  unfolding at
  turns_lem i h =
      let (c, cs, e) = drop-cases i h in
      let count : length clients ≡ length (c ∷ cs) + i =
        omega (arith, ap length e, length-drop i clients) in
      let moved : 0 + i ≡ i = omega arith in
      let start : turns clients i (at 0) ≡ ok (map some (take i clients)) (at i) =
        turns-take i 0 (omega arith) ∙ ap (λ j. ok (map some (take i clients)) (at j)) moved in
      rw (count, e, map-append {B = Option C} some (c ∷ cs) (take i clients))
        (turns-drop cs i i e start)
