-- ===== src/Events/Store/Counters.antt =====
-- The counters of rate limit hits, while the store has no Redis client.
use arcana_cloud_nodejs.Base.{
  ℕ, zero, suc, ◌+◌, String, ◌≡◌, refl, false, List, [], ◌∷◌, str_eq, eq_iff, eq_refl, arith,
  if◌then◌else◌,
}
use arcana_cloud_nodejs.Base.Exec.{ok, after}
use arcana_cloud_nodejs.Events.Backend.{Backend}
use arcana_cloud_nodejs.Events.Store.{
  Stored, hits_of, set_hits, increment_rate_limit_hit, get_rate_limit_hits,
}

pub hits_of-set_hits :
    (key j : String) (n : ℕ) (m : List (String × ℕ))
    → hits_of j (set_hits key n m) ≡ (if str_eq key j then n else hits_of j m)
hits_of-set_hits key j n [] = refl
hits_of-set_hits key j n ((k, i) ∷ m) =
    ground (arith, hits_of-set_hits key j n m, eq_iff k key, eq_iff k j, eq_iff key j)

module _ {P W : Type 0} (backend : Backend P W) where
  -- the store after `n` hits of one address
  pub hit_times : ℕ → String → Stored W → Stored W
  hit_times zero ip s = s
  hit_times (suc n) ip s = after (increment_rate_limit_hit backend ip (hit_times n ip s))

  abbrev hit : String → Stored W → Stored W
  hit ip s = record s {
    store = record s.store {
      rate_limit_hits =
          set_hits ip (hits_of ip s.store.rate_limit_hits + 1) s.store.rate_limit_hits;
    };
  }

  increment_lem :
      (ip : String) (s : Stored W)
      → s.store.connected ≡ false
      → increment_rate_limit_hit backend ip s
        ≡ ok (hits_of ip s.store.rate_limit_hits + 1) (hit ip s)
  unfolding increment_rate_limit_hit
  increment_lem ip s off = rw off refl

  hits_after :
      (n : ℕ) (ip j : String) (s : Stored W)
      → s.store.connected ≡ false
      → ((hit_times n ip s).store.connected ≡ false)
        × (hits_of j (hit_times n ip s).store.rate_limit_hits
            ≡ (if str_eq ip j then n else 0) + hits_of j s.store.rate_limit_hits)
        × ((hit_times n ip s).world ≡ s.world)
  unfolding hit_times
  hits_after zero ip j s off = (off, ground arith, refl)
  hits_after (suc n) ip j s off =
      let (still, hits, same) = hits_after n ip j s off in
      let m = (hit_times n ip s).store.rate_limit_hits in
      rw (increment_lem ip (hit_times n ip s) still) (
        still,
        ground (
          arith,
          hits,
          hits_after n ip ip s off,
          hits_of-set_hits ip j (hits_of ip m + 1) m,
          eq_iff ip j,
          eq_refl ip,
        ),
        same,
      )

  -- Without Redis, `n` hits of one address raise its count by `n`, leave the count of every other
  -- address as it was, and touch nothing outside the store; reading a count changes nothing.
  pub get-hit_times :
      (n : ℕ) (ip j : String) (s : Stored W)
      → s.store.connected ≡ false
      → (get_rate_limit_hits backend j (hit_times n ip s)
          ≡ ok
              ((if str_eq ip j then n else 0) + hits_of j s.store.rate_limit_hits)
              (hit_times n ip s))
        × ((hit_times n ip s).world ≡ s.world)
  unfolding get_rate_limit_hits
  get-hit_times n ip j s off =
      let (still, hits, same) = hits_after n ip j s off in (ground (arith, still, hits), same)
