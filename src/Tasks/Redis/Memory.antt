-- ===== src/Tasks/Redis/Memory.antt =====
-- A server in memory that meets `IsRedis`, for the witnesses.
use arcana_cloud_nodejs.Base.{
  ℕ, ◌+◌, String, ◌≡◌, refl, Bool, true, false, Option, none, some, arith, if◌then◌else◌, str_eq,
  eq_refl,
}
use arcana_cloud_nodejs.Tasks.Redis.Interface.{Redis, IsRedis, value_of, expire}

pub record Server : Type 0 where
  pub time : ℕ
  pub stored : String → Option (String × ℕ)

abbrev write : String → Option (String × ℕ) → Server → Server
write k e s = record s { stored = λ j. if str_eq k j then e else s.stored j }

abbrev live : String → Server → Option (String × ℕ)
live k s = expire s.time (s.stored k)

abbrev set_absent : String → String → ℕ → Server → Option (String × ℕ) → Bool × Server
set_absent k v t s none = (true, write k (some (v, s.time + t)) s)
set_absent k v t s (some e) = (false, s)

abbrev del_present : String → Server → Option (String × ℕ) → ℕ × Server
del_present k s none = (0, s)
del_present k s (some e) = (1, write k none s)

abbrev pexpire_present : String → ℕ → Server → Option (String × ℕ) → ℕ × Server
pexpire_present k t s none = (0, s)
pexpire_present k t s (some (v, e)) = (1, write k (some (v, s.time + t)) s)

abbrev pub memory : Redis Server
memory = record {
  set_px_nx = λ k v t s. set_absent k v t s (live k s);
  get = λ k s. value_of (live k s);
  del = λ k s. del_present k s (live k s);
  pexpire = λ k t s. pexpire_present k t s (live k s);
  wait = λ d s. record s { time = s.time + d };
  clock = λ s. s.time;
  entry = live;
}

abbrev pub fresh : Server
fresh = record { time = 0; stored = λ k. none }

live-write :
    (k : String) (e : Option (String × ℕ)) (s : Server) → live k (write k e s) ≡ expire s.time e
live-write k e s = simp eq_refl

expire_later :
    (now d : ℕ) (e : Option (String × ℕ)) → expire (now + d) e ≡ expire (now + d) (expire now e)
expire_later now d none = refl
expire_later now d (some (v, e)) = ground arith

pub memory-IsRedis : IsRedis memory
memory-IsRedis = record {
  get-entry = λ k r. refl;
  set-absent = λ k v t r p h. rw h (refl, rw live-write (ground arith), refl);
  set-present = λ k v t r {e} h. rw h refl;
  del-present = λ k r {e} h. rw h (refl, rw live-write refl, refl);
  pexpire-present = λ k v e t r p h. rw h (refl, rw live-write (ground arith), refl);
  clock-wait = λ d r. refl;
  entry-wait = λ k d r. expire_later r.time d (r.stored k);
}
