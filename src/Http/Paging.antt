-- ===== src/Http/Paging.antt =====
-- `validatePagination` of src/middleware/validation.middleware.ts. The numbers are those that `parseInt`
-- answers, with `none` for NaN.
use arcana_cloud_nodejs.Base.{ℕ, zero, suc, Option, none, some, ltb, if◌then◌else◌}
use arcana_cloud_nodejs.Base.Int.{ℤ, pos, negsuc}

-- `req.query` of Express: what is read of it, and an assignment to a property of what is read. In Express 5 the
-- query is parsed anew at each read, so what was assigned is not what is read next.
pub record Query (W : Type 0) : Type 0 where
  pub page : W → Option ℤ
  pub per_page : W → Option ℤ
  pub set_page : ℕ → W → W
  pub set_per_page : ℕ → W → W

-- `parsed || d`, and 1 for what is below 1
unfoldable pub at_least_one : ℕ → Option ℤ → ℕ
at_least_one d none = d
at_least_one d (some (pos zero)) = d
at_least_one d (some (pos (suc n))) = suc n
at_least_one d (some (negsuc n)) = 1

-- the default of the option `maxPerPage`
abbrev max_or_default : Option ℕ → ℕ
max_or_default none = 100
max_or_default (some n) = n

abbrev at_most : ℕ → ℕ → ℕ
at_most most size = if ltb most size then most else size

unfoldable pub validate_pagination : {W : Type 0} → Query W → Option ℕ → W → W
unfolding at_least_one
validate_pagination query max_per_page w =
    let page = at_least_one 1 (query.page w) in
    let per_page = at_most (max_or_default max_per_page) (at_least_one 20 (query.per_page w)) in
    query.set_per_page per_page (query.set_page page w)
