-- ===== src/Paging.antt =====
-- `Paginated` of apps/api/src/modules/books/books.types.ts, the shape of every listing.
use novelhub.Prelude.{ℕ, ◌-◌, ◌*◌, List}

pub record Paginated (A : Type 0) : Type 0 where
  pub items : List A
  pub total : ℕ
  pub page : ℕ
  pub limit : ℕ

-- `skip: (page - 1) * limit`; pages count from 1.
abbrev pub skip_of : ℕ → ℕ → ℕ
skip_of page limit = (page - 1) * limit
