-- ===== src/Pagination/Laws.antt =====
-- Limits stay in their range, and the two ways to compute a cursor agree.

-- The limit that the shared helper returns lies between its bounds, if the default value does.
use synapse_hub.Base.{Option, ℕ, ◌≤◌, none, some, arith, ◌≡◌, refl, List, length}
use synapse_hub.Pagination.{
  Number, normalize_limit, not_finite, negative, natural, bounded_limit, page_cursor, next_cursor,
}
use synapse_hub.Text.{Text}

-- Where the default lies between the bounds, so does the limit that the shared helper returns,
-- whatever number is asked for.
pub normalize_limit_bounds :
    (value : Option Number) (default_value lo hi : ℕ)
    → lo ≤ default_value
    → default_value ≤ hi
    → (lo ≤ normalize_limit value default_value lo hi)
      × (normalize_limit value default_value lo hi ≤ hi)
unfolding normalize_limit
normalize_limit_bounds none d lo hi p q = (p, q)
normalize_limit_bounds (some not_finite) d lo hi p q = (p, q)
normalize_limit_bounds (some negative) d lo hi p q = omega arith
normalize_limit_bounds (some (natural n)) d lo hi p q = omega arith

-- The limit of the messaging service is that of the shared helper with the lower bound 1.
pub bounded_limit-eq-normalize_limit :
    (value : Number) (fallback most : ℕ)
    → bounded_limit value fallback most ≡ normalize_limit (some value) fallback 1 most
unfolding bounded_limit normalize_limit
bounded_limit-eq-normalize_limit not_finite fallback most = refl
bounded_limit-eq-normalize_limit negative fallback most = refl
bounded_limit-eq-normalize_limit (natural n) fallback most = refl

module _ {ℓ} {R : Type ℓ} where
  -- On a page that is no longer than its limit, the cursor that a service computes is the one of
  -- the shared helper.
  pub page_cursor-eq-next_cursor :
      (id : R → Text) (rows : List R) (limit : ℕ)
      → length rows ≤ limit
      → page_cursor id rows limit ≡ next_cursor id rows limit
  unfolding page_cursor next_cursor
  page_cursor-eq-next_cursor id rows limit h = ground arith
