-- ===== src/Pagination.antt =====
-- packages/shared/src/pagination.ts, and the copy of it that each service carries:
-- `normalizeLimit` of messaging.service.ts, and the page that its lists return. A limit comes from
-- `Number(query.limit ?? '50')`, so it may be NaN or infinite, or negative; a fractional limit is
-- left out.
pub mod Laws
use mathlib.Core.Option
use synapse_hub.Base.{
  ℕ, Option, none, some, max, min, List, if◌then◌else◌, ltb, length, last?, ◌==◌, Bool, [], ◌∷◌,
}
use synapse_hub.Text.{Text, text_eq}

pub data Number : Type 0 where
  not_finite : Number
  negative : Number
  natural : ℕ → Number

-- `Math.max(min, Math.min(Number(value), max))`; `undefined` is `none`.
unfoldable pub normalize_limit : Option Number → ℕ → ℕ → ℕ → ℕ
normalize_limit none default_value lo hi = default_value
normalize_limit (some not_finite) default_value lo hi = default_value
normalize_limit (some negative) default_value lo hi = lo
normalize_limit (some (natural n)) default_value lo hi = max lo (min n hi)

-- `private normalizeLimit(limit, fallback, max)`
unfoldable pub bounded_limit : Number → ℕ → ℕ → ℕ
bounded_limit not_finite fallback most = fallback
bounded_limit negative fallback most = 1
bounded_limit (natural n) fallback most = max 1 (min n most)

-- `rows[rows.length - 1]?.id ?? null`, unless the page is short.
unfoldable pub next_cursor {ℓ} : {R : Type ℓ} → (R → Text) → List R → ℕ → Option Text
next_cursor id rows limit = if ltb (length rows) limit then none else Option.map id (last? rows)

pub record Page (A : Type 0) : Type 0 where
  pub rows : List A
  pub cursor : Option Text
  pub limit : ℕ

-- `data.length === boundedLimit ? data[data.length - 1].id : null`
unfoldable pub page_cursor {ℓ} : {R : Type ℓ} → (R → Text) → List R → ℕ → Option Text
page_cursor id rows limit = if length rows == limit then Option.map id (last? rows) else none

-- `...(cursor ? { cursor: { id: cursor }, skip: 1 } : {})`
unfoldable pub cursor_row {ℓ} : {R : Type ℓ} → (R → Text) → Option Text → Option (R → Bool)
cursor_row id none = none
cursor_row id (some []) = none
cursor_row id (some (c ∷ s)) = some (λ r. text_eq (id r) (c ∷ s))
