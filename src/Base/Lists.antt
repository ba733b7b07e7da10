-- ===== src/Base/Lists.antt =====
-- Lists measured by native numbers, Boolean quantifiers, and a predicate on every element.
use Prim.Native.Nat.{ℕ, zero, suc, ◌+◌, compare, Ordering}
use mathlib.Core.Path.{◌≡◌, refl, sym, ◌∙◌}
use mathlib.Core.Bool.{Bool, true, false, not, ◌&&◌, ◌||◌}
use mathlib.Core.List.{List, [], ◌∷◌, ◌++◌}
use mathlib.Core.Option.{Option, none, some}
use native.Mathlib.Omega.{arith}

abbrev pub ltb : ℕ → ℕ → Bool
ltb a b = elim (compare a b) [ Ordering.lt ↦ true | _ ↦ false ]

module _ {ℓ} {A : Type ℓ} where
  abbrev pub length : List A → ℕ
  length [] = 0
  length (x ∷ xs) = suc (length xs)

  -- `xs[xs.length - 1]`
  abbrev pub last? : List A → Option A
  last? [] = none
  last? (x ∷ []) = some x
  last? (x ∷ y ∷ xs) = last? (y ∷ xs)

  abbrev pub any : (A → Bool) → List A → Bool
  any p [] = false
  any p (x ∷ xs) = p x || any p xs

  abbrev pub all : (A → Bool) → List A → Bool
  all p [] = true
  all p (x ∷ xs) = p x && all p xs

  -- `xs.filter(p)`
  abbrev pub keep : (A → Bool) → List A → List A
  keep p [] = []
  keep p (x ∷ xs) = elim (p x) [ true ↦ x ∷ keep p xs | false ↦ keep p xs ]

  abbrev pub take : ℕ → List A → List A
  take zero xs = []
  take (suc n) [] = []
  take (suc n) (x ∷ xs) = x ∷ take n xs

  pub length-append : (xs ys : List A) → length (xs ++ ys) ≡ length xs + length ys
  length-append [] ys = omega arith
  length-append (x ∷ xs) ys = omega (arith, length-append xs ys)

  -- How many elements pass a test.
  abbrev pub count : (A → Bool) → List A → ℕ
  count p [] = 0
  count p (x ∷ xs) = elim (p x) [ true ↦ suc (count p xs) | false ↦ count p xs ]

  -- `f` applied to the elements that pass a test.
  abbrev pub map_where : (A → Bool) → (A → A) → List A → List A
  map_where p f [] = []
  map_where p f (x ∷ xs) = elim (p x) [ true ↦ f x | false ↦ x ] ∷ map_where p f xs

module _ {ℓ κ} {A : Type ℓ} (P : A → Type κ) where
  abbrev pub All : List A → Type κ
  All [] = Unit
  All (x ∷ xs) = P x × All xs

  pub All-append : (xs ys : List A) → All xs → All ys → All (xs ++ ys)
  All-append [] ys h k = k
  All-append (x ∷ xs) ys (p, h) k = (p, All-append xs ys h k)

  pub All-map_where :
      (p : A → Bool) (f : A → A) (xs : List A)
      → ((x : A) → P x → P (f x))
      → All xs
      → All (map_where p f xs)
  All-map_where p f [] keeps h = tt
  All-map_where p f (x ∷ xs) keeps (px, h) = (head (p x), All-map_where p f xs keeps h)
    where
      head : (b : Bool) → P (elim b [ true ↦ f x | false ↦ x ])
      head true = keeps x px
      head false = px

module _ {ℓ} {A : Type ℓ} where
  pub map_where_id : (p : A → Bool) (xs : List A) → map_where p (λ x. x) xs ≡ xs
  map_where_id p [] = refl
  map_where_id p (x ∷ xs) = ground (arith, map_where_id p xs)

  -- After a change of the elements that pass a test, those that pass it are as the change left them.
  pub map_where_hit {κ} :
      (Q : A → Type κ) (p : A → Bool) (f : A → A) (xs : List A)
      → ((x : A) → Q (f x))
      → All (λ x. p x ≡ true → Q x) (map_where p f xs)
  map_where_hit Q p f [] sets = tt
  map_where_hit Q p f (x ∷ xs) sets = (head (p x) refl, map_where_hit Q p f xs sets)
    where
      head :
          (b : Bool)
          → p x ≡ b
          → p (elim b [ true ↦ f x | false ↦ x ]) ≡ true
          → Q (elim b [ true ↦ f x | false ↦ x ])
      head true e h = sets x
      head false e h = let clash : true ≡ false = sym h ∙ e in cc clash

  pub any-keep-not : (p : A → Bool) (xs : List A) → any p (keep (λ x. not (p x)) xs) ≡ false
  any-keep-not p [] = refl
  any-keep-not p (x ∷ xs) = ground (arith, any-keep-not p xs)

  pub any-keep-none : (p q : A → Bool) (xs : List A) → any p xs ≡ false → any p (keep q xs) ≡ false
  any-keep-none p q [] h = refl
  any-keep-none p q (x ∷ xs) h = let rest = any-keep-none p q xs (ground arith) in ground arith

  pub any-append : (p : A → Bool) (xs ys : List A) → any p (xs ++ ys) ≡ (any p xs || any p ys)
  any-append p [] ys = refl
  any-append p (x ∷ xs) ys = ground (arith, any-append p xs ys)

  -- A change that keeps a test keeps whether some element passes it.
  pub any-map_where :
      (q p : A → Bool) (f : A → A) (xs : List A)
      → ((x : A) → q (f x) ≡ q x)
      → any q (map_where p f xs) ≡ any q xs
  any-map_where q p f [] same = refl
  any-map_where q p f (x ∷ xs) same = ground (arith, same x, any-map_where q p f xs same)

  -- A change that makes no element pass a test leaves a list with no such element so.
  pub any-map_where-shrinks :
      (q p : A → Bool) (f : A → A) (xs : List A)
      → ((x : A) → q (f x) ≡ true → q x ≡ true)
      → any q xs ≡ false
      → any q (map_where p f xs) ≡ false
  any-map_where-shrinks q p f [] back h = refl
  any-map_where-shrinks q p f (x ∷ xs) back h =
      let rest : any q (map_where p f xs) ≡ false =
        any-map_where-shrinks q p f xs back (ground arith) in
      ground (arith, back x)

  pub count-any : (p : A → Bool) (xs : List A) → any p xs ≡ ltb 0 (count p xs)
  count-any p [] = refl
  count-any p (x ∷ xs) = ground (arith, count-any p xs)

  pub count-append : (p : A → Bool) (xs ys : List A) → count p (xs ++ ys) ≡ count p xs + count p ys
  count-append p [] ys = omega arith
  count-append p (x ∷ xs) ys = ground (arith, count-append p xs ys)

  pub count-map_where :
      (q p : A → Bool) (f : A → A) (xs : List A)
      → ((x : A) → q (f x) ≡ q x)
      → count q (map_where p f xs) ≡ count q xs
  count-map_where q p f [] same = refl
  count-map_where q p f (x ∷ xs) same = ground (arith, same x, count-map_where q p f xs same)
