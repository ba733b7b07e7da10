-- ===== src/Auth/Escape.antt =====
-- What `escapeHtml` makes of the name of a user.
use mathlib.Core.List.{append_assoc}
use synapse_hub.Auth.{replace_all, escape_html}
use synapse_hub.Base.{
  ℕ, if◌then◌else◌, ◌==◌, ◌∷◌, [], ◌++◌, Bool, not, ◌||◌, ◌≡◌, refl, Bool-cases, inl, inr, All,
  true, arith, ◌∙◌, ap, All-append,
}
use synapse_hub.Text.{Text, codes}

-- The entity of a character, or the character itself.
abbrev pub entity : ℕ → Text
entity d =
    if d == 38
    then codes "&amp;"
    else (if d == 60
        then codes "&lt;"
        else (if d == 62
            then codes "&gt;"
            else (if d == 34 then codes "&quot;" else (if d == 39 then codes "&#39;" else d ∷ []))))

-- Escaping in one pass.
unfoldable pub escape_each : Text → Text
escape_each [] = []
escape_each (d ∷ s) = entity d ++ escape_each s

-- A character that neither opens nor closes a tag or an attribute.
abbrev pub is_inert : ℕ → Bool
is_inert d = not (d == 60 || d == 62 || d == 34 || d == 39)

replace_all-append :
    (k : ℕ) (by xs ys : Text)
    → replace_all k by (xs ++ ys) ≡ replace_all k by xs ++ replace_all k by ys
unfolding replace_all
replace_all-append k by [] ys = refl
replace_all-append k by (d ∷ xs) ys = elim (Bool-cases (d == k)) [
  | inl hit ↦ rw (
    hit,
    replace_all-append k by xs ys,
    append_assoc by (replace_all k by xs) (replace_all k by ys),
  )
  | inr miss ↦ rw (miss, replace_all-append k by xs ys)
]

escape_html-append : (xs ys : Text) → escape_html (xs ++ ys) ≡ escape_html xs ++ escape_html ys
unfolding escape_html
escape_html-append xs ys = simp replace_all-append

escape_html-one : (d : ℕ) → escape_html (d ∷ []) ≡ entity d
unfolding escape_html replace_all
escape_html-one d = elim (Bool-cases (d == 38)) [
  | inl hit ↦ rw (hit) refl
  | inr h38 ↦ elim (Bool-cases (d == 60)) [
    | inl hit ↦ rw (h38, hit) refl
    | inr h60 ↦ elim (Bool-cases (d == 62)) [
      | inl hit ↦ rw (h38, h60, hit) refl
      | inr h62 ↦ elim (Bool-cases (d == 34)) [
        | inl hit ↦ rw (h38, h60, h62, hit) refl
        | inr h34 ↦ elim (Bool-cases (d == 39)) [
          | inl hit ↦ rw (h38, h60, h62, h34, hit) refl
          | inr h39 ↦ rw (h38, h60, h62, h34, h39) refl
        ]
      ]
    ]
  ]
]

entity-inert : (d : ℕ) → All (λ x. is_inert x ≡ true) (entity d)
entity-inert d = elim (Bool-cases (d == 38)) [
  | inl hit ↦ ground arith
  | inr h38 ↦ elim (Bool-cases (d == 60)) [
    | inl hit ↦ ground arith
    | inr h60 ↦ elim (Bool-cases (d == 62)) [
      | inl hit ↦ ground arith
      | inr h62 ↦ elim (Bool-cases (d == 34)) [
        | inl hit ↦ ground arith
        | inr h34 ↦ elim (Bool-cases (d == 39)) [ inl hit ↦ ground arith | inr h39 ↦ ground arith ]
      ]
    ]
  ]
]

escape_html-nil : (escape_html [] ≡ []) × All (λ d. is_inert d ≡ true) (escape_html [])
unfolding escape_html replace_all
escape_html-nil = (refl, tt)

-- The five replacements of escapeHtml one after the other give the same text as replacing every
-- character once by its entity, and no character of the result is `<`, `>` or a quotation mark of
-- either kind.
pub escape_html_lem :
    (s : Text) → (escape_html s ≡ escape_each s) × All (λ d. is_inert d ≡ true) (escape_html s)
unfolding escape_each
escape_html_lem [] = escape_html-nil
escape_html_lem (d ∷ s) =
    let (same, inert) = escape_html_lem s in
    let split : escape_html (d ∷ s) ≡ entity d ++ escape_html s =
      escape_html-append (d ∷ []) s ∙ ap (λ x. x ++ escape_html s) (escape_html-one d) in
    rw split (
      ap (λ x. entity d ++ x) same,
      All-append (λ d. is_inert d ≡ true) (entity d) (escape_html s) (entity-inert d) inert,
    )
