-- ===== src/Messaging/Numbering/Changes.antt =====
-- The numbering of the channels when messages are changed in their places.

-- A change of a message that keeps its place.
use synapse_hub.Action.Tables.{same_place}
use synapse_hub.Base.{
  ◌≡◌, ℕ, List, Bool, any, [], refl, ◌∷◌, arith, map_where, any-map_where, Bool-cases, inl, ◌∙◌,
  inr, All-map_where,
}
use synapse_hub.Messaging.Sequence.Laws.{
  at_place, HasPrevious, Distinct, Holds, Numbered, All-Holds,
}
use synapse_hub.Schema.{Message}
use synapse_hub.Text.{Text}

abbrev pub KeepsPlace : (Message → Message) → Type 0
KeepsPlace f =
    ((x y : Message) → same_place (f x) y ≡ same_place x y)
    × ((x y : Message) → same_place y (f x) ≡ same_place y x)
    × ((channel_id : Text) (n : ℕ) (x : Message)
        → at_place channel_id n (f x) ≡ at_place channel_id n x)
    × ((rows : List Message) (x : Message) → HasPrevious rows x → HasPrevious rows (f x))

any-same :
    (p q : Message → Bool) (rows : List Message)
    → ((x : Message) → p x ≡ q x)
    → any p rows ≡ any q rows
any-same p q [] same = refl
any-same p q (x ∷ rows) same =
    let here = same x in let rest = any-same p q rows same in ground arith

Distinct-changed :
    (p : Message → Bool) (f : Message → Message) (rows : List Message)
    → KeepsPlace f
    → Distinct rows
    → Distinct (map_where p f rows)
Distinct-changed p f [] keeps h = tt
Distinct-changed p f (x ∷ rows) keeps h =
    let rest = Distinct-changed p f rows keeps h.1 in
    let around = λ (a : Message). any-map_where (same_place a) p f rows (λ y. keeps.1 y a) in
    elim (Bool-cases (p x)) [
      | inl hit ↦
          rw hit
            (around (f x) ∙ any-same (same_place (f x)) (same_place x) rows (keeps.0 x) ∙ h.0, rest)
      | inr miss ↦ rw miss (around x ∙ h.0, rest)
    ]

changed-Holds :
    (p : Message → Bool) (f : Message → Message) (rows : List Message)
    → KeepsPlace f
    → Holds rows (map_where p f rows)
changed-Holds p f rows (a, b, c, d) channel_id n h =
    any-map_where (at_place channel_id n) p f rows (c channel_id n) ∙ h

pub Numbered-changed :
    (p : Message → Bool) (f : Message → Message) (rows : List Message)
    → KeepsPlace f
    → Numbered rows
    → Numbered (map_where p f rows)
Numbered-changed p f rows keeps h =
    let changed = map_where p f rows in
    let (a, b, c, d) = keeps in
    (
      Distinct-changed p f rows keeps h.0,
      All-map_where (HasPrevious changed) p f rows (d changed)
          (All-Holds rows changed rows (changed-Holds p f rows keeps) h.1),
    )
