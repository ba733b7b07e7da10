-- ===== src/Messaging/Sequence/Laws.antt =====
-- The unique key of a message, and the sequence that a new one takes.

-- No two messages of a table hold the same place in the same channel.
use synapse_hub.Action.{World}
use synapse_hub.Action.Tables.{same_place}
use synapse_hub.Base.{
  List, [], ◌∷◌, any, ◌≡◌, false, Bool, ◌++◌, arith, refl, ◌∙◌, ℕ, All, true, ◌≤◌, ◌+◌, Bool-cases,
  inl, inr, Option-cases, ◌<◌, ◌&&◌, ◌==◌, ◌||◌, All-append,
}
use synapse_hub.Messaging.Sequence.{in_channel, latest_sequence}
use synapse_hub.Prisma.Laws.{none-of_any}
use synapse_hub.Schema.{Message, Db}
use synapse_hub.Text.{text_eq_comm, Text, text_eq}

abbrev pub Distinct : List Message → Type 0
Distinct [] = Unit
Distinct (m ∷ rows) = (any (same_place m) rows ≡ false) × Distinct rows

any-append :
    (p : Message → Bool) (rows : List Message) (r : Message)
    → any p rows ≡ false
    → p r ≡ false
    → any p (rows ++ r ∷ []) ≡ false
any-append p [] r h k = rw k
any-append p (x ∷ rows) r h k = ground (arith, any-append p rows r)

same_place_comm : (a b : Message) → same_place a b ≡ same_place b a
same_place_comm a b = ground (arith, text_eq_comm a.channel_id b.channel_id)

pub Distinct-append :
    (rows : List Message) (r : Message)
    → Distinct rows
    → any (same_place r) rows ≡ false
    → Distinct (rows ++ r ∷ [])
Distinct-append [] r h k = (refl, tt)
Distinct-append (x ∷ rows) r h k = (
  any-append (same_place x) rows r h.0 (same_place_comm x r ∙ (ground arith)),
  Distinct-append rows r h.1 (ground arith),
)

pub no_clash :
    (r : Message) (n : ℕ) (rows : List Message)
    → All (λ x. in_channel r.channel_id x ≡ true → x.sequence ≤ n) rows
    → r.sequence ≡ n + 1
    → any (same_place r) rows ≡ false
no_clash r n [] h e = refl
no_clash r n (x ∷ rows) h e = elim (Bool-cases (in_channel r.channel_id x)) [
  | inl same ↦ let low : x.sequence ≤ n = h.0 same in ground (arith, no_clash r n rows h.1 e)
  | inr other ↦ ground (arith, text_eq_comm r.channel_id x.channel_id, no_clash r n rows h.1 e)
]

vacuous :
    (p : Message → Bool) (n : ℕ) (rows : List Message)
    → All (λ x. p x ≡ false) rows
    → All (λ x. p x ≡ true → x.sequence ≤ n) rows
vacuous p n [] h = tt
vacuous p n (x ∷ rows) h = ((λ e. ground arith), vacuous p n rows h.1)

module _ ⦃w : World⦄ where
  -- No message of a channel lies above the latest sequence.
  pub latest_sequence-bounds :
      (channel_id : Text) (db : Db)
      → All
          (λ x. in_channel channel_id x ≡ true → x.sequence ≤ latest_sequence channel_id db)
          db.messages
  latest_sequence-bounds c db =
      elim (Option-cases (w.prisma.find_greatest (in_channel c) (λ m. m.sequence) db.messages)) [
        | inl empty ↦
            vacuous (in_channel c) (latest_sequence c db) db.messages
              (w.prisma.find_greatest_none (in_channel c) (λ m. m.sequence) db.messages empty)
        | inr (m, found) ↦
            rw found
              (w.prisma.find_greatest_some (in_channel c) (λ m. m.sequence) db.messages m found).1
      ]

pub Below-suc :
    (p : Message → Bool) (n : ℕ) (rows : List Message)
    → All (λ x. p x ≡ true → x.sequence ≤ n) rows
    → All (λ x. p x ≡ true → x.sequence < n + 1) rows
Below-suc p n [] h = tt
Below-suc p n (x ∷ rows) h =
    ((λ e. let low : x.sequence ≤ n = h.0 e in omega arith), Below-suc p n rows h.1)

-- The message stands at a place of a channel.
abbrev pub at_place : Text → ℕ → Message → Bool
at_place channel_id n x = text_eq x.channel_id channel_id && x.sequence == n

-- The sequence of a message is 1, or the one below it is held in its channel.
abbrev pub HasPrevious : List Message → Message → Type 0
HasPrevious rows m =
    (n : ℕ) × (m.sequence ≡ n + 1) × ((n == 0 || any (at_place m.channel_id n) rows) ≡ true)

-- The sequences of every channel are 1, 2, and so on up to the number of its messages: none is
-- taken twice and none is left out.
abbrev pub Numbered : List Message → Type 0
Numbered rows = Distinct rows × All (HasPrevious rows) rows

-- The places that are held in one table are held in another.
abbrev pub Holds : List Message → List Message → Type 0
Holds rows others =
    (channel_id : Text) (n : ℕ)
    → any (at_place channel_id n) rows ≡ true
    → any (at_place channel_id n) others ≡ true

HasPrevious-Holds :
    (rows others : List Message) (m : Message)
    → Holds rows others
    → HasPrevious rows m
    → HasPrevious others m
HasPrevious-Holds rows others m more (n, e, h) =
    let there = more m.channel_id n in
    (
      n,
      e,
      elim (Bool-cases (any (at_place m.channel_id n) rows)) [
        | inl held ↦ let still = there held in ground arith
        | inr free ↦ ground arith
      ],
    )

pub All-Holds :
    (rows others l : List Message)
    → Holds rows others
    → All (HasPrevious rows) l
    → All (HasPrevious others) l
All-Holds rows others [] more h = tt
All-Holds rows others (m ∷ l) more h =
    (HasPrevious-Holds rows others m more h.0, All-Holds rows others l more h.1)

append-Holds : (rows : List Message) (r : Message) → Holds rows (rows ++ r ∷ [])
append-Holds [] r channel_id n h = cc h
append-Holds (x ∷ rows) r channel_id n h =
    let rest = append-Holds rows r channel_id n in
    elim (Bool-cases (at_place channel_id n x)) [
      | inl here ↦ ground arith
      | inr other ↦ let there = rest (ground arith) in ground arith
    ]

module _ ⦃w : World⦄ where
  -- The latest sequence of a channel is held in it, where the channel has a message.
  latest-held :
      (channel_id : Text) (db : Db)
      → (latest_sequence channel_id db == 0
          || any (at_place channel_id (latest_sequence channel_id db)) db.messages)
        ≡ true
  latest-held c db =
      elim (Option-cases (w.prisma.find_greatest (in_channel c) (λ m. m.sequence) db.messages)) [
        | inl empty ↦ rw empty refl
        | inr (m, found) ↦ rw found (elim (Bool-cases (any (at_place c m.sequence) db.messages)) [
          | inl held ↦ ground arith
          | inr free ↦
              let missed : at_place c m.sequence m ≡ false =
                w.prisma.find_greatest_row (in_channel c) (λ x. x.sequence) db.messages m found
                  (λ x. at_place c m.sequence x ≡ false)
                  (none-of_any w.prisma (at_place c m.sequence) db.messages free) in
              let own =
                (w.prisma.find_greatest_some (in_channel c) (λ x. x.sequence) db.messages m
                  found).0 in
              ground arith
        ])
      ]

  -- A message above the latest that was read keeps the numbering, as long as nobody has taken its
  -- place and the rows that were read still hold theirs.
  pub Numbered-append :
      (db : Db) (rows : List Message) (r : Message)
      → Numbered rows
      → Holds db.messages rows
      → r.sequence ≡ latest_sequence r.channel_id db + 1
      → any (same_place r) rows ≡ false
      → Numbered (rows ++ r ∷ [])
  Numbered-append db rows r h more e free =
      let now_held = append-Holds rows r in
      let n = latest_sequence r.channel_id db in
      let held = latest-held r.channel_id db in
      let kept : HasPrevious rows r = (
        n,
        e,
        elim (Bool-cases (any (at_place r.channel_id n) db.messages)) [
          | inl there ↦ let still = more r.channel_id n there in ground arith
          | inr not_there ↦ ground arith
        ],
      ) in
      (
        Distinct-append rows r h.0 free,
        All-append (HasPrevious (rows ++ r ∷ [])) rows (r ∷ [])
            (All-Holds rows (rows ++ r ∷ []) rows now_held h.1)
            (HasPrevious-Holds rows (rows ++ r ∷ []) r now_held kept, tt),
      )
