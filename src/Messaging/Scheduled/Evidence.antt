-- ===== src/Messaging/Scheduled/Evidence.antt =====
-- What a scheduled message must carry in each status, and that every id has one row.

-- What a row of a status must carry.
use synapse_hub.Base.{
  List, ◌≡◌, some, any, true, is_some, none, All, [], ◌∷◌, Bool, map_where, Bool-cases, inl, inr,
  All-map_where,
}
use synapse_hub.Messaging.Scheduled.Posting.{is_posting, Stays}
use synapse_hub.Schema.{
  Message, ScheduledMessageStatus, ScheduledMessage, pending, processing, sent, canceled, failed,
  Db,
}
use synapse_hub.Text.{Text, text_eq}

abbrev pub Evidence : List Message → ScheduledMessageStatus → ScheduledMessage → Type 0
Evidence l pending m = Unit
Evidence l processing m = Unit
Evidence l sent m =
    (id : Text) × (m.sent_message_id ≡ some id)
    × (any (is_posting id m) l ≡ true)
    × (is_some m.sent_at ≡ true)
    × (m.error_message ≡ none)
Evidence l canceled m = is_some m.canceled_at ≡ true
Evidence l failed m = is_some m.error_message ≡ true

abbrev pub WellFormed : List Message → ScheduledMessage → Type 0
WellFormed l m = Evidence l m.status m

abbrev pub AllWellFormed : Db → Type 0
AllWellFormed db = All (WellFormed db.messages) db.scheduled

-- Scheduled messages of one id are of one workspace, channel and author.
abbrev pub Alike : ScheduledMessage → ScheduledMessage → Type 0
Alike a b =
    text_eq a.id b.id ≡ true
    → (a.workspace_id ≡ b.workspace_id)
      × (a.channel_id ≡ b.channel_id)
      × (a.author_id ≡ b.author_id)

abbrev pub OneRowEach : List ScheduledMessage → Type 0
OneRowEach l = All (λ a. All (Alike a) l) l

Evidence-Stays :
    (l l' : List Message) (s : ScheduledMessageStatus) (m : ScheduledMessage)
    → Stays l l'
    → Evidence l s m
    → Evidence l' s m
Evidence-Stays l l' pending m stays h = tt
Evidence-Stays l l' processing m stays h = tt
Evidence-Stays l l' sent m stays (id, named, there, time, clean) =
    (id, named, stays id m there, time, clean)
Evidence-Stays l l' canceled m stays h = h
Evidence-Stays l l' failed m stays h = h

pub All-Stays :
    (l l' : List Message) (rows : List ScheduledMessage)
    → Stays l l'
    → All (WellFormed l) rows
    → All (WellFormed l') rows
All-Stays l l' [] stays h = tt
All-Stays l l' (m ∷ rows) stays h =
    (Evidence-Stays l l' m.status m stays h.0, All-Stays l l' rows stays h.1)

-- A change of the rows that pass a test, where what it needs of such a row is known of all.
pub All-changed :
    (P Q : ScheduledMessage → Type 0) (p : ScheduledMessage → Bool)
    (f : ScheduledMessage → ScheduledMessage) (rows : List ScheduledMessage)
    → ((m : ScheduledMessage) → p m ≡ true → Q m → P (f m))
    → All Q rows
    → All P rows
    → All P (map_where p f rows)
All-changed P Q p f [] sets known h = tt
All-changed P Q p f (m ∷ rows) sets known h =
    let rest = All-changed P Q p f rows sets known.1 h.1 in
    elim (Bool-cases (p m)) [
      | inl hit ↦ rw hit (sets m hit known.0, rest)
      | inr miss ↦ rw miss (h.0, rest)
    ]

All-mapped :
    (P Q : ScheduledMessage → Type 0) (rows : List ScheduledMessage)
    → ((m : ScheduledMessage) → P m → Q m)
    → All P rows
    → All Q rows
All-mapped P Q [] gives h = tt
All-mapped P Q (m ∷ rows) gives h = (gives m h.0, All-mapped P Q rows gives h.1)

-- A change that keeps the id, the workspace, the channel and the author.
abbrev pub KeepsKey : (ScheduledMessage → ScheduledMessage) → Type 0
KeepsKey f = (a b : ScheduledMessage) → (Alike a b → Alike a (f b)) × (Alike a b → Alike (f a) b)

pub OneRowEach-changed :
    (p : ScheduledMessage → Bool) (f : ScheduledMessage → ScheduledMessage)
    (rows : List ScheduledMessage)
    → KeepsKey f
    → OneRowEach rows
    → OneRowEach (map_where p f rows)
OneRowEach-changed p f rows keeps one =
    let changed = map_where p f rows in
    let inner =
      All-mapped (λ a. All (Alike a) rows) (λ a. All (Alike a) changed) rows
        (λ a h. All-map_where (Alike a) p f rows (λ b t. (keeps a b).0 t) h) one in
    All-map_where (λ a. All (Alike a) changed) p f rows
      (λ a h. All-mapped (Alike a) (Alike (f a)) changed (λ b t. (keeps a b).1 t) h) inner

-- The rows of a tick: well formed, and one for each id.
abbrev pub Sound : Db → Type 0
Sound db = AllWellFormed db × OneRowEach db.scheduled
