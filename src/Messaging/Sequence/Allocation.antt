-- ===== src/Messaging/Sequence/Allocation.antt =====
-- What `createMessageWithSequence` guarantees: alone, and against clients that write in between.

use mathlib.Core.Path.{subst}
use synapse_hub.Action.{World, ok, err, p2002, Reply, bad_request, is_ok}
use synapse_hub.Action.Tables.{same_place, sequence_key}
use synapse_hub.Base.{
  ◌+◌, ℕ, ◌++◌, ◌∷◌, [], any, ◌≡◌, false, arith, true, suc, List, zero, refl, Bool-cases, inl, inr,
  All, ◌<◌, ◌∙◌,
}
use synapse_hub.Messaging.Sequence.{
  MessageInput, message_row, latest_sequence, try_create, create_rounds,
  create_message_with_sequence, in_channel,
}
use synapse_hub.Messaging.Sequence.Laws.{
  Numbered, Holds, Numbered-append, latest_sequence-bounds, no_clash, Below-suc,
}
use synapse_hub.Schema.{Db, Message}

module _ ⦃w : World⦄ where
  -- The place that a round is about to take.
  abbrev pub candidate : MessageInput → Db → Message
  candidate input db =
      message_row input (w.uuid db.issued) (latest_sequence input.channel_id db + 1) w.now

  -- The database after a round that succeeds.
  abbrev pub with_message : ℕ → MessageInput → Db → Db
  with_message attempt input db = record db {
    messages = w.rival attempt db.messages ++ candidate input db ∷ [];
    issued = db.issued + 1;
  }

  -- The database after a round that meets a conflict.
  abbrev pub without_message : ℕ → Db → Db
  without_message attempt db = record db {
    messages = w.rival attempt db.messages;
    issued = db.issued + 1;
  }

  pub try_create_free :
      (attempt : ℕ) (input : MessageInput) (db : Db)
      → any (same_place (candidate input db)) (w.rival attempt db.messages) ≡ false
      → try_create attempt input db ≡ (ok (candidate input db), with_message attempt input db)
  unfolding try_create
  try_create_free attempt input db free = ground (
    arith,
    w.prisma.create_lem (sequence_key ∷ []) (candidate input db) (w.rival attempt db.messages),
  )

  pub try_create_taken :
      (attempt : ℕ) (input : MessageInput) (db : Db)
      → any (same_place (candidate input db)) (w.rival attempt db.messages) ≡ true
      → try_create attempt input db ≡ (err (p2002 sequence_key.target), without_message attempt db)
  unfolding try_create
  try_create_taken attempt input db taken = ground (
    arith,
    w.prisma.create_lem (sequence_key ∷ []) (candidate input db) (w.rival attempt db.messages),
  )

  pub create_rounds_taken :
      (rounds attempt : ℕ) (input : MessageInput) (db : Db)
      → any (same_place (candidate input db)) (w.rival attempt db.messages) ≡ true
      → create_rounds (suc rounds) attempt input db
        ≡ create_rounds rounds (suc attempt) input (without_message attempt db)
  unfolding create_rounds
  create_rounds_taken rounds attempt input db taken = rw (try_create_taken attempt input db taken)

  pub create_rounds_free :
      (rounds attempt : ℕ) (input : MessageInput) (db : Db)
      → any (same_place (candidate input db)) (w.rival attempt db.messages) ≡ false
      → create_rounds (suc rounds) attempt input db
        ≡ (ok (candidate input db), with_message attempt input db)
  unfolding create_rounds
  create_rounds_free rounds attempt input db free = rw (try_create_free attempt input db free)

  -- What a call may have done: a new message with the input's fields stands last in the table, at
  -- a place that no other message of the channel holds; or all the rounds met a conflict.
  abbrev pub Allocated : MessageInput → Reply Message × Db → Type 0
  Allocated input (ok m, db') =
      (rows : List Message) × (db'.messages ≡ rows ++ m ∷ [])
      × (any (same_place m) rows ≡ false)
      × (m.workspace_id ≡ input.workspace_id)
      × (m.channel_id ≡ input.channel_id)
      × (m.author_id ≡ input.author_id)
      × (m.content ≡ input.content)
      × (m.thread_id ≡ input.thread_id)
      × (m.parent_message_id ≡ input.parent_message_id)
  Allocated input (err e, db') = e ≡ bad_request "Unable to allocate message sequence"

  create_rounds-Allocated :
      (rounds attempt : ℕ) (input : MessageInput) (db : Db)
      → Allocated input (create_rounds rounds attempt input db)
  create_rounds-Allocated zero attempt input db = unfold create_rounds in refl
  create_rounds-Allocated (suc rounds) attempt input db =
      elim (Bool-cases (any (same_place (candidate input db)) (w.rival attempt db.messages))) [
        | inl taken ↦
            rw (create_rounds_taken rounds attempt input db taken)
              (create_rounds-Allocated rounds (suc attempt) input (without_message attempt db))
        | inr free ↦
            rw (create_rounds_free rounds attempt input db free)
              (w.rival attempt db.messages, refl, free, refl, refl, refl, refl, refl, refl)
      ]

  -- Whatever the other clients do between the reading and the write of each round, a call either
  -- adds one message with the input's fields, at a place of its channel that no other message
  -- holds, or throws "Unable to allocate message sequence": a violated key never reaches the
  -- caller.
  pub create_message-Allocated :
      (input : MessageInput) (db : Db) → Allocated input (create_message_with_sequence input db)
  unfolding create_message_with_sequence
  create_message-Allocated input db = create_rounds-Allocated 6 0 input db

  create_rounds-Numbered :
      (rounds attempt : ℕ) (input : MessageInput) (db : Db)
      → ((k : ℕ) (l : List Message) → Numbered l → Numbered (w.rival k l))
      → ((k : ℕ) (l : List Message) → Holds l (w.rival k l))
      → Numbered db.messages
      → Numbered (create_rounds rounds attempt input db).1.messages
  create_rounds-Numbered zero attempt input db lawful more h = unfold create_rounds in h
  create_rounds-Numbered (suc rounds) attempt input db lawful more h =
      let h' = lawful attempt db.messages h in
      elim (Bool-cases (any (same_place (candidate input db)) (w.rival attempt db.messages))) [
        | inl taken ↦ rw (create_rounds_taken rounds attempt input db taken) (
            create_rounds-Numbered rounds (suc attempt) input (without_message attempt db) lawful
              more h')
        | inr free ↦ rw (create_rounds_free rounds attempt input db free) (
            Numbered-append db (w.rival attempt db.messages) (candidate input db) h'
              (more attempt db.messages) refl free)
      ]

  -- Where the sequences of every channel are 1, 2 and so on without a gap or a repetition, they
  -- are so after a call too, whether it returns or throws, as long as the other clients, whatever
  -- they write between the reading and the write of each attempt, keep the channels so numbered
  -- and remove no place that is held.
  pub create_message-Numbered :
      (input : MessageInput) (db : Db)
      → ((k : ℕ) (l : List Message) → Numbered l → Numbered (w.rival k l))
      → ((k : ℕ) (l : List Message) → Holds l (w.rival k l))
      → Numbered db.messages
      → Numbered (create_message_with_sequence input db).1.messages
  unfolding create_message_with_sequence
  create_message-Numbered input db lawful more h = create_rounds-Numbered 6 0 input db lawful more h

  -- Where no other client writes before the first attempt's write, the first round succeeds: the
  -- message is added with the next id, one above the latest sequence of its channel, which no
  -- message of the channel exceeds; nothing else changes.
  pub create_message_alone :
      (input : MessageInput) (db : Db)
      → w.rival 0 db.messages ≡ db.messages
      → (create_message_with_sequence input db ≡ (
        ok (candidate input db),
        record db { messages = db.messages ++ candidate input db ∷ []; issued = db.issued + 1 },
      ))
        × All
            (λ x. in_channel input.channel_id x ≡ true → x.sequence < (candidate input db).sequence)
            db.messages
  unfolding create_message_with_sequence
  create_message_alone input db quiet =
      let bounds = latest_sequence-bounds input.channel_id db in
      let free =
        no_clash (candidate input db) (latest_sequence input.channel_id db) db.messages bounds
          refl in
      (
        create_rounds_free 5 0 input db (rw quiet free) ∙ rw quiet,
        Below-suc (in_channel input.channel_id) (latest_sequence input.channel_id db) db.messages
            bounds,
      )

  create_rounds_exhausted :
      (rounds attempt : ℕ) (input : MessageInput) (db : Db)
      → ((k : ℕ) (x : Db) → any (same_place (candidate input x)) (w.rival k x.messages) ≡ true)
      → (create_rounds rounds attempt input db).0
        ≡ err (bad_request "Unable to allocate message sequence")
  create_rounds_exhausted zero attempt input db steals = unfold create_rounds in refl
  create_rounds_exhausted (suc rounds) attempt input db steals =
      rw (create_rounds_taken rounds attempt input db (steals attempt db))
        (create_rounds_exhausted rounds (suc attempt) input (without_message attempt db) steals)

  -- If another client takes the very sequence in every round, the call gives up with "Unable to
  -- allocate message sequence".
  pub create_message_exhausted :
      (input : MessageInput) (db : Db)
      → ((k : ℕ) (x : Db) → any (same_place (candidate input x)) (w.rival k x.messages) ≡ true)
      → (create_message_with_sequence input db).0
        ≡ err (bad_request "Unable to allocate message sequence")
  unfolding create_message_with_sequence
  create_message_exhausted input db steals = create_rounds_exhausted 6 0 input db steals

  create_rounds_live :
      (rounds attempt j : ℕ) (input : MessageInput) (db : Db)
      → j < rounds
      → ((x : Db) → any (same_place (candidate input x)) (w.rival (attempt + j) x.messages) ≡ false)
      → is_ok (create_rounds rounds attempt input db).0 ≡ true
  create_rounds_live zero attempt j input db less free =
      let clash : zero ≡ suc zero = omega arith in cc clash
  create_rounds_live (suc rounds) attempt zero input db less free =
      let here : attempt + zero ≡ attempt = omega arith in
      let now_free : any (same_place (candidate input db)) (w.rival attempt db.messages) ≡ false =
        subst (λ n. any (same_place (candidate input db)) (w.rival n db.messages) ≡ false) here
          (free db) in
      rw (create_rounds_free rounds attempt input db now_free)
  create_rounds_live (suc rounds) attempt (suc j) input db less free =
      let there : attempt + suc j ≡ suc attempt + j = omega arith in
      let rest =
        create_rounds_live rounds (suc attempt) j input (without_message attempt db) (omega arith)
          (λ x.
            subst (λ n. any (same_place (candidate input x)) (w.rival n x.messages) ≡ false) there
              (free x)) in
      elim (Bool-cases (any (same_place (candidate input db)) (w.rival attempt db.messages))) [
        | inr now_free ↦ rw (create_rounds_free rounds attempt input db now_free)
        | inl taken ↦ rw (create_rounds_taken rounds attempt input db taken) rest
      ]

  -- If in one of the six attempts, whatever the database is by then, no other client takes the
  -- place that the attempt has chosen, the message is created.
  pub create_message_live :
      (j : ℕ) (input : MessageInput) (db : Db)
      → j < 6
      → ((x : Db) → any (same_place (candidate input x)) (w.rival j x.messages) ≡ false)
      → is_ok (create_message_with_sequence input db).0 ≡ true
  unfolding create_message_with_sequence
  create_message_live j input db less free =
      let same : j ≡ 0 + j = omega arith in
      create_rounds_live 6 0 j input db less (λ x.
        subst (λ n. any (same_place (candidate input x)) (w.rival n x.messages) ≡ false) same
          (free x))
