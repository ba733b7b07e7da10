-- ===== src/Messaging/Messages/Marks.antt =====
-- Reactions and pins: one for each key, whatever is repeated.

use synapse_hub.Action.{World, ok}
use synapse_hub.Action.Tables.{is_reaction, reaction_key}
use synapse_hub.Base.{
  ◌≡◌, true, arith, any, false, ◌++◌, ◌∷◌, [], some, map_where_id, List, if◌then◌else◌,
  Option-cases, inl, inr, sym, ◌∙◌, ap, is_some, any-append, ltb, count, keep, not, count-any, refl,
  any-keep-not,
}
use synapse_hub.Messaging.Access.{ensure_message_access}
use synapse_hub.Messaging.Access.Laws.{message_found, Allowed, message_granted}
use synapse_hub.Messaging.Messages.{react_to_message, unpin_message}
use synapse_hub.Prisma.Laws.{find_unique-none_iff, find_unique-any, find_unique_matches}
use synapse_hub.Prisma.Memory.{first}
use synapse_hub.Schema.{Reaction, Db, Message, MessagePin}
use synapse_hub.Text.{Text, text_eq_refl, text_eq}

module _ ⦃w : World⦄ where
  abbrev pub reaction_of : Text → Text → Text → Reaction
  reaction_of message_id user_id emoji = record {
    message_id = message_id;
    user_id = user_id;
    emoji = emoji;
  }

  reaction_of_matches :
      (message_id user_id emoji : Text)
      → is_reaction message_id user_id emoji (reaction_of message_id user_id emoji) ≡ true
  reaction_of_matches message_id user_id emoji =
      ground (arith, text_eq_refl message_id, text_eq_refl user_id, text_eq_refl emoji)

  react_new :
      (message_id user_id emoji : Text) (db : Db) (m : Message)
      → ensure_message_access message_id user_id db ≡ (ok m, db)
      → any (is_reaction message_id user_id emoji) db.reactions ≡ false
      → react_to_message message_id user_id emoji db ≡ (
        ok (reaction_of message_id user_id emoji),
        record db { reactions = db.reactions ++ reaction_of message_id user_id emoji ∷ [] },
      )
  unfolding react_to_message
  react_new message_id user_id emoji db m granted missing = ground (
    arith,
    (find_unique-none_iff w.prisma (is_reaction message_id user_id emoji) db.reactions).1 missing,
    w.prisma.create_lem (reaction_key ∷ []) (reaction_of message_id user_id emoji) db.reactions,
  )

  react_known :
      (message_id user_id emoji : Text) (db : Db) (m : Message) (r : Reaction)
      → ensure_message_access message_id user_id db ≡ (ok m, db)
      → w.prisma.find_unique (is_reaction message_id user_id emoji) db.reactions ≡ some r
      → react_to_message message_id user_id emoji db ≡ (ok r, db)
  unfolding react_to_message
  react_known message_id user_id emoji db m r granted found = ground (
    arith,
    w.prisma.update_many_lem (is_reaction message_id user_id emoji) (λ r. r) db.reactions,
    map_where_id (is_reaction message_id user_id emoji) db.reactions,
  )

  -- What stands in the table after a reaction: it is as it was if the reaction was there, and has
  -- the reaction at its end if not.
  abbrev pub reacted : Text → Text → Text → List Reaction → List Reaction
  reacted message_id user_id emoji rows =
      if any (is_reaction message_id user_id emoji) rows
      then rows
      else rows ++ reaction_of message_id user_id emoji ∷ []

  -- A user who may use the channel of a message can react to it: the reaction is added if it is
  -- not there, nothing else changes, and it is answered with a reaction of that message, user and
  -- emoji.
  pub react_to_message_lem :
      (message_id user_id emoji : Text) (db : Db) (m : Message)
      → message_found message_id db ≡ some m
      → Allowed m.channel_id user_id db
      → (r : Reaction) × (react_to_message message_id user_id emoji db
          ≡ (ok r, record db { reactions = reacted message_id user_id emoji db.reactions }))
        × (is_reaction message_id user_id emoji r ≡ true)
  react_to_message_lem message_id user_id emoji db m found allowed =
      let p = is_reaction message_id user_id emoji in
      let granted = message_granted message_id user_id db m found allowed in
      elim (Option-cases (w.prisma.find_unique p db.reactions)) [
        | inl missing ↦
            let none_there = (find_unique-none_iff w.prisma p db.reactions).0 missing in
            (
              reaction_of message_id user_id emoji,
              rw none_there (react_new message_id user_id emoji db m granted none_there),
              reaction_of_matches message_id user_id emoji,
            )
        | inr (r, known) ↦
            let there : any p db.reactions ≡ true =
              sym (find_unique-any w.prisma p db.reactions) ∙ ap is_some known in
            (
              r,
              rw there (react_known message_id user_id emoji db m r granted known),
              find_unique_matches w.prisma p db.reactions r known,
            )
      ]

  -- To react a second time changes nothing: the table keeps one reaction for the key.
  pub reacted_idempotent :
      (message_id user_id emoji : Text) (rows : List Reaction)
      → reacted message_id user_id emoji (reacted message_id user_id emoji rows)
        ≡ reacted message_id user_id emoji rows
  reacted_idempotent message_id user_id emoji rows = ground (
    arith,
    any-append (is_reaction message_id user_id emoji) rows
        (reaction_of message_id user_id emoji ∷ []),
    reaction_of_matches message_id user_id emoji,
  )

  pub react_twice :
      (message_id user_id emoji : Text) (db : Db) (m : Message)
      → message_found message_id db ≡ some m
      → Allowed m.channel_id user_id db
      → let once = (react_to_message message_id user_id emoji db).1 in
        (react_to_message message_id user_id emoji once).1 ≡ once
  react_twice message_id user_id emoji db m found allowed =
      let (r, first, hit) = react_to_message_lem message_id user_id emoji db m found allowed in
      let db' = record db { reactions = reacted message_id user_id emoji db.reactions } in
      let (s, second, hit') = react_to_message_lem message_id user_id emoji db' m found allowed in
      rw first (rw second (rw reacted_idempotent))

  unpin_granted :
      (message_id user_id : Text) (db : Db) (m : Message)
      → ensure_message_access message_id user_id db ≡ (ok m, db)
      → unpin_message message_id user_id db ≡ (
        ok (message_id, ltb 0 (count (λ p. text_eq p.message_id message_id) db.pins)),
        record db { pins = keep (λ p. not (text_eq p.message_id message_id)) db.pins },
      )
  unfolding unpin_message
  unpin_granted message_id user_id db m granted =
      ground (arith, w.prisma.delete_many_lem (λ p. text_eq p.message_id message_id) db.pins)

  -- A user who may use the channel of a message can unpin it: no pin of the message is left, the
  -- others stay, and the answer says whether there was one.
  pub unpin_message_lem :
      (message_id user_id : Text) (db : Db) (m : Message)
      → message_found message_id db ≡ some m
      → Allowed m.channel_id user_id db
      → let pinned = any (λ (p : MessagePin). text_eq p.message_id message_id) in
        let db' = (unpin_message message_id user_id db).1 in
        ((unpin_message message_id user_id db).0 ≡ ok (message_id, pinned db.pins))
        × (pinned db'.pins ≡ false)
        × (db' ≡ record db { pins = keep (λ p. not (text_eq p.message_id message_id)) db.pins })
  unpin_message_lem message_id user_id db m found allowed =
      let granted = message_granted message_id user_id db m found allowed in
      let same = unpin_granted message_id user_id db m granted in
      let is_pin = λ (p : MessagePin). text_eq p.message_id message_id in
      rw same (rw (count-any is_pin db.pins) refl, any-keep-not is_pin db.pins, refl)
