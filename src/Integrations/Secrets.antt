-- ===== src/Integrations/Secrets.antt =====
-- The secret of an integration is what lets its events in.
use synapse_hub.Action.{World, ok, Failure, err, not_found, forbidden}
use synapse_hub.Base.{
  Option, Bool, none, false, some, ◌&&◌, ◌++◌, ◌∷◌, [], ◌≡◌, true, ◌⊎◌, Bool-cases, inr, arith, inl,
  Option-cases,
}
use synapse_hub.Bots.{BotSecrets}
use synapse_hub.Integrations.{ensure_integration, handle_webhook_event, handle_custom_event}
use synapse_hub.Schema.{Db, Integration, AuditLog, AuditAction}
use synapse_hub.Text.{Text, text_eq, given, codes}
use synapse_hub.Workspaces.{audit_row}

module _ ⦃w : World⦄ ⦃s : BotSecrets⦄ where
  abbrev pub integration_found : Text → Db → Option Integration
  integration_found integration_id db =
      w.prisma.find_unique (λ i. text_eq i.id integration_id) db.integrations

  -- An active integration with a secret, which is the one provided.
  abbrev pub lets_in : Integration → Text → Bool
  lets_in i provided = elim (given i.secret) [
    | none ↦ false
    | some kept ↦ i.is_active && text_eq kept (s.digest provided)
  ]

  abbrev pub event_row : Integration → Text → AuditLog
  event_row i target =
      audit_row i.workspace_id i.created_by_id AuditAction.integration_event target i.id

  abbrev pub logged : AuditLog → Db → Db
  logged row db = record db { audit_logs = db.audit_logs ++ row ∷ [] }

  ensure_integration_cases :
      (integration_id provided : Text) (i : Integration) (db : Db)
      → integration_found integration_id db ≡ some i
      → ((lets_in i provided ≡ true) × (ensure_integration integration_id provided db ≡ (ok i, db)))
        ⊎ ((lets_in i provided ≡ false)
            × (e : Failure) × (ensure_integration integration_id provided db ≡ (err e, db)))
  unfolding ensure_integration
  ensure_integration_cases integration_id provided i db found = elim (Bool-cases i.is_active) [
    | inr asleep ↦ inr (ground arith, not_found "Integration not found or inactive", ground arith)
    | inl awake ↦ elim (Option-cases (given i.secret)) [
      | inl bare ↦
          inr (ground arith, forbidden "Integration secret is not configured", ground arith)
      | inr (kept, there) ↦ elim (Bool-cases (text_eq kept (s.digest provided))) [
        | inr wrong ↦ inr (ground arith, forbidden "Invalid integration secret", ground arith)
        | inl right ↦ inl (ground arith, ground arith)
      ]
    ]
  ]

  -- An event of an integration that exists is let in exactly where the integration is active and
  -- its stored hash is that of the secret given: then both kinds of event leave one row in the
  -- audit log and nothing else, and otherwise both throw and change nothing.
  pub handle_event_cases :
      (integration_id event provided : Text) (i : Integration) (db : Db)
      → integration_found integration_id db ≡ some i
      → ((lets_in i provided ≡ true)
          × ((handle_webhook_event integration_id provided db).1
              ≡ logged (event_row i (codes "integration:webhook")) db)
          × ((handle_custom_event integration_id event provided db).1
              ≡ logged (event_row i (codes "integration:custom")) db))
        ⊎ ((lets_in i provided ≡ false)
            × (e : Failure) × (handle_webhook_event integration_id provided db ≡ (err e, db))
            × (handle_custom_event integration_id event provided db ≡ (err e, db)))
  unfolding handle_webhook_event handle_custom_event
  handle_event_cases integration_id event provided i db found =
      elim (ensure_integration_cases integration_id provided i db found) [
        | inr (shut, e, h) ↦ inr (shut, e, ground arith, ground arith)
        | inl (may, h) ↦ inl (
          may,
          ground (
            arith,
            w.prisma.create_lem [] (event_row i (codes "integration:webhook")) db.audit_logs,
          ),
          ground (
            arith,
            w.prisma.create_lem [] (event_row i (codes "integration:custom")) db.audit_logs,
          ),
        )
      ]
