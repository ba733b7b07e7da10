-- ===== src/Notifications.antt =====
-- services/notification-service/src/notifications/notifications.service.ts: emitting, listing and
-- reading the notifications of a user.
pub mod Unread
use synapse_hub.Action.{
  World, Action, ◌>>=◌, ◌>>◌, find_unique, or_throw, not_found, new_id, create_row, update_row,
  pure, find_many, count_rows, throw_if, forbidden,
}
use synapse_hub.Action.Tables.{users, notifications}
use synapse_hub.Base.{Option, ℕ, true, some, Bool, ◌&&◌, not, none, false, [], ltb}
use synapse_hub.Pagination.{Page, Number, bounded_limit, cursor_row, page_cursor}
use synapse_hub.Schema.{
  NotificationType, Notification, mention, direct_message, thread_reply, channel_activity,
  system_notice, delivered, queued,
}
use synapse_hub.Text.{Text, codes, text_eq}

pub record EmitNotification : Type 0 where
  pub user_id : Text
  pub type : NotificationType
  pub message : Text
  pub entity_id : Option Text

-- What `emit` returns: the row as it was made, and how it is delivered.
pub record Emission : Type 0 where
  pub notification : Notification
  pub in_app : Text
  pub by_email : Text

-- What `list` returns.
pub record Inbox : Type 0 where
  pub page : Page Notification
  pub unread_count : ℕ

-- The name of a constructor of the enum.
abbrev pub type_name : NotificationType → Text
type_name mention = codes "MENTION"
type_name direct_message = codes "DIRECT_MESSAGE"
type_name thread_reply = codes "THREAD_REPLY"
type_name channel_activity = codes "CHANNEL_ACTIVITY"
type_name system_notice = codes "SYSTEM"

abbrev pub sent_off : Notification → Notification
sent_off n = record n { delivery_status = delivered }

abbrev pub read_at_time : ℕ → Notification → Notification
read_at_time now n = record n { is_read = true; read_at = some now }

-- `{ userId, isRead: false }`
abbrev pub is_unread_of : Text → Notification → Bool
is_unread_of user_id n = text_eq n.user_id user_id && not n.is_read

module _ ⦃w : World⦄ where
  abbrev pub emitted_row : EmitNotification → Text → Notification
  emitted_row dto id = record {
    id = id;
    user_id = dto.user_id;
    workspace_id = none;
    type = dto.type;
    title = type_name dto.type;
    body = dto.message;
    entity_type = codes "message";
    entity_id = dto.entity_id;
    is_read = false;
    read_at = none;
    delivery_status = queued;
    created_at = w.now;
  }

  unfoldable pub emit_notification : EmitNotification → Action Emission
  emit_notification dto = do
    user ← find_unique users (λ u. text_eq u.id dto.user_id)
    or_throw user (not_found "User not found")
    id ← new_id
    notification ← create_row notifications [] (emitted_row dto id)
    update_row notifications (λ n. text_eq n.id notification.id) sent_off
    pure (record { notification = notification; in_app = codes "sent"; by_email = codes "queued" })

  unfoldable pub list_notifications : Text → Option Text → Number → Action Inbox
  list_notifications user_id cursor limit = do
    let bounded = bounded_limit limit 20 100
    rows ← find_many notifications (record {
      matches = λ n. text_eq n.user_id user_id;
      precedes = λ a b. ltb b.created_at a.created_at;
      cursor = cursor_row (λ n. n.id) cursor;
      limit = some bounded;
    })
    unread ← count_rows notifications (is_unread_of user_id)
    pure (record {
      page = record { rows = rows; cursor = page_cursor (λ n. n.id) rows bounded; limit = bounded };
      unread_count = unread;
    })

  unfoldable pub mark_read : Text → Text → Action Notification
  mark_read notification_id requester_id = do
    row ← find_unique notifications (λ n. text_eq n.id notification_id)
    notification ← or_throw row (not_found "Notification not found")
    throw_if (not (text_eq notification.user_id requester_id))
        (forbidden "Cannot mark another user notification as read")
    update_row notifications (λ n. text_eq n.id notification_id) (read_at_time w.now)
