-- ===== src/Messaging.antt =====
-- services/messaging-service/src/messaging/messaging.service.ts, one child for each group of its
-- methods. Each method is an action on the database.
pub mod Access
pub mod Sequence
pub mod Mentions
pub mod Notify
pub mod Frame
pub mod Messages
pub mod Threads
pub mod Bookmarks
pub mod Drafts
pub mod Scheduled
pub mod Numbering
