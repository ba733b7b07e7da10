-- ===== src/Lib.antt =====
-- SynapseHub: a team chat of several NestJS services over one PostgreSQL database.
--
-- Parts. Every service is stateless but for its database client: a method reads rows, throws an
-- exception where a guard fails, and writes rows. The messaging service
-- (services/messaging-service/src/messaging/messaging.service.ts) posts, edits, deletes, pins and
-- schedules messages; the channel service (services/channel-service/src/channels/
-- channels.service.ts) creates, joins, leaves and archives the channels; the workspace service
-- (services/workspace-service/src) keeps the workspaces, their members and invite links, the bots
-- and the integrations; the services of users, files, notifications, search and authentication
-- keep the rest. They meet only in the database. The gateway (apps/api/src/realtime) keeps the
-- sockets of the clients, calls the messaging service for them and publishes what it answers.
--
-- Files.
--   Base, Text: shared names, lists, and strings as lists of character codes (trim, toLowerCase).
--   Schema: packages/shared/prisma/schema.prisma, a record for each model, and `Db`. The mails that
--     have left are a list beside the tables.
--   Prisma: the client library, a parameter: its queries and the documented laws that they obey.
--     Prisma/Memory is one client that obeys them; the examples run on it.
--   Action: a method as a function from a database to a reply and a database. What is written
--     before an exception stays written, except in a `transaction`. Action/Tables has the tables and
--     their unique keys, Action/Frame the rules for the parts that a method leaves alone.
--   Pagination: packages/shared/src/pagination.ts, and the copies in the services.
--   Messaging/Access: ensureChannelAccess, ensureMessageAccess, ensureThreadInChannel and what a
--     method returns of a message.
--   Messaging/Sequence: createMessageWithSequence.
--   Messaging/Messages: sendMessage, listMessages, editMessage, deleteMessage, reactToMessage,
--     pinMessage, unpinMessage, listPins, typing.
--   Messaging/Threads, Messaging/Bookmarks, Messaging/Drafts: the methods of those names.
--   Messaging/Mentions: extractMentionHandles and buildMentionHandle.
--   Messaging/Notify: emitMentionNotifications and emitThreadReplyNotification.
--   Messaging/Scheduled: scheduleMessage, listScheduledMessages, cancelScheduledMessage, and the
--     tick of the scheduler, cut into the steps between which other requests run.
--   Channels: the methods of ChannelsService. A method has its name and what it acts on:
--     `join_channel` for `join`.
--   Workspaces: acceptInviteLink with its transaction, revokeInviteLink and setRole;
--     Workspaces/Creating: create, list and members; Workspaces/Links: invite, createInviteLink and
--     listInviteLinks, with generateUniqueInviteCode.
--   Auth: the methods of AuthService (services/auth-service/src/auth/auth.service.ts);
--     Auth/Requests: the routes, and a run of requests, each at its time.
--   Email: email-delivery.service.ts, of which two services have a copy.
--   Files, Notifications, Users, Search: the service of that name, services/file-service and so on.
--   Bots, Integrations: services/workspace-service/src/bots and src/integrations.
--   Realtime: realtime.gateway.ts, a function for each event on the sockets and the database.
--   Controllers: the controllers of the services, a data type of requests for each.
--   Tests: runs on a small database.
-- The other modules below a component hold what is shown of it.
--
-- Bounds. createMessageWithSequence tries six times, and so does the model: `create_rounds 6`
-- counts the attempts of the source, and running out is its own exception. The loop that posts a
-- message of a bot has five rounds (`bot_rounds 5`) and that of the invite codes five
-- (`code_rounds 5`), for the same reason. A number is printed with as much fuel as the number is
-- large, which is at least the count of its digits. The matcher of mentions takes 64 characters at
-- most, the bound of its pattern. Everything else is recursion on a list.
--
-- Parameters. `World` has the client, the clock (one time for the whole of a call), the ids given
-- to new rows, what the other clients do to the messages during an attempt of the loop, and the
-- texts of the client's errors. `Crypto` has bcrypt, sha256, JSON web tokens, `randomBytes` and
-- `encodeURIComponent`; of bcrypt it is assumed that a password matches its own hash, and that a
-- hash is not empty. `MailSettings`, `StoreSettings` and `LinkSettings` have the variables of the
-- environment that Email, Files and Workspaces/Links read, `BotSecrets` the digests and random ids
-- of the bots, and `TokenCheck` the `verify` of an access token. A random value is a function of
-- the count of the values drawn before. `localeCompare`, the order of texts in the database and its
-- search without regard to case are arguments of the methods that use them.
--
-- Not modelled: the order of equal rows of a query, and the ties that a query breaks by a text id;
-- other failures of the database than a violated unique key and an update of a missing row, and so
-- foreign keys and missing tables; letters beyond ASCII in toLowerCase; fractional limits;
-- sequences from 2 ^ 53 on, which `Number` rounds; the parsing of dates (`new Date(sendAt)` is a
-- time or none); the metadata of the audit log; what the validation of a request's body refuses.
-- Work that a method leaves to the background (`void ...catch`) is done before the method returns,
-- and what it throws is dropped. Outside the scope are the transport of the events through Redis,
-- the health and metrics routes, and the user interface.
pub mod Base
pub mod Text
pub mod Prisma
pub mod Schema
pub mod Action
pub mod Pagination
pub mod Email
pub mod Auth
pub mod Messaging
pub mod Channels
pub mod Workspaces
pub mod Files
pub mod Notifications
pub mod Users
pub mod Search
pub mod Bots
pub mod Integrations
pub mod Realtime
pub mod Controllers
pub mod Tests
