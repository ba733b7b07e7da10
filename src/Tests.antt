-- ===== src/Tests.antt =====
-- Runs of the model on a small database, and the theorems applied to it.
mod Sample
mod Sending
mod Mentions
mod Posts
mod Delivery
mod Channels
mod Accounts
mod Invites
mod Founding
mod Services
mod Bots
mod Gateway
