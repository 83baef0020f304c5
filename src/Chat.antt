-- ===== src/Chat.antt =====
-- p2: the chat client and server around the message layer.
pub mod Client
pub mod Session
pub mod Steps
pub mod Rounds
pub mod Server
pub mod Queued
pub mod Passing
pub mod Gone
pub mod Welcome
pub mod Across
pub mod Examples
