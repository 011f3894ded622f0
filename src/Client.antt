-- ===== src/Client.antt =====
-- im/client: the part of the program that runs at a user's side.
pub mod State
pub mod Backoff
pub mod Conversation
pub mod Tests
pub mod Chat
pub mod Requests
pub mod Controller
pub mod Connection
pub mod Session
