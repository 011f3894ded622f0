-- ===== src/Server/Router.antt =====
-- im/server/router.py: deciding who receives what. `World` is all that the router can reach.
pub mod World
pub mod Contacts
pub mod Rows
pub mod Accounts
pub mod Membership
pub mod Delivery
pub mod History
pub mod Handle
pub mod Sending
pub mod Sessions
