-- ===== src/Server.antt =====
-- im/server: the stores, the registries and the router of one server process.
pub mod Env
pub mod Store
pub mod Registry
pub mod Router
pub mod Handler
pub mod Tests
