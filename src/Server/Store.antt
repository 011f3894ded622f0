-- ===== src/Server/Store.antt =====
-- im/server/store: the tables of one database. A write is one transaction under one lock, so each
-- operation is a function of the whole table. Rows are in order of insertion, which is rowid order.
pub mod Users
pub mod Contacts
pub mod Rooms
pub mod Messages
