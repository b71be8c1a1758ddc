-- ===== src/Store.antt =====
-- internal/store: the queries and statements on the tables, with the meaning of their SQL.
pub mod Rows
pub mod Peers
pub mod Users
pub mod Invites
pub mod UpSection
pub mod Migrations
pub mod Lists
