-- ===== src/Postgres.antt =====
-- storage/postgres.py: the backend that keeps the tables in Postgres, over the same lists of rows.
pub mod Deliveries
pub mod Counting
pub mod Tables
pub mod Listing
pub mod Agreement
pub mod Shortfall
