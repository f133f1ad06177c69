-- ===== src/Storage.antt =====
-- core/storage.py: the SQLite backend, table by table. A table is the list of its rows in the order
-- of insertion; one locked transaction is one function from the old rows to the new ones.
pub mod Deliveries
pub mod Fingerprints
pub mod Events
pub mod Audit
pub mod Deploys
pub mod Services
pub mod Secrets
