-- ===== src/Bus.antt =====
-- impl/atbus_connection.go and impl/atbus_endpoint.go: connections and the endpoints that they are
-- bound to, as objects of a store.
pub mod Types
pub mod Connection
pub mod Endpoint
pub mod Select
pub mod Statistic
pub mod Reset
pub mod Members
pub mod Consistent
pub mod Attach
pub mod Emptied
pub mod Unlinked
pub mod Remove
pub mod Choice
pub mod Push
mod Tests
