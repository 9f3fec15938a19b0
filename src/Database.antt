-- ===== src/Database.antt =====
-- src/database/core.rs: the two maps of the store and the operations on them. `Map` is the
-- interface of the `dashmap` crate, `Object` the values, `Core` the methods.
pub mod Map
pub mod Object
pub mod Core
pub mod Steps
