-- ===== src/Base.antt =====
-- Values of the Python program: JSON values, keyed tables, effects.
pub mod Number
pub mod Text
pub mod Json
pub mod Table
pub mod Exec
pub mod Triple
pub mod Chain
