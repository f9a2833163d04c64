-- ===== src/Includes.antt =====
-- The headers that a file includes.
pub mod Order
pub mod SameModule
pub mod Classify
pub mod Line
pub mod Used
