-- ===== src/Net.antt =====
-- The parts of Go's net packages that the program reads.
pub mod Url
pub mod Header
pub mod Cookie
pub mod Query
pub mod Html
