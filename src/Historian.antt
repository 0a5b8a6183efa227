-- ===== src/Historian.antt =====
-- The historian (src/cpp/historian, src/cpp/proto): what is stored, under which keys, and queries.
pub mod Messages
pub mod Keys
pub mod LevelDb
pub mod Store
pub mod Db
pub mod Reactor
