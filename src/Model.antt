-- ===== src/Model.antt =====
-- The rows of user tables, and the tables by their names.
pub mod DynamicCodec
pub mod UserTable
pub mod TableManager
mod Tests
