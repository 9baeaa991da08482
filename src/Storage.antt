-- ===== src/Storage.antt =====
-- Messages and their table: src/domain/message.h and src/storage/sqlmessagerepository.cpp.
pub mod Message
pub mod Table
pub mod Repository
pub mod Saved
pub mod Fetch
mod Tests
