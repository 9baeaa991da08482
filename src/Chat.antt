-- ===== src/Chat.antt =====
-- The chat model, src/core/chatmessagemodel.cpp.
pub mod Item
pub mod Blocks
pub mod Order
pub mod Model
pub mod Rows
pub mod Slots
mod Tests
pub mod View
pub mod Loaded
pub mod Ids
pub mod Unread
