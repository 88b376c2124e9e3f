-- ===== src/Storage/Conversations.antt =====
-- crates/mentat-storage/src/conversation.rs: conversations, their turns and messages.
pub mod Rows
pub mod Updates
pub mod Messages
pub mod Turns
pub mod Grounding
pub mod Snapshots
pub mod Deletion
pub mod Moves
pub mod Closing
pub mod Operations
pub mod History
pub mod Finishing
pub mod Encoding
pub mod Gone
pub mod Recovery
pub mod Starting
pub mod Examples
