-- ===== src/Chat.antt =====
-- NETLIB/function.cpp and NETLIB/application/chat: the messages of the chat programs.
pub mod Examples
pub mod Exec
pub mod Json
pub mod Model
pub mod Redis
pub mod Server
pub mod Client
pub mod Message
pub mod Parsed
pub mod Context
pub mod Frames
pub mod Received
pub mod Parsing
