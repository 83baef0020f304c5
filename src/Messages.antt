-- ===== src/Messages.antt =====
-- p2: the message layer of the chat client and server.
pub mod Bytes
pub mod Message
pub mod Waits
pub mod Text
pub mod Body
pub mod Receive
pub mod Drain
pub mod Dictionary
pub mod Receiver
pub mod Interleave
pub mod Send
pub mod Slices
pub mod Queue
pub mod Fill
pub mod Append
pub mod Front
pub mod Erase
pub mod Space
pub mod Sender
pub mod Writing
pub mod Examples
