-- ===== src/Lvhv.antt =====
-- common/lvhv_protocol.py, with the constants of common/lvhv_protocol_generated.py: the messages of the
-- supply server, and their receipt from a socket.
pub mod Words
pub mod Frame
pub mod Message
pub mod Socket
pub mod Examples
