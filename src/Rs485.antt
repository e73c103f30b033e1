-- ===== src/Rs485.antt =====
-- rs485-server/rs485.py: the ROC RS485 v2 packets, their delivery over a noisy byte stream, the
-- transaction session and the exchange on the bus.
pub mod Fcs
pub mod Frame
pub mod Packet
pub mod Stream
pub mod Session
pub mod Exchange
pub mod Bus
mod Examples
