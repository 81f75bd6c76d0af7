-- ===== src/Tcpros.antt =====
-- A publisher's session and a subscriber's reader at the two ends of one connection.
pub mod Stream
pub mod Handshake
