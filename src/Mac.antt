-- ===== src/Mac.antt =====
-- mesh/src/mac: packet framing, encryption, duty-cycle tracking.
pub mod Packet
pub mod Crypto
pub mod DutyCycle
