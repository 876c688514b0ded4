-- ===== src/Messages.antt =====
-- internal/privsep/messages/messages.go: the wire format of the privilege-separation pipe.
pub mod Raw
pub mod Args
pub mod Kinds
pub mod Framing
pub mod Streams
pub mod Integers
pub mod RoundTrip
pub mod Safety
mod Tests
