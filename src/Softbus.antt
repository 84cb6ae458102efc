-- ===== src/Softbus.antt =====
-- The dsoftbus frames of src/proto/softbus_frame.h and softbus_frame.c.
pub mod Frame
pub mod Buffer
pub mod Session
pub mod RoundTrip
pub mod Stream
pub mod Sends
pub mod Hex
pub mod Keys
pub mod Auth
pub mod AuthFeed
pub mod Handshake
pub mod AuthSafety
mod Tests
