-- ===== src/Fillp/Conn.antt =====
-- src/proto/fillp_conn.c: the state of a peer and of the engine, and the effects of its handlers.
--
-- A handler takes the peer's state and the clock, and returns the new state with the list of its
-- effects in order: datagrams handed to the socket and callbacks into the application. What the
-- application does in reaction comes as later operations. The clock is read once for each event.
-- All state is touched by the engine thread alone, so that events run one after the other.
pub mod State
pub mod Close
pub mod Handshake
pub mod Receive
pub mod Send
pub mod Engine
pub mod InOrder
pub mod Delivery
pub mod Stream
pub mod Reorder
pub mod Window
pub mod Resend
pub mod Pump
pub mod Lifecycle
pub mod Buffered
pub mod Connect
mod Tests
mod LifecycleTests
