-- ===== src/Vtp.antt =====
-- The VTP video frames of src/proto/vtp_frame.h and vtp_frame.c.
pub mod Frame
pub mod RoundTrip
mod Tests
