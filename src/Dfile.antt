-- ===== src/Dfile.antt =====
-- The DFile frame codec of src/proto/dfile_frame.h and dfile_frame.c.
pub mod Header
pub mod Buffer
pub mod Encode
pub mod Decode
pub mod Acks
pub mod RoundTrip
pub mod Ids
pub mod Settings
mod Tests
