-- ===== src/Input.antt =====
-- The input packets of src/proto/remote_input.h and remote_input.c.
pub mod Event
pub mod Build
pub mod Size
mod Tests
