-- ===== src/StreamFile.antt =====
-- src/proto/stream_file.c: a file session of VTP frames over the byte stream of a FILLP peer, with
-- the check of a received clip of src/proto/h264_testfile.c.
pub mod Clip
pub mod State
pub mod Names
pub mod Sends
pub mod Receive
pub mod Session
pub mod Turns
pub mod Outcome
pub mod Stops
pub mod Chunks
pub mod Invariant
pub mod Stream
pub mod Backed
pub mod SafeNames
pub mod FrameTrip
pub mod Run
pub mod Departure
pub mod Arrival
pub mod Delivery
pub mod Metadata
pub mod EndToEnd
pub mod Empty
pub mod Reports
pub mod Received
pub mod ClipForm
mod Tests
