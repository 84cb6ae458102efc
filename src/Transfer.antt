-- ===== src/Transfer.antt =====
-- The DFile connection of src/proto/dfile_conn.h and dfile_conn.c: one engine for each TCP
-- connection, which sends and receives files in the frames of src/proto/dfile_frame.c.
pub mod State
pub mod Common
pub mod Sender
pub mod Pump
pub mod Control
pub mod Receiver
pub mod Listing
pub mod Tick
pub mod Engine
mod Keeps
mod Handlers
mod Accounts
mod Sends
mod Runs
mod Blocks
mod Delivery
mod Arrival
mod Progress
mod Fuel
mod Overdue
mod Backed
mod Success
mod SuccessRuns
mod Samples
mod Tests
mod RunTests
mod Refusal
mod Starve
