-- ===== src/Fillp.antt =====
-- The fillp (Dstream) transport of src/proto: the packet codec of fillp_frame.c and the reliable
-- stream engine of fillp_conn.c.
pub mod Frame
pub mod Conn
