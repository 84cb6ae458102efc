-- ===== src/Lib.antt =====
-- The parts of hwphonelink that carry its protocols, modelled from the C sources, and what makes them
-- correct. Paths are those of the repository.
--
-- The program talks to a phone. Control messages travel in dsoftbus frames over TCP
-- (src/proto/softbus_frame.c, read by the pump thread of src/proto/softbus_session.c). Streams travel
-- over FILLP, a reliable protocol on UDP: src/proto/fillp_frame.c encodes its datagrams, and
-- src/proto/fillp_conn.c is the engine that shakes hands, numbers, acknowledges, resends and delivers.
-- On top of a FILLP stream run video frames (src/proto/vtp_frame.c), and src/proto/stream_file.c
-- sends and receives files in such frames. src/proto/softbus_auth.c authenticates the two ends of a
-- dsoftbus session. Files travel over TCP:
-- src/proto/dfile_frame.c encodes the frames, and src/proto/dfile_conn.c sends and receives the files.
-- Input events go to the phone in packets of src/proto/remote_input.c.
--
-- Files and what they model:
-- - Prelude: lists over the native numbers, Boolean tests, bytes; Prelude/Bytes has the helpers
--   `put_u16` to `get_u64` that the codecs keep private copies of.
-- - Fillp/Frame, Fillp/Frame/Handshake, Acks, Cookie: the functions of src/proto/fillp_frame.c without
--   their prefix `fillp_` (`encode_nack` is `fillp_encode_nack`). RoundTrip and Authentic have proofs.
-- - Fillp/Conn/State: `struct _FillpPeer` as the record Peer, and the constants. Receive: `fp_on_data`
--   with `fp_maybe_pack` and `fp_maybe_nack`. Send: `fp_on_nack`, `fp_on_pack`, `fp_pump`. Close:
--   `fp_peer_established`, `fp_peer_request_close`, `fp_peer_finalize`. Handshake: the `fp_handle_conn_`
--   functions and `fillp_engine_connect`. Engine: `fp_handle_datagram` and `fp_on_tick`. A handler takes
--   the peer and gives the peer and the list of its effects: datagrams sent, bytes delivered, callbacks.
--   InOrder, Delivery and Stream prove what the receiver delivers, Reorder when it reads freed memory;
--   Window, Resend and Pump what the sender keeps; Buffered the account of the table; Lifecycle the
--   states and deadlines; Connect the handshake.
-- - Dfile/Header, Buffer, Encode, Decode, Acks: the functions of src/proto/dfile_frame.c without their
--   prefix `dfile_`; Buffer is the writer `W` and the reader `R`. RoundTrip, Ids, Settings have proofs.
-- - Transfer: src/proto/dfile_conn.c, a function of the model for each function of the source, under
--   the same name where the prefix `dc_` is left off. State has the records and the constants, and `Io`,
--   what the system answers to a handler: the clock, the results of send, pread, pwrite and open, and
--   the comparison of digests. Common: resets, `trans_fail` and `shutdown_common` (`shutdown`). Sender:
--   `send_files_impl` (`send_files`) and the header frames. Pump: `tx_pump` (`pump_trans`). Control:
--   the frames that a sender gets. Listing: `rx_open_file` to `handle_file_header`, with the digest in
--   a file's name of src/proto/ft_testfile.c. Receiver: the other frames that a receiver gets, and what
--   it sends. Tick: `on_tick`. Engine: settings, `handle_frame`, `dc_drain` (`receive_chunk`) and `step`
--   over events. A handler gives the connection and the list of its outputs. Keeps, Handlers, Accounts,
--   Sends and Runs prove what all handlers keep; Blocks, Delivery, Arrival and Progress how a file
--   arrives; Backed, Success and SuccessRuns when a sender is done; Fuel, Overdue, Refusal and Starve a loop each, the
--   deadline, refused blocks and acknowledgements of many files.
-- - Softbus/Frame, Buffer: src/proto/softbus_frame.c; the stream buffer is the list of its bytes.
--   Softbus/Session: the loop of `_pump_thread`. RoundTrip and Stream have proofs.
--   Softbus/Sends: `softbus_session_send`. Softbus/Hex and Keys: the hexadecimal text and
--   `softbus_hkdf_session_keys` of src/proto/softbus_crypto.c. Softbus/Auth and AuthFeed:
--   src/proto/softbus_auth.c, where `auth_feed` is `softbus_auth_feed` with a function for each case of
--   its switch. Handshake and AuthSafety have proofs.
-- - Vtp/Frame: src/proto/vtp_frame.c. RoundTrip has proofs.
-- - StreamFile: src/proto/stream_file.c. State has the halves of a session, the outputs (callbacks and
--   calls on files and the peer) and the record `SfIo` of what it calls; Names the test of a received
--   name; Sends `sf_send_frame`, `sf_fill` and `sf_on_tx_complete`; Receive `sf_process_frame` and
--   `sf_on_data`; Session the public functions; Clip the check of a clip in src/proto/h264_testfile.c.
--   Turns, Outcome and Invariant have lemmas on the loop; Stops, Chunks and Stream compare deliveries;
--   Backed, SafeNames and Reports prove what the receiver keeps; Run, Departure, Arrival, FrameTrip, Metadata,
--   Delivery, EndToEnd and Received follow a file from one side to the other; Empty has an empty file,
--   ClipForm clips.
-- - Input/Event, Build: src/proto/remote_input.c. Size has proofs.
-- - The files called Tests, LifecycleTests and RunTests run the code on small inputs; Transfer/Samples
--   has data for them.
--
-- Bytes are numbers below 256, an integer of w bits is a number with `% 2 ^ w` where the source wraps,
-- a buffer is the list of its bytes, and a pointer into it the list from there on. `none` is the
-- source's FALSE, -1 or NULL.
--
-- Undefined behaviour: the flush loop of `fp_on_data` reads a packet that `g_hash_table_remove` has
-- freed. The handler ends there with the effect `use_after_free`, and what is proved of its state and
-- effects holds up to that read. A run of arrivals ends there, too. `dc_send` stores through a NULL
-- pointer on a hard error of the socket; a send that fails in the model is one that fails in `g_poll`,
-- or that sends no byte without an error, and a run with a hard error is outside the model.
--
-- Fuel: the pump's budget is the source's FP_SEND_BUDGET. `pop_all` gets the length of the buffer,
-- which is enough since each frame has at least 24 bytes. `read_entries` of Dfile/Decode gets the bytes
-- that are left, of which each entry takes at least twelve. `send_headers` gets the number of entries,
-- each frame takes one or more, and `drain_frames` the length of the buffer, each frame takes more than
-- eight bytes of it. `drain` of StreamFile gets the length of the buffer, of which a frame that goes on
-- takes a byte at least (`drain-fuel`), and `fill_all` the length of the file and two. `block_budget`
-- of the pump is the source's DC_SEND_BUDGET.
--
-- Parameters: HMAC-SHA256, AES-GCM and random numbers are those of OpenSSL and GLib; a proof about a
-- digest assumes its 32 bytes, and one about a cipher that it opens what it seals. The clock and the
-- answers of the application's fill function are arguments, and so is the record `Io` of Transfer: a
-- proof about a whole file assumes that reads give the file's bytes or fail, and that writes succeed.
-- `SfIo` and `AuthIo` are the same for StreamFile and for authentication: the cipher, the files, the
-- checksum, HMAC and HKDF; a JSON message is the record of its members.
--
-- Not modelled: threads, sockets, reference counts and logging of the engine; the guards against NULL
-- arguments where the model has no NULL; thread, socket and reference count of DFile connections, and
-- callbacks that call back into a connection; the descriptors of files that are open; the threads and
-- the closing of dsoftbus sessions; JSON text and DMSDP; device discovery; the wrapping of OpenSSL in
-- src/proto/softbus_crypto.c; the generators of test files (src/proto/ft_testfile.c and
-- h264_testfile.c); the transports under src/transport, the daemon and the player.
pub mod Prelude
pub mod Fillp
pub mod Dfile
pub mod Transfer
pub mod Softbus
pub mod Vtp
pub mod StreamFile
pub mod Input
