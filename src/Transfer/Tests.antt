-- ===== src/Transfer/Tests.antt =====
-- Small runs of the model of src/proto/dfile_conn.c.
use hwphonelink.Transfer.Samples.{file_new, trans_at, io_at, content, conn_at}
use hwphonelink.Transfer.Progress.{pump_new-completes}
use hwphonelink.Transfer.Tick.{on_tick}
use hwphonelink.Transfer.Control.{ack_files}
use hwphonelink.Transfer.Starve.{ack_files-starves, all_started}
use hwphonelink.Transfer.Overdue.{on_tick-fails_overdue}
use hwphonelink.Dfile.Buffer.{w_bytes, r_take, w_u32, r_u32, w_u16, r_u16, w_init, r_init}
use hwphonelink.Transfer.Arrival.{pump_new-delivers_all}
use hwphonelink.Dfile.Encode.{encode_data}
use hwphonelink.Transfer.Fuel.{drain_frames_fuel}
use hwphonelink.Transfer.Receiver.{ack_entries, data_block, handle_data}
use hwphonelink.Dfile.Header.{header_unpack, frame_payload}
use hwphonelink.Transfer.Runs.{run-ends_once, run}
use hwphonelink.Transfer.Delivery.{deliver, IsReceiving}
use hwphonelink.Transfer.Refusal.{data_block_lem, handle_data-late, Outcome}
use hwphonelink.Dfile.Decode.{decode_data, DataBlock}
use hwphonelink.Transfer.Keeps.{flag, end_count}
use hwphonelink.Transfer.Pump.{send_encoded, send_block, pump_new}
use hwphonelink.Transfer.Common.{find_file}
use hwphonelink.Transfer.State.{
  failed, rx_wait_doneack, rx_wait_data, TransFile, tx_sending, is_shut, Trans, Conn,
}
use hwphonelink.Prelude.{
  ◌++◌, replicate, sub64, skip, copy, put_u32, get_u32, put_u16, get_u16, arith, ◌≡◌, ◌∷◌, ℕ, List,
  [], inr, some, none, false, true, refl,
}
use hwphonelink.Transfer.Engine.{drain_frames, ticks, ends, closes}

abbrev receiver : Conn
receiver = conn_at 2 none (some (trans_at false rx_wait_data (file_new 1 ∷ [])))

receiver-IsReceiving : IsReceiving 2 7 1 3 content 0 receiver
unfolding find_file
receiver-IsReceiving = record {
  trans = trans_at false rx_wait_data (file_new 1 ∷ []);
  file = file_new 1;
  blocks_of = refl;
  receives_trans = refl;
  waits = refl;
  same_trans = refl;
  found = refl;
  next = refl;
  same_size = refl;
  same_blocks = refl;
  prefix = refl;
}

sent_all : (pump_new 64 (io_at 0) 2 7 0 (file_new 1)).file.next_seq ≡ 3
unfolding pump_new send_block send_encoded encode_data w_init w_u16 w_u32 w_bytes put_u16 put_u32
sent_all = refl

pump_new-delivers_all_example :
    (t : Trans) × (g : TransFile) × ((deliver
        (io_at 0)
        (pump_new 64 (io_at 0) 2 7 0 (file_new 1)).out
        receiver).rx
      ≡ some t)
    × (find_file 1 t.files ≡ some g)
    × (g.hashed ≡ content)
pump_new-delivers_all_example =
    pump_new-delivers_all 64 (io_at 0) (io_at 0) 2 7 0 (file_new 1) content receiver
      (λ off len. inr refl) (λ id off bytes. refl) refl refl (omega arith) (omega arith)
      (omega arith) (omega arith) (omega arith) receiver-IsReceiving sent_all

pump_new-completes_example :
    (t : Trans) × (g : TransFile) × ((deliver
        (io_at 0)
        (pump_new 64 (io_at 0) 2 7 0 (file_new 1)).out
        receiver).rx
      ≡ some t)
    × (find_file 1 t.files ≡ some g)
    × (g.hashed ≡ content)
pump_new-completes_example =
    pump_new-completes 64 (io_at 0) (io_at 0) 2 7 0 (file_new 1) content receiver (λ off len. refl)
      (λ frame. refl) (λ id off bytes. refl) refl refl (omega arith) (omega arith) (omega arith)
      (omega arith) (omega arith) (omega arith) (omega arith) receiver-IsReceiving

-- A tick, the application's close and the end of the stream.
run-ends_once_example :
    end_count (run ((io_at 9, ticks) ∷ (io_at 9, closes) ∷ (io_at 9, ends) ∷ []) receiver).1
    ≡ flag (
        is_shut
          (run ((io_at 9, ticks) ∷ (io_at 9, closes) ∷ (io_at 9, ends) ∷ []) receiver).0.state)
run-ends_once_example =
    run-ends_once ((io_at 9, ticks) ∷ (io_at 9, closes) ∷ (io_at 9, ends) ∷ []) receiver refl

abbrev data_frame : List ℕ
data_frame = 4 ∷ 0 ∷ 0 ∷ 0 ∷ 0 ∷ 7 ∷ 0 ∷ 8 ∷ 0 ∷ 1 ∷ 0 ∷ 0 ∷ 0 ∷ 0 ∷ 10 ∷ 11 ∷ []

abbrev block : DataBlock
block = record { trans_id = 7; flag = 0; file_id = 1; block_seq = 0; payload = 10 ∷ 11 ∷ [] }

decoded : decode_data data_frame ≡ some block
unfolding decode_data frame_payload header_unpack r_init r_u16 r_u32 r_take get_u16 get_u32 copy
    skip
decoded = refl

handle_data-late_example :
    is_shut
      (handle_data
        (io_at 9)
        (conn_at 2 none (some (trans_at false rx_wait_doneack (file_new 1 ∷ []))))
        data_frame).0.state
    ≡ true
handle_data-late_example =
    handle_data-late (io_at 9)
      (conn_at 2 none (some (trans_at false rx_wait_doneack (file_new 1 ∷ [])))) data_frame block
      (trans_at false rx_wait_doneack (file_new 1 ∷ [])) decoded refl refl

data_block_lem_example :
    Outcome (trans_at false rx_wait_data (file_new 1 ∷ [])) receiver (file_new 1) 0 (10 ∷ 11 ∷ []) (
      data_block
        (io_at 9)
        (trans_at false rx_wait_data (file_new 1 ∷ []))
        receiver
        (file_new 1)
        0
        (10 ∷ 11 ∷ []))
data_block_lem_example =
    data_block_lem (io_at 9) (trans_at false rx_wait_data (file_new 1 ∷ [])) receiver (file_new 1) 0
      (10 ∷ 11 ∷ [])

on_tick-fails_overdue_example :
    (on_tick (io_at 30001) (conn_at 2 (some (trans_at true tx_sending [])) none)).0.tx
    ≡ some (trans_at true failed [])
unfolding sub64
on_tick-fails_overdue_example =
    on_tick-fails_overdue (io_at 30001) (conn_at 2 (some (trans_at true tx_sending [])) none)
      (trans_at true tx_sending []) refl refl refl refl

drain_frames_fuel_example :
    drain_frames 16 (io_at 9) (record receiver { rxbuf = data_frame })
    ≡ drain_frames 99 (io_at 9) (record receiver { rxbuf = data_frame })
drain_frames_fuel_example =
    drain_frames_fuel 16 99 (io_at 9) (record receiver { rxbuf = data_frame }) refl (omega arith)
      (omega arith)

abbrev started : TransFile
started = record (file_new 1) { expected_seq = 1 }

abbrev second : TransFile
second = record (file_new 2) { expected_seq = 1 }

ack_files-starves_example :
    find_file 2
      (ack_files (ack_entries 39 (replicate 39 started ++ (second ∷ []))) (file_new 2 ∷ []))
    ≡ find_file 2 (file_new 2 ∷ [])
unfolding find_file all_started
ack_files-starves_example =
    ack_files-starves (replicate 39 started) (second ∷ []) (file_new 2 ∷ []) 2 refl refl refl
