-- ===== src/Transfer/Accounts.antt =====
-- The events of a connection of src/proto/dfile_conn.c keep what Keeps says.
use hwphonelink.Transfer.Tick.{after_pump, tick_rx, tick_done, tick_acks, check_timeout}
use hwphonelink.Transfer.Common.{rst_without_setting, shutdown}
use hwphonelink.Dfile.Header.{header_unpack, incomplete, invalid, header}
use hwphonelink.Dfile.Decode.{decode_setting, decode_rst}
use hwphonelink.Transfer.Handlers.{
  handle_doneack-Keeps, handle_done-Keeps, handle_ack-Keeps, handle_data-Keeps,
  finish_if_done-Keeps, rx_send_done-Keeps, flush_ack-Keeps, handle_tx_ctrl-Keeps,
  handle_file_header-Keeps,
}
use hwphonelink.Transfer.Keeps.{
  reset_and_shutdown-Keeps, shutdown-Keeps, end_count-send_if, Keeps-out, Keeps-same, Keeps-if,
  Keeps-elim, keeps, is_usable, Keeps,
}
use hwphonelink.Transfer.State.{Step, is_shut, notify_negotiated, ready, Io, Conn}
use hwphonelink.Transfer.Engine.{
  handle_frame, dispatch_frame, handle_rst, handle_setting, negotiated_block, send_local_setting,
}
use hwphonelink.Prelude.{
  ◌==◌, if◌then◌else◌, inr, refl, ◌∷◌, arith, List, ◌≡◌, Bool, ℕ, [], false, true,
}

pub send_local_setting-Keeps : (io : Io) (c : Conn) → Keeps c (send_local_setting io c)
unfolding send_local_setting
send_local_setting-Keeps io c = Keeps-if c c.local_setting_sent (Keeps-same c) (
    Keeps-if c _
      (Keeps-out c (record c { local_setting_sent = true }) _ (end_count-send_if io _) refl refl
        refl refl)
      (shutdown-Keeps io c))

negotiated_block_lem : (size : ℕ) → is_usable (negotiated_block size) ≡ true
unfolding negotiated_block
negotiated_block_lem size = ground arith

Keeps-negotiated :
    (c : Conn) (size : ℕ)
    → is_shut c.state ≡ false
    → c.negotiated ≡ false
    → Keeps c (
      record c { block_size = negotiated_block size; negotiated = true; state = ready },
      notify_negotiated ∷ [],
    )
Keeps-negotiated c size up h = record {
  ended = rw up (omega arith);
  buffer = refl;
  setting = inr (h, negotiated_block_lem size);
}

Keeps-unless :
    (c : Conn) (b : Bool) {x y : Step}
    → Keeps c x
    → (b ≡ false → Keeps c y)
    → Keeps c (if b then x else y)
Keeps-unless c true p q = p
Keeps-unless c false p q = q refl

handle_setting-Keeps :
    (io : Io) (c : Conn) (frame : List ℕ)
    → is_shut c.state ≡ false
    → Keeps c (handle_setting io c frame)
unfolding handle_setting
handle_setting-Keeps io c frame up = Keeps-unless c c.negotiated (Keeps-same c) (λ h.
    Keeps-elim c (decode_setting frame) (shutdown-Keeps io c) (λ s.
      Keeps-if c (s.mtu == 0) (reset_and_shutdown-Keeps io 0 rst_without_setting c)
        (Keeps-negotiated c s.data_frame_size up h)))

handle_rst-Keeps : (io : Io) (c : Conn) (frame : List ℕ) → Keeps c (handle_rst io c frame)
unfolding handle_rst
handle_rst-Keeps io c frame = search (keeps, Keeps-elim c (decode_rst frame)) depth 8

dispatch_frame-Keeps :
    (io : Io) (c : Conn) (type : ℕ) (frame : List ℕ)
    → is_shut c.state ≡ false
    → Keeps c (dispatch_frame io c type frame)
unfolding dispatch_frame
dispatch_frame-Keeps io c type frame up =
    search
      (
        keeps, handle_setting-Keeps, handle_file_header-Keeps, handle_tx_ctrl-Keeps,
        handle_data-Keeps, handle_ack-Keeps, handle_done-Keeps, handle_doneack-Keeps,
        handle_rst-Keeps,
      )
      depth 12

pub handle_frame-Keeps :
    (io : Io) (c : Conn) (frame : List ℕ)
    → is_shut c.state ≡ false
    → Keeps c (handle_frame io c frame)
unfolding handle_frame
handle_frame-Keeps io c frame up =
    elim (header_unpack frame)
      as (λ u. Keeps c (elim u [
        | incomplete ↦ shutdown io c
        | invalid ↦ shutdown io c
        | header h ↦ dispatch_frame io c h.type frame
      ])) [
        | incomplete ↦ shutdown-Keeps io c
        | invalid ↦ shutdown-Keeps io c
        | header h ↦ dispatch_frame-Keeps io c h.type frame up
      ]

pub check_timeout-Keeps : (side : Bool) (io : Io) (c : Conn) → Keeps c (check_timeout side io c)
unfolding check_timeout
check_timeout-Keeps side io c = search (keeps) depth 8

tick_acks-Keeps : (io : Io) (c : Conn) → Keeps c (tick_acks io c)
unfolding tick_acks
tick_acks-Keeps io c = search (keeps, Keeps-elim c (c.rx), flush_ack-Keeps) depth 8

tick_done-Keeps : (io : Io) (c : Conn) → Keeps c (tick_done io c)
unfolding tick_done
tick_done-Keeps io c = search (keeps, Keeps-elim c (c.rx), rx_send_done-Keeps) depth 8

pub tick_rx-Keeps : (io : Io) (c : Conn) → Keeps c (tick_rx io c)
unfolding tick_rx
tick_rx-Keeps io c = search (keeps, Keeps-elim c (c.rx), tick_acks-Keeps, tick_done-Keeps) depth 8

pub after_pump-Keeps : (io : Io) (c : Conn) → Keeps c (after_pump io c)
unfolding after_pump
after_pump-Keeps io c = search (keeps, Keeps-elim c (c.tx), finish_if_done-Keeps) depth 8
