-- ===== src/Transfer/Listing.antt =====
-- The list of files that the receiver of src/proto/dfile_conn.c gets: `rx_open_file`,
-- `rx_header_complete` and `handle_file_header`, with the names of src/proto/ft_testfile.c.
use hwphonelink.Transfer.Sender.{blocks}
use hwphonelink.Dfile.Decode.{decode_file_header, FileHeader}
use hwphonelink.Dfile.Encode.{Entry}
use hwphonelink.Transfer.Common.{
  rst_no_enough_storage, shutdown, trans_fail, transfer_req, header_confirm, send_rst,
}
use hwphonelink.Transfer.Control.{send_ids}
use hwphonelink.Prelude.{
  ◌-◌, drop, ◌+◌, take, ◌||◌, not, ◌++◌, ltb, ◌==◌, ◌&&◌, if◌then◌else◌, ◌∷◌, leb, length, Bool,
  Option, List, ℕ, [], some, none, false, true,
}
use hwphonelink.Transfer.State.{
  notify_file_list, rx_wait_data, max_file_size, rx_done, failed, idle, Step, Output, TransFile,
  Conn, Trans, trans_new, Phase, Io, ◌then_do◌,
}

-- `ft_testfile_name_sha` of src/proto/ft_testfile.c: the 64 hexadecimal digits of a name of the form
-- ft-<sha256>.bin.
abbrev pub is_xdigit : ℕ → Bool
is_xdigit ch =
    (leb b'0' ch && leb ch b'9') || (leb b'a' ch && leb ch b'f') || (leb b'A' ch && leb ch b'F')

unfoldable pub all_xdigits : List ℕ → Bool
all_xdigits [] = true
all_xdigits (ch ∷ cs) = is_xdigit ch && all_xdigits cs

unfoldable pub same_bytes : List ℕ → List ℕ → Bool
same_bytes [] [] = true
same_bytes [] (y ∷ ys) = false
same_bytes (x ∷ xs) [] = false
same_bytes (x ∷ xs) (y ∷ ys) = x == y && same_bytes xs ys

unfoldable pub name_sha : List ℕ → Option (List ℕ)
unfolding same_bytes all_xdigits
name_sha name =
    let len = length name in
    if ltb len 71
    then none
    else if not (same_bytes (take 3 name) (b'f' ∷ b't' ∷ b'-' ∷ []))
    then none
    else if not (same_bytes (drop (len - 4) name) (b'.' ∷ b'b' ∷ b'i' ∷ b'n' ∷ []))
    then none
    else if not (len - 3 - 4 == 64)
    then none
    else if all_xdigits (take 64 (drop 3 name))
    then some (take 64 (drop 3 name))
    else none

-- The `DCFile` of `rx_open_file`.
abbrev pub opened_file : ℕ → Entry → TransFile
opened_file block_size e = record {
  file_id = e.file_id;
  size = e.file_size;
  name = e.name;
  total_blocks = blocks e.file_size block_size;
  next_seq = 0;
  retrans = [];
  last_acked = 0;
  acked_all = false;
  confirmed = false;
  expected_seq = 0;
  write_complete = blocks e.file_size block_size == 0;
  hashed = [];
  expected_sha = name_sha e.name;
}

-- The files that the loop over the entries opens, and whether it opens all.
unfoldable pub open_entries : Io → ℕ → List Entry → List TransFile × Bool
unfolding name_sha
open_entries io block_size [] = ([], true)
open_entries io block_size (e ∷ es) =
    let rest = open_entries io block_size es in
    if ltb max_file_size e.file_size || not (io.can_create e)
    then ([], false)
    else (opened_file block_size e ∷ rest.0, rest.1)

abbrev pub is_idle : Phase → Bool
is_idle idle = true
is_idle _ = false

abbrev pub entry_ids : List Entry → List ℕ
entry_ids [] = []
entry_ids (e ∷ es) = e.file_id ∷ entry_ids es

-- The confirm and the request, one frame after the other.
unfoldable pub send_confirm_req : Io → ℕ → List ℕ → Bool × List Output
unfolding send_ids
send_confirm_req io trans_id ids =
    let confirm = send_ids io header_confirm trans_id ids in
    let req = send_ids io transfer_req trans_id ids in
    if confirm.0 then (req.0, confirm.1 ++ req.1) else (false, [])

-- `rx_header_complete`, where `t` is the transfer that `c` receives.
unfoldable pub header_complete : Io → Trans → Conn → Step
unfolding open_entries send_confirm_req send_rst
header_complete io t c =
    let opened = open_entries io c.block_size t.hdr in
    let u = record t { files = t.files ++ opened.0 } in
    let c' = record c { rx = some u } in
    let sent = send_confirm_req io t.trans_id (entry_ids t.hdr) in
    if not (is_idle t.phase)
    then (c, [])
    else if not c.has_recv_dir
    then trans_fail false false io c
    else if not opened.1
    then (c', send_rst io t.trans_id rst_no_enough_storage) then_do trans_fail false false io
    else if sent.0
    then (
      record c { rx = some (record u { phase = rx_wait_data }) },
      notify_file_list t.hdr ∷ sent.1,
    )
    else (c', notify_file_list t.hdr ∷ sent.1) then_do trans_fail false false io

unfoldable pub has_id : ℕ → List Entry → Bool
has_id id [] = false
has_id id (e ∷ es) = e.file_id == id || has_id id es

-- The loop of `handle_file_header`: the entries so far with those that are new, and whether there
-- was room for all.
unfoldable pub add_entries : ℕ → List Entry → List Entry → List Entry × Bool
unfolding has_id
add_entries node [] hdr = (hdr, true)
add_entries node (e ∷ es) hdr =
    let skipped = add_entries node es hdr in
    let added = add_entries node es (hdr ++ (e ∷ [])) in
    if has_id e.file_id hdr
    then skipped
    else if ltb node (length hdr + 1)
    then (hdr, false)
    else added

-- The transfer that a header frame goes to: the one there is, or a new one. `none` is a mismatch.
unfoldable pub header_trans : Io → Option Trans → FileHeader → Option Trans
unfolding trans_new
header_trans io none m =
    some (record (trans_new false m.trans_id io.now) { node_number = m.node_number })
header_trans io (some t) m =
    if not (t.trans_id == m.trans_id) || not (t.node_number == m.node_number) then none else some t

abbrev pub is_rx_over : Phase → Bool
is_rx_over failed = true
is_rx_over rx_done = true
is_rx_over _ = false

abbrev pub is_finished : Option Trans → Bool
is_finished none = false
is_finished (some t) = is_rx_over t.phase

-- `handle_file_header`.
unfoldable pub handle_file_header : Io → Conn → List ℕ → Step
unfolding header_trans add_entries header_complete
handle_file_header io c frame =
    if is_finished c.rx then (c, []) else elim (decode_file_header frame) [
      | none ↦ shutdown io c
      | some m ↦ if m.node_number == 0 then shutdown io c else elim (header_trans io c.rx m) [
        | none ↦ shutdown io c
        | some t ↦
            let added = add_entries m.node_number m.entries t.hdr in
            let u = record t { hdr = added.0 } in
            let c' = record c { rx = some u } in
            if not added.1
            then shutdown io c'
            else if leb m.node_number (length added.0)
            then header_complete io u c'
            else (c', [])
      ]
    ]
