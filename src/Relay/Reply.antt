-- ===== src/Relay/Reply.antt =====
-- What a handler returns (server.py): a value for each form of the text, and the text itself.
use dns_messenger.Prelude.{ℕ, Bool, List, ◌++◌, if◌then◌else◌, take}
use dns_messenger.Prelude.Int.{ℤ}
use dns_messenger.Prelude.Text.{Text, Bytes, text, join_with, show, show_int}
use dns_messenger.Protocol.{b32encode}

-- 'ERR:<name>'
pub data Error : Type 0 where
  bad_reg full pinned no_user not_found bad_send auth replay : Error
  bad_gcreate exists bad_ginvite no_group not_member mid_conflict bad_gsend bad_gpoll : Error
  bad_gleave bad_gkick use_leave target_not_member bad_gmembers : Error
  bad_diskreg unpinned busy incomplete : Error
  bad_fheader bad_total bad_fchunk no_file bad_seq bad_fdl bad_chunk unknown_cmd : Error

-- What a handler lets escape: ValueError of int() and min(), binascii.Error of b32decode, KeyError
-- of a dictionary, TypeError of a verify key that is None.
pub data Exception : Type 0 where
  value_error binascii_error key_error type_error : Exception

pub data Reply : Type 0 where
  err : Error → Reply
  raised : Exception → Reply
  ok : Text → Reply
  ok_plain ok_chunk delivered complete left kicked empty eof : Reply
  invited : Text → Reply
  chunk : ℕ → ℕ → Reply
  file_chunk : ℕ → Reply
  key : Bool → Bytes → Reply
  msg : Text → Text → Reply
  gmsg : Text → Text → Reply
  groups : List Text → Reply
  members : List Text → Reply
  registry : List Text → Reply
  file : Text → Text → Text → ℤ → Reply
  piece : ℤ → ℕ → Text → Reply
  users : List Text → Reply

unfoldable pub error_text : Error → Text
error_text bad_reg = text "ERR:bad_reg"
error_text full = text "ERR:full"
error_text pinned = text "ERR:pinned"
error_text no_user = text "ERR:no_user"
error_text not_found = text "ERR:not_found"
error_text bad_send = text "ERR:bad_send"
error_text auth = text "ERR:auth"
error_text replay = text "ERR:replay"
error_text bad_gcreate = text "ERR:bad_gcreate"
error_text exists = text "ERR:exists"
error_text bad_ginvite = text "ERR:bad_ginvite"
error_text no_group = text "ERR:no_group"
error_text not_member = text "ERR:not_member"
error_text mid_conflict = text "ERR:mid_conflict"
error_text bad_gsend = text "ERR:bad_gsend"
error_text bad_gpoll = text "ERR:bad_gpoll"
error_text bad_gleave = text "ERR:bad_gleave"
error_text bad_gkick = text "ERR:bad_gkick"
error_text use_leave = text "ERR:use_leave"
error_text target_not_member = text "ERR:target_not_member"
error_text bad_gmembers = text "ERR:bad_gmembers"
error_text bad_diskreg = text "ERR:bad_diskreg"
error_text unpinned = text "ERR:unpinned"
error_text busy = text "ERR:busy"
error_text incomplete = text "ERR:incomplete"
error_text bad_fheader = text "ERR:bad_fheader"
error_text bad_total = text "ERR:bad_total"
error_text bad_fchunk = text "ERR:bad_fchunk"
error_text no_file = text "ERR:no_file"
error_text bad_seq = text "ERR:bad_seq"
error_text bad_fdl = text "ERR:bad_fdl"
error_text bad_chunk = text "ERR:bad_chunk"
error_text unknown_cmd = text "ERR:unknown_cmd"

-- The text of the TXT answer. `message` is str(exc), which Python writes.
unfoldable pub render : (Exception → Text) → Reply → Text
unfolding error_text
render message (err e) = error_text e
render message (raised e) = text "ERR:" ++ take 80 (message e)
render message (ok t) = text "OK:" ++ t
render message ok_plain = text "OK"
render message ok_chunk = text "OK:chunk"
render message delivered = text "OK:delivered"
render message complete = text "OK:complete"
render message left = text "OK:left"
render message kicked = text "OK:kicked"
render message empty = text "EMPTY"
render message eof = text "EOF"
render message (invited user) = text "OK:invited:" ++ user
render message (chunk seq total) = text "OK:chunk:" ++ (show seq ++ (text "/" ++ show total))
render message (file_chunk seq) = text "OK:chunk:" ++ show seq
render message (key pin bundle) =
    text "KEY:" ++ ((if pin then text "1" else text "0") ++ (text ":" ++ b32encode bundle))
render message (msg from payload) = text "MSG:" ++ (from ++ (text ":" ++ payload))
render message (gmsg from payload) = text "GMSG:" ++ (from ++ (text ":" ++ payload))
render message (groups entries) = text "GROUPS:" ++ join_with (text "|") entries
render message (members names) = text "MEMBERS:" ++ join_with (text ",") names
render message (registry entries) = text "OK:" ++ join_with (text ",") entries
render message (file fid from name size) =
    text "FILE:"
    ++ (fid ++ (text ":" ++ (from ++ (text ":" ++ (name ++ (text ":" ++ show_int size))))))
render message (piece seq total_seq part) =
    text "FDATA:" ++ (show_int seq ++ (text ":" ++ (show total_seq ++ (text ":" ++ part))))
render message (users names) = text "USERS:" ++ join_with (text "|") names
