-- ===== src/Examples/Files.antt =====
-- Runs of the upload and the download of a file.
use dns_messenger.Prelude.{
  ℕ, zero, ◌≡◌, ◌≢◌, ◌<◌, refl, true, false, some, List, [], ◌∷◌, arith, list_eq, list_nat_eq,
  contains, nat_eq,
}
use dns_messenger.Prelude.Int.{pos}
use dns_messenger.Prelude.Text.{Text, text}
use dns_messenger.Dict.{get, values}
use dns_messenger.Relay.State.{Relay, FileInfo, init}
use dns_messenger.Relay.Files.{completed, h_fheader, all_pending}
use dns_messenger.Relay.Files.Upload.{upload, whole, with_file, upload-complete}
use dns_messenger.Relay.Files.Download.{pieces, fetch, pieces-fetch}
use dns_messenger.Relay.Files.Room.{files-h_fheader_waiting}
use dns_messenger.Examples.{alice, bob}

abbrev fid : Text
fid = text "f1"

abbrev header : FileInfo
header = record {
  name = text "mfra";
  sender = alice;
  dest = bob;
  size = pos 2;
  total = 2;
  chunks = [];
  complete = false;
  data_b32 = [];
  ts = 1000;
}

with_header : Relay
unfolding init
with_header = record (init 1000) { files = (fid, header) ∷ [] }

halves : ℕ → Text
halves zero = text "nb"
halves _ = text "uq"

both_come : (k : ℕ) → k < 2 → contains k (1 ∷ 1 ∷ 0 ∷ []) ≡ true
unfolding contains
both_come k lt = ground arith

upload-complete_example :
    (get fid (upload fid halves (1 ∷ 1 ∷ 0 ∷ []) with_header).files
      ≡ some (completed (whole fid halves header) header))
    × ((upload fid halves (1 ∷ 1 ∷ 0 ∷ []) with_header).file_inbox
        ≡ with_file fid halves header with_header)
unfolding with_header get list_eq
upload-complete_example =
    upload-complete fid halves header (1 ∷ 1 ∷ 0 ∷ []) with_header refl refl refl (omega arith)
      (omega arith) both_come

abbrev ready : FileInfo
ready = completed (text "nbuq") header

with_ready : Relay
unfolding init
with_ready = record (init 1000) { files = (fid, ready) ∷ []; file_inbox = (bob, fid ∷ []) ∷ [] }

pieces-fetch_example : pieces (fetch 1 0 fid with_ready) ≡ text "nbuq"
unfolding with_ready get list_eq
pieces-fetch_example = pieces-fetch fid ready with_ready refl refl 1 (omega arith)

abbrev other_header : List Text
other_header = text "aa" ∷ text "1" ∷ text "3" ∷ []

f2-not-f1 : text "f2" ≢ fid
f2-not-f1 e = ground (arith, e)

files-h_fheader_waiting_example :
    get fid (h_fheader 2000 (bob ∷ alice ∷ text "f2" ∷ other_header) with_ready).1.files
    ≡ get fid with_ready.files
unfolding with_ready contains all_pending values list_eq
files-h_fheader_waiting_example =
    files-h_fheader_waiting 2000 bob alice (text "f2") other_header with_ready fid refl f2-not-f1
