-- ===== src/Bridge.antt =====
-- disk_bridge.py: the registry of client folders that the bridge reads from the relay.
pub mod Registry
use dns_messenger.Prelude.{
  ◌==◌, Bool, true, false, Option, none, some, List, [], ◌∷◌, if◌then◌else◌, drop, contains, nat_eq,
  list_nat_eq,
}
use dns_messenger.Prelude.Text.{Text, Bytes, text, startswith}
use dns_messenger.Dict.{Dict, put}
use dns_messenger.Protocol.{b32decode}
use dns_messenger.Web.Peers.{partition_colon}

-- s.split(','), the first piece and the others
unfoldable pub split_commas : Text → Text × List Text
split_commas [] = ([], [])
split_commas (c ∷ s) =
    let (piece, pieces) = split_commas s in
    if c == b',' then ([], piece ∷ pieces) else (c ∷ piece, pieces)

module _ (utf8 : Bytes → Option Text) where
  -- out[user] = b32decode(pk_b32).decode('utf-8'), unless one of them raises
  unfoldable pub read_entry : Text → Dict Text Text → Dict Text Text
  unfolding partition_colon
  read_entry entry out =
      let (user, pk_b32) = partition_colon entry in
      if contains b':' entry
      then elim (b32decode pk_b32) [
        | none ↦ out
        | some raw ↦ elim (utf8 raw) [ none ↦ out | some pk ↦ put user pk out ]
      ]
      else out

  unfoldable pub read_entries : List Text → Dict Text Text → Dict Text Text
  unfolding read_entry
  read_entries [] out = out
  read_entries (entry ∷ entries) out = read_entries entries (read_entry entry out)

  -- `txt` is the text of the relay's answer; `none` stands for no answer, and for one that is no DNS
  -- packet.
  unfoldable pub fetch_registry : Option Text → Dict Text Text
  unfolding read_entries split_commas
  fetch_registry none = []
  fetch_registry (some txt) =
      let (entry, entries) = split_commas (drop 3 txt) in
      if startswith (text "OK:") txt then read_entries (entry ∷ entries) [] else []
