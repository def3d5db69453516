-- ===== src/Relay/State.antt =====
-- The relay's state and limits (server.py, RelayServer.__init__ and the constants above it). Times
-- are whole milliseconds, where the source has floats of seconds. All of the state is guarded by
-- one lock, and one thread handles the queries in turn.
use dns_messenger.Prelude.{ℕ, ◌*◌, Bool, Option, List, []}
use dns_messenger.Prelude.Int.{ℤ}
use dns_messenger.Prelude.Text.{Text, Bytes}
use dns_messenger.Dict.{Dict}

abbrev pub second : ℕ
second = 1000

abbrev pub bundle_b32_len : ℕ
bundle_b32_len = 103

abbrev pub poll_nonce_ttl : ℕ
poll_nonce_ttl = 300 * second

abbrev pub poll_ts_window : ℕ
poll_ts_window = 120 * second

abbrev pub assembly_ttl : ℕ
assembly_ttl = 120 * second

abbrev pub file_ttl : ℕ
file_ttl = 3600 * second

abbrev pub mailbox_ttl : ℕ
mailbox_ttl = 86400 * second

abbrev pub evict_interval : ℕ
evict_interval = 30 * second

abbrev pub max_mailbox_msgs : ℕ
max_mailbox_msgs = 500

abbrev pub max_files : ℕ
max_files = 500

abbrev pub max_incomplete : ℕ
max_incomplete = 1000

abbrev pub max_msg_chunks : ℕ
max_msg_chunks = 1000

abbrev pub max_file_chunks : ℕ
max_file_chunks = 8000

abbrev pub max_groups : ℕ
max_groups = 5000

abbrev pub max_users : ℕ
max_users = 50000

abbrev pub max_list_users_reply : ℕ
max_list_users_reply = 200

abbrev pub max_diskreg_chunks : ℕ
max_diskreg_chunks = 8

abbrev pub download_piece : ℕ
download_piece = 1400

abbrev pub udp_rrl_max : ℕ
udp_rrl_max = 20

abbrev pub udp_rrl_window : ℕ
udp_rrl_window = 5 * second

abbrev pub udp_rrl_sweep_interval : ℕ
udp_rrl_sweep_interval = 30 * second

-- {'bundle', 'pinned', 'ts'}, and 'disk_pubkey' once it is registered
pub record Account : Type 0 where
  pub bundle : Bytes
  pub pinned : Bool
  pub ts : ℕ
  pub disk_pubkey : Option Text

-- {'from', 'data', 'ts', 'id'}; `readers` is '_read', empty until a group's member reads.
pub record Message : Type 0 where
  pub sender : Text
  pub payload : Text
  pub ts : ℕ
  pub id : Text
  pub readers : List Text

-- (dest, total, sender, time)
pub record Meta : Type 0 where
  pub dest : Text
  pub total : ℕ
  pub sender : Text
  pub ts : ℕ

-- chunks_store, meta_store and mail_store, of direct messages or of groups
pub record Assembler : Type 0 where
  pub chunks : Dict Text (Dict ℕ Text)
  pub meta : Dict Text Meta
  pub mail : Dict Text (List Message)

-- {'data', 'from_user'}
pub record GroupKey : Type 0 where
  pub sealed : Text
  pub from_user : Text

-- `members` is a set: no name stands twice, and the order says nothing.
pub record Group : Type 0 where
  pub creator : Text
  pub members : List Text
  pub keys : Dict Text GroupKey
  pub ts : ℕ

pub record FileInfo : Type 0 where
  pub name : Text
  pub sender : Text
  pub dest : Text
  pub size : ℤ
  pub total : ℕ
  pub chunks : Dict ℕ Text
  pub complete : Bool
  pub data_b32 : Text
  pub ts : ℕ

-- ({seq: chunk}, last_seen_ts)
pub record PendingDisk : Type 0 where
  pub chunks : Dict ℕ Text
  pub ts : ℕ

-- ({seq: chunk}, total, time)
pub record PendingInvite : Type 0 where
  pub chunks : Dict ℕ Text
  pub total : ℕ
  pub ts : ℕ

pub record Limiter : Type 0 where
  pub hits : Dict Text (List ℕ)
  pub last_sweep : ℕ

pub record Relay : Type 0 where
  pub users : Dict Text Account
  pub seen_poll_nonces : Dict Text ℕ
  pub dm : Assembler
  pub groups : Dict Text Group
  pub gm : Assembler
  pub files : Dict Text FileInfo
  pub file_inbox : Dict Text (List Text)
  pub delivered_mids : Dict Text ℕ
  pub last_evict : ℕ
  pub limiter : Limiter
  pub diskreg_pending : Dict Text PendingDisk
  pub ginvite_pending : Dict Text PendingInvite

abbrev pub no_mail : Assembler
no_mail = record { chunks = []; meta = []; mail = [] }

-- RelayServer(…) at a time
unfoldable pub init : ℕ → Relay
init now = record {
  users = [];
  seen_poll_nonces = [];
  dm = no_mail;
  groups = [];
  gm = no_mail;
  files = [];
  file_inbox = [];
  delivered_mids = [];
  last_evict = now;
  limiter = record { hits = []; last_sweep = now };
  diskreg_pending = [];
  ginvite_pending = [];
}
