-- ===== src/Relay/Evict.antt =====
-- What the relay sweeps out when it is stale (server.py, _evict), at most once in EVICT_INTERVAL.
use dns_messenger.Prelude.{
  ℕ, ◌-◌, ◌*◌, List, if◌then◌else◌, ltb, leb, list_nat_eq, length, drop, keep,
}
use dns_messenger.Prelude.Text.{Text}
use dns_messenger.Dict.{Dict, has, pop_all, keys_where, restrict, map_values}
use dns_messenger.Relay.State.{
  Relay, Assembler, Message, FileInfo, PendingDisk, PendingInvite, second, assembly_ttl, file_ttl,
  mailbox_ttl, evict_interval, max_mailbox_msgs,
}
use dns_messenger.Relay.Limiter.{is_nonempty}

-- 1. Assemblies that are not complete, by their time.
unfoldable pub sweep_assembler : ℕ → Assembler → Assembler
sweep_assembler now a =
    let stale = keys_where (λ m. ltb assembly_ttl (now - m.ts)) a.meta in
    record a { chunks = pop_all stale a.chunks; meta = pop_all stale a.meta }

-- 2. Files by their time, and the pointers to files that are gone.
unfoldable pub sweep_files : ℕ → Dict Text FileInfo → Dict Text FileInfo
sweep_files now files = restrict (λ f. leb (now - f.ts) file_ttl) files

unfoldable pub sweep_inbox : Dict Text FileInfo → Dict Text (List Text) → Dict Text (List Text)
sweep_inbox files inbox = restrict is_nonempty (map_values (keep (λ fid. has fid files)) inbox)

-- 3. Messages by their time, which is in seconds, and the cap of a box.
unfoldable pub fresh_mail : ℕ → List Message → List Message
fresh_mail now box =
    let kept = keep (λ (m : Message). ltb (now - m.ts * second) mailbox_ttl) box in
    drop (length kept - max_mailbox_msgs) kept

unfoldable pub sweep_mail : ℕ → Dict Text (List Message) → Dict Text (List Message)
sweep_mail now mail = restrict is_nonempty (map_values (fresh_mail now) mail)

unfoldable pub sweep_dm : ℕ → Assembler → Assembler
sweep_dm now a =
    let swept = sweep_assembler now a in record swept { mail = sweep_mail now swept.mail }

-- 4. and 5. The parts of disk registrations and of invitations.
unfoldable pub sweep_disk : ℕ → Dict Text PendingDisk → Dict Text PendingDisk
sweep_disk now pending = restrict (λ p. leb (now - p.ts) assembly_ttl) pending

unfoldable pub sweep_invites : ℕ → Dict Text PendingInvite → Dict Text PendingInvite
sweep_invites now pending = restrict (λ p. leb (now - p.ts) assembly_ttl) pending

unfoldable pub sweep_all : ℕ → Relay → Relay
sweep_all now s =
    let files = sweep_files now s.files in
    record s {
      last_evict = now;
      dm = sweep_dm now s.dm;
      gm = sweep_assembler now s.gm;
      files = files;
      file_inbox = sweep_inbox files s.file_inbox;
      diskreg_pending = sweep_disk now s.diskreg_pending;
      ginvite_pending = sweep_invites now s.ginvite_pending;
    }

unfoldable pub evict : ℕ → Relay → Relay
evict now s = if ltb (now - s.last_evict) evict_interval then s else sweep_all now s
