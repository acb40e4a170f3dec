-- ===== src/Ban/Storage.antt =====
-- ban/file_storage.rs: `FileBanStorage`. The result of writing the file is an argument of the
-- operations that persist; JSON stands for its own contents, with times in whole seconds, as
-- `epoch_serde` writes them. Each operation is one step: the clock is read once.
use Prim.Native.String.{String}
use infrarust.Common.{
  ℕ, ◌-◌, ◌*◌, ◌/◌, Bool, true, false, Option, none, some, List, [], ◌∷◌, ◌++◌, map, length, drop,
  ltb, if◌then◌else◌,
}
use infrarust.Common.Maps.{Map, Eq, lookup, insert, remove, nat_key, string_key}
use infrarust.Ban.Types.{
  BanTarget, ip, username, uuid, BanEntry, is_expired, BanAction, BanAuditLogEntry, second,
}

-- `BanFileData`
pub record BanFileData : Type 0 where
  pub bans : List BanEntry
  pub audit_log : List BanAuditLogEntry

pub data BanFile : Type 0 where
  missing : BanFile
  corrupt : BanFile
  holds : BanFileData → BanFile

pub record FileBanStorage : Type 0 where
  pub ip_bans : Map ℕ BanEntry
  pub username_bans : Map String BanEntry
  pub uuid_bans : Map ℕ BanEntry
  pub audit_log : List BanAuditLogEntry
  pub file : BanFile

pub data Result {ℓ} (A : Type ℓ) : Type ℓ where
  ok : A → Result A
  err : Result A

-- How a write of the file ends: done, skipped since the lock was not to be had in time, or failed.
pub data Write : Type 0 where
  written skipped failed : Write

abbrev pub max_audit_log_entries : ℕ
max_audit_log_entries = 10_000

-- Times survive to the second.
abbrev pub whole_seconds : ℕ → ℕ
whole_seconds t = t / second * second

abbrev pub stored_entry : BanEntry → BanEntry
stored_entry e = record e {
  expires_at = elim e.expires_at [ none ↦ none | some t ↦ some (whole_seconds t) ];
  created_at = whole_seconds e.created_at;
}

abbrev pub stored_audit : BanAuditLogEntry → BanAuditLogEntry
stored_audit a = record a { timestamp = whole_seconds a.timestamp }

module _ {ℓ} {K : Type ℓ} where
  abbrev pub values : Map K BanEntry → List BanEntry
  values [] = []
  values ((k, e) ∷ m) = e ∷ values m

  -- The entries that are not expired.
  abbrev pub active_values : ℕ → Map K BanEntry → List BanEntry
  active_values now [] = []
  active_values now ((k, e) ∷ m) =
      let rest = active_values now m in if is_expired now e then rest else e ∷ rest

  unfoldable pub expired_keys : ℕ → Map K BanEntry → List K
  expired_keys now [] = []
  expired_keys now ((k, e) ∷ m) =
      let rest = expired_keys now m in if is_expired now e then k ∷ rest else rest

module _ {ℓ} {K : Type ℓ} ⦃eq : Eq K⦄ where
  unfoldable pub remove_all : List K → Map K BanEntry → Map K BanEntry
  remove_all [] m = m
  remove_all (k ∷ ks) m = remove_all ks (remove k m)

abbrev pub serialize_all : FileBanStorage → BanFileData
serialize_all s = record {
  bans = map stored_entry (values s.ip_bans ++ (values s.username_bans ++ values s.uuid_bans));
  audit_log = map stored_audit s.audit_log;
}

unfoldable pub persist : FileBanStorage → Write → Result (Unit {0}) × FileBanStorage
persist s Write.written = (ok tt, record s { file = holds (serialize_all s) })
persist s Write.skipped = (ok tt, s)
persist s Write.failed = (err, s)

abbrev pub with_value {ℓ} : {A : Type ℓ} → Result (Unit {0}) → A → Result A
with_value (ok _) a = ok a
with_value err a = err

-- `persist().await?` before a result.
abbrev pub persisting {ℓ} : {A : Type ℓ} → FileBanStorage → Write → A → Result A × FileBanStorage
persisting s write a = let (r, s') = persist s write in (with_value r a, s')

unfoldable pub add_audit_entry : FileBanStorage → BanAuditLogEntry → FileBanStorage
add_audit_entry s entry =
    let log = s.audit_log ++ (entry ∷ []) in
    record s {
      audit_log =
          if ltb max_audit_log_entries (length log)
          then drop (length log - max_audit_log_entries) log
          else log;
    }

abbrev pub expiry_audit : ℕ → BanTarget → BanAuditLogEntry
expiry_audit now target = record {
  action = BanAction.expired;
  target = target;
  reason = none;
  source = "system";
  timestamp = now;
}

abbrev pub or_then :
    Option BanEntry × FileBanStorage
    → (FileBanStorage → Option BanEntry × FileBanStorage)
    → Option BanEntry × FileBanStorage
or_then (some e, s) next = (some e, s)
or_then (none, s) next = next s

abbrev pub get_all_active : FileBanStorage → ℕ → List BanEntry
get_all_active s now =
    active_values now s.ip_bans
    ++ (active_values now s.username_bans ++ active_values now s.uuid_bans)

unfoldable pub purge_maps : FileBanStorage → ℕ → FileBanStorage
purge_maps s now = record s {
  ip_bans = remove_all (expired_keys now s.ip_bans) s.ip_bans;
  username_bans = remove_all (expired_keys now s.username_bans) s.username_bans;
  uuid_bans = remove_all (expired_keys now s.uuid_bans) s.uuid_bans;
}

unfoldable pub purged_targets : FileBanStorage → ℕ → List BanTarget
purged_targets s now =
    map ip (expired_keys now s.ip_bans)
    ++ (map username (expired_keys now s.username_bans) ++ map uuid (expired_keys now s.uuid_bans))

unfoldable pub purge_expired : FileBanStorage → ℕ → Write → Result ℕ × FileBanStorage
purge_expired s now write =
    let purged = length (purged_targets s now) in
    if ltb 0 purged
    then persisting
        (record (purge_maps s now) {
          audit_log = s.audit_log ++ map (expiry_audit now) (purged_targets s now);
        })
        write purged
    else (ok 0, purge_maps s now)

-- `to_lowercase` is the standard library's.
module _ (to_lowercase : String → String) where
  -- The entry of a target, expired or not.
  unfoldable pub find : FileBanStorage → BanTarget → Option BanEntry
  find s (ip a) = lookup a s.ip_bans
  find s (username n) = lookup (to_lowercase n) s.username_bans
  find s (uuid u) = lookup u s.uuid_bans

  -- The write of `add_ban` and of `populate_maps`.
  unfoldable pub store : FileBanStorage → BanTarget → BanEntry → FileBanStorage
  store s (ip a) e = record s { ip_bans = insert a e s.ip_bans }
  store s (username n) e = record s { username_bans = insert (to_lowercase n) e s.username_bans }
  store s (uuid u) e = record s { uuid_bans = insert u e s.uuid_bans }

  unfoldable pub discard : FileBanStorage → BanTarget → FileBanStorage
  discard s (ip a) = record s { ip_bans = remove a s.ip_bans }
  discard s (username n) = record s { username_bans = remove (to_lowercase n) s.username_bans }
  discard s (uuid u) = record s { uuid_bans = remove u s.uuid_bans }

  unfoldable pub populate_maps : FileBanStorage → List BanEntry → FileBanStorage
  populate_maps s [] = s
  populate_maps s (e ∷ es) = populate_maps (store s e.target e) es

  -- `load`: the file as it was read, or `none` for an error other than a missing file, and whether
  -- a corrupt file can be moved away.
  unfoldable pub load : FileBanStorage → Option BanFile → Bool → Result (Unit {0}) × FileBanStorage
  load s none moved = (err, s)
  load s (some missing) moved = (ok tt, s)
  load s (some corrupt) moved = (ok tt, if moved then record s { file = missing } else s)
  load s (some (holds contents)) moved =
      (ok tt, record (populate_maps s contents.bans) { audit_log = contents.audit_log })

  unfoldable pub add_ban :
      FileBanStorage → BanEntry → ℕ → Write → Result (Unit {0}) × FileBanStorage
  add_ban s entry now write =
      persist
        (add_audit_entry (store s entry.target entry) (record {
          action = BanAction.ban;
          target = entry.target;
          reason = entry.reason;
          source = entry.source;
          timestamp = now;
        }))
        write

  unfoldable pub remove_ban : FileBanStorage → BanTarget → ℕ → Write → Result Bool × FileBanStorage
  remove_ban s target now write = elim (find s target) [
    | none ↦ (ok false, s)
    | some e ↦
        persisting
          (add_audit_entry (discard s target) (record {
            action = BanAction.unban;
            target = target;
            reason = none;
            source = "";
            timestamp = now;
          }))
          write true
  ]

  unfoldable pub is_banned :
      FileBanStorage → BanTarget → ℕ → Write → Result (Option BanEntry) × FileBanStorage
  is_banned s target now write = elim (find s target) [
    | none ↦ (ok none, s)
    | some e ↦
        if is_expired now e then persisting (discard s target) write none else (ok (some e), s)
  ]

  -- `check_player` by one target: the ban, or the storage to go on with.
  unfoldable pub check_target : FileBanStorage → BanTarget → ℕ → Option BanEntry × FileBanStorage
  check_target s target now = elim (find s target) [
    | none ↦ (none, s)
    | some e ↦ if is_expired now e then (none, discard s target) else (some e, s)
  ]

  unfoldable pub check_uuid : Option ℕ → ℕ → FileBanStorage → Option BanEntry × FileBanStorage
  check_uuid none now s = (none, s)
  check_uuid (some u) now s = check_target s (uuid u) now

  unfoldable pub check_player :
      FileBanStorage → ℕ → String → Option ℕ → ℕ → Option BanEntry × FileBanStorage
  check_player s address name id now =
      or_then (check_target s (ip address) now)
        (λ s₁. or_then (check_target s₁ (username name) now) (check_uuid id now))
