-- ===== src/Ban/Requests.antt =====
-- The storage over a sequence of requests, from the start of the process on.
use Prim.Native.String.{String}
use infrarust.Common.{
  ℕ, Bool, true, false, Option, none, some, List, [], ◌∷◌, Option-cases, Bool-cases, inl, inr,
}
use infrarust.Common.Maps.{Map, nat_key, string_key}
use infrarust.Ban.Types.{
  BanTarget, ip, username, uuid, BanEntry, is_expired, BanAction, BanAuditLogEntry,
}
use infrarust.Ban.Storage.{
  FileBanStorage, BanFile, missing, corrupt, holds, Write, find, discard, store, persist, load,
  populate_maps, purge_maps, purge_expired, add_ban, add_audit_entry, is_banned, remove_ban,
  check_target, check_uuid, check_player, or_then,
}
use infrarust.Ban.View.{persist-find_fields}
use infrarust.Ban.Purge.{purge_fields}

pub data Request : Type 0 where
  loading : Option BanFile → Bool → Request
  banning : BanEntry → ℕ → Write → Request
  unbanning : BanTarget → ℕ → Write → Request
  checking : BanTarget → ℕ → Write → Request
  joining : ℕ → String → Option ℕ → ℕ → Request
  purging : ℕ → Write → Request

-- `FileBanStorage::new`, with the file as it lies there.
abbrev pub new : BanFile → FileBanStorage
new file = record { ip_bans = []; username_bans = []; uuid_bans = []; audit_log = []; file = file }

-- A property of the three indexes.
abbrev pub Of :
    (Map ℕ BanEntry → Map String BanEntry → Map ℕ BanEntry → Type 0) → FileBanStorage → Type 0
Of P s = P s.ip_bans s.username_bans s.uuid_bans

module _ (to_lowercase : String → String) where
  pub perform : FileBanStorage → Request → FileBanStorage
  perform s (loading file moved) = (load to_lowercase s file moved).1
  perform s (banning e now write) = (add_ban to_lowercase s e now write).1
  perform s (unbanning t now write) = (remove_ban to_lowercase s t now write).1
  perform s (checking t now write) = (is_banned to_lowercase s t now write).1
  perform s (joining address name id now) = (check_player to_lowercase s address name id now).1
  perform s (purging now write) = (purge_expired s now write).1

  pub perform_all : FileBanStorage → List Request → FileBanStorage
  perform_all s [] = s
  perform_all s (r ∷ rs) = perform_all (perform s r) rs

  -- An invariant of the three indexes is kept by all requests if the writes, the removals and the
  -- purge keep it.
  module _ (P : Map ℕ BanEntry → Map String BanEntry → Map ℕ BanEntry → Type 0)
      (stores : (s : FileBanStorage) (e : BanEntry)
        → Of P s
        → Of P (store to_lowercase s e.target e))
      (discards : (s : FileBanStorage) (t : BanTarget) → Of P s → Of P (discard to_lowercase s t))
      (purges : (s : FileBanStorage) (now : ℕ) → Of P s → Of P (purge_maps s now)) where
    abbrev pub Kept : FileBanStorage → Type 0
    Kept s = Of P s

    persist-Kept : (s : FileBanStorage) (write : Write) → Kept s → Kept (persist s write).1
    persist-Kept s write h = let (p, q, r) = persist-find_fields s write in rw (p, q, r) h

    audit-Kept : (s : FileBanStorage) (a : BanAuditLogEntry) → Kept s → Kept (add_audit_entry s a)
    unfolding add_audit_entry
    audit-Kept s a h = h

    populate_maps-Kept :
        (s : FileBanStorage) (es : List BanEntry) → Kept s → Kept (populate_maps to_lowercase s es)
    unfolding populate_maps
    populate_maps-Kept s [] h = h
    populate_maps-Kept s (e ∷ es) h =
        populate_maps-Kept (store to_lowercase s e.target e) es (stores s e h)

    load-Kept :
        (s : FileBanStorage) (file : Option BanFile) (moved : Bool)
        → Kept s
        → Kept (load to_lowercase s file moved).1
    unfolding load
    load-Kept s none moved h = h
    load-Kept s (some missing) moved h = h
    load-Kept s (some corrupt) true h = h
    load-Kept s (some corrupt) false h = h
    load-Kept s (some (holds contents)) moved h = populate_maps-Kept s contents.bans h

    remove_ban-Kept :
        (s : FileBanStorage) (t : BanTarget) (now : ℕ) (write : Write)
        → Kept s
        → Kept (remove_ban to_lowercase s t now write).1
    unfolding remove_ban
    remove_ban-Kept s t now write h = elim (Option-cases (find to_lowercase s t)) [
      | inl n ↦ rw (n, remove_ban) h
      | inr (e, p) ↦ rw (p, remove_ban) (persist-Kept _ write (audit-Kept _ _ (discards s t h)))
    ]

    is_banned-Kept :
        (s : FileBanStorage) (t : BanTarget) (now : ℕ) (write : Write)
        → Kept s
        → Kept (is_banned to_lowercase s t now write).1
    unfolding is_banned
    is_banned-Kept s t now write h = elim (Option-cases (find to_lowercase s t)) [
      | inl n ↦ rw (n, is_banned) h
      | inr (e, p) ↦ elim (Bool-cases (is_expired now e)) [
        | inl x ↦ rw (p, x, is_banned) (persist-Kept _ write (discards s t h))
        | inr x ↦ rw (p, x, is_banned) h
      ]
    ]

    check_target-Kept :
        (s : FileBanStorage) (t : BanTarget) (now : ℕ)
        → Kept s
        → Kept (check_target to_lowercase s t now).1
    unfolding check_target
    check_target-Kept s t now h = elim (Option-cases (find to_lowercase s t)) [
      | inl n ↦ rw (n, check_target) h
      | inr (e, p) ↦ elim (Bool-cases (is_expired now e)) [
        | inl x ↦ rw (p, x, check_target) (discards s t h)
        | inr x ↦ rw (p, x, check_target) h
      ]
    ]

    check_uuid-Kept :
        (s : FileBanStorage) (id : Option ℕ) (now : ℕ)
        → Kept s
        → Kept (check_uuid to_lowercase id now s).1
    unfolding check_uuid
    check_uuid-Kept s none now h = h
    check_uuid-Kept s (some u) now h = check_target-Kept s (uuid u) now h

    or_then-Kept :
        (r : Option BanEntry × FileBanStorage)
        (next : FileBanStorage → Option BanEntry × FileBanStorage)
        → Kept r.1
        → Kept (next r.1).1
        → Kept (or_then r next).1
    or_then-Kept (none, s) next h h' = h'
    or_then-Kept (some e, s) next h h' = h

    check_player-Kept :
        (s : FileBanStorage) (address : ℕ) (name : String) (id : Option ℕ) (now : ℕ)
        → Kept s
        → Kept (check_player to_lowercase s address name id now).1
    unfolding check_player
    check_player-Kept s address name id now h =
        let by_ip = check_target to_lowercase s (ip address) now in
        let by_name = check_target to_lowercase by_ip.1 (username name) now in
        let first = check_target-Kept s (ip address) now h in
        let second = check_target-Kept by_ip.1 (username name) now first in
        let third = check_uuid-Kept by_name.1 id now second in
        let rest = or_then-Kept by_name (check_uuid to_lowercase id now) second third in
        or_then-Kept by_ip
          (λ s₁.
            or_then (check_target to_lowercase s₁ (username name) now)
              (check_uuid to_lowercase id now))
          first rest

    perform-Kept : (s : FileBanStorage) (r : Request) → Kept s → Kept (perform s r)
    unfolding perform add_ban
    perform-Kept s (loading file moved) h = load-Kept s file moved h
    perform-Kept s (banning e now write) h =
        let banned = store to_lowercase s e.target e in
        let audit : BanAuditLogEntry = record {
          action = BanAction.ban;
          target = e.target;
          reason = e.reason;
          source = e.source;
          timestamp = now;
        } in
        persist-Kept (add_audit_entry banned audit) write (audit-Kept banned audit (stores s e h))
    perform-Kept s (unbanning t now write) h = remove_ban-Kept s t now write h
    perform-Kept s (checking t now write) h = is_banned-Kept s t now write h
    perform-Kept s (joining address name id now) h = check_player-Kept s address name id now h
    perform-Kept s (purging now write) h =
        (let (p, q, r) = purge_fields s now write in rw (p, q, r) (purges s now h))

    pub requests-Kept : (s : FileBanStorage) (rs : List Request) → Kept s → Kept (perform_all s rs)
    unfolding perform_all
    requests-Kept s [] h = h
    requests-Kept s (r ∷ rs) h = requests-Kept (perform s r) rs (perform-Kept s r h)
