-- ===== src/Ban/Purge.antt =====
-- `purge_expired`, and the invariant that each index of the storage holds a key once.
use Prim.Native.String.{String}
use infrarust.Common.{
  ℕ, ◌≤◌, ◌+◌, ◌≡◌, ◌≢◌, refl, ap, ◌++◌, Bool-cases, inl, inr, arith, length-append, length-map,
  length, ltb, map,
}
use infrarust.Common.Maps.{lookup, nat_key, string_key}
use infrarust.Ban.Types.{BanTarget, ip, username, uuid}
use infrarust.Ban.Storage.{
  FileBanStorage, ok, Write, find, expired_keys, purge_maps, purge_expired, purged_targets,
  expiry_audit,
}
use infrarust.Ban.View.{active, live_at, persist_result, persist-find_fields}
use infrarust.Common.Keys.{IsUnique}
use infrarust.Ban.Keys.{purged_view, length-purged, live-purged, remove_all-IsUnique}

-- Each index holds a key once.
abbrev pub IsKeyed : FileBanStorage → Type 0
IsKeyed s = IsUnique s.ip_bans × IsUnique s.username_bans × IsUnique s.uuid_bans

-- The entries held, expired or not.
abbrev pub held : FileBanStorage → ℕ
held s = length s.ip_bans + (length s.username_bans + length s.uuid_bans)

pub length-targets :
    (s : FileBanStorage) (now : ℕ) (k : IsKeyed s)
    → held s ≡ length (purged_targets s now) + held (purge_maps s now)
unfolding purged_targets purge_maps
length-targets s now k =
    let ips = expired_keys now s.ip_bans in
    let names = expired_keys now s.username_bans in
    let uuids = expired_keys now s.uuid_bans in
    omega (
      arith,
      length-append (map ip ips) (map username names ++ map uuid uuids),
      length-append (map username names) (map uuid uuids),
      length-map ip ips,
      length-map username names,
      length-map uuid uuids,
      length-purged now s.ip_bans k.0,
      length-purged now s.username_bans k.1,
      length-purged now s.uuid_bans k.2,
    )

-- What is persisted.
abbrev pub logged : FileBanStorage → ℕ → FileBanStorage
logged s now = record (purge_maps s now) {
  audit_log = s.audit_log ++ map (expiry_audit now) (purged_targets s now);
}

purge_result :
    (s : FileBanStorage) (now : ℕ) (write : Write)
    → write ≢ Write.failed
    → (purge_expired s now write).0 ≡ ok (length (purged_targets s now))
unfolding purge_expired
purge_result s now write h = elim (Bool-cases (ltb 0 (length (purged_targets s now)))) [
  | inl q ↦ rw (q, persist_result (logged s now) write h) refl
  | inr q ↦
      let none_purged : length (purged_targets s now) ≡ 0 = ground arith in rw none_purged refl
]

pub purge_fields :
    (s : FileBanStorage) (now : ℕ) (write : Write)
    → ((purge_expired s now write).1.ip_bans ≡ (purge_maps s now).ip_bans)
      × ((purge_expired s now write).1.username_bans ≡ (purge_maps s now).username_bans)
      × ((purge_expired s now write).1.uuid_bans ≡ (purge_maps s now).uuid_bans)
unfolding purge_expired
purge_fields s now write = elim (Bool-cases (ltb 0 (length (purged_targets s now)))) [
  | inl q ↦ rw q (persist-find_fields (logged s now) write)
  | inr q ↦ rw q (refl, refl, refl)
]

pub purge_maps-IsKeyed : (s : FileBanStorage) (now : ℕ) → IsKeyed s → IsKeyed (purge_maps s now)
unfolding purge_maps
purge_maps-IsKeyed s now (a, b, c) = (
  remove_all-IsUnique (expired_keys now s.ip_bans) s.ip_bans a,
  remove_all-IsUnique (expired_keys now s.username_bans) s.username_bans b,
  remove_all-IsUnique (expired_keys now s.uuid_bans) s.uuid_bans c,
)

-- In a storage whose indexes hold each key once, if the file can be written, a purge answers with
-- the number of entries that it drops.
pub purge_expired_count :
    (s : FileBanStorage) (now : ℕ) (write : Write)
    → IsKeyed s
    → write ≢ Write.failed
    → (n : ℕ) × ((purge_expired s now write).0 ≡ ok n)
      × (held s ≡ n + held (purge_expired s now write).1)
purge_expired_count s now write k h =
    let (p, q, r) = purge_fields s now write in
    (
      length (purged_targets s now),
      purge_result s now write h,
      rw (p, q, r) (length-targets s now k),
    )

module _ (to_lowercase : String → String) where
  find-purge :
      (s : FileBanStorage) (now : ℕ) (write : Write) (u : BanTarget)
      → find to_lowercase (purge_expired s now write).1 u ≡ find to_lowercase (purge_maps s now) u
  unfolding find
  find-purge s now write (ip a) = ap (lookup a) (purge_fields s now write).0
  find-purge s now write (username n) = ap (lookup (to_lowercase n)) (purge_fields s now write).1
  find-purge s now write (uuid a) = ap (lookup a) (purge_fields s now write).2

  maps_view :
      (s : FileBanStorage) (now later : ℕ) (u : BanTarget)
      → now ≤ later
      → IsKeyed s
      → (live_at later (find to_lowercase (purge_maps s now) u)
          ≡ live_at later (find to_lowercase s u))
        × (live_at now (find to_lowercase (purge_maps s now) u)
            ≡ find to_lowercase (purge_maps s now) u)
  unfolding find purge_maps
  maps_view s now later (ip a) h (i, n, u) =
      (purged_view now later a s.ip_bans h i, live-purged now a s.ip_bans i)
  maps_view s now later (username m) h (i, n, u) = (
    purged_view now later (to_lowercase m) s.username_bans h n,
    live-purged now (to_lowercase m) s.username_bans n,
  )
  maps_view s now later (uuid a) h (i, n, u) =
      (purged_view now later a s.uuid_bans h u, live-purged now a s.uuid_bans u)

  -- In a storage whose indexes hold each key once, a purge changes no ban in force from then on,
  -- and leaves no expired entry.
  pub purge_expired_view :
      (s : FileBanStorage) (now later : ℕ) (write : Write) (u : BanTarget)
      → now ≤ later
      → IsKeyed s
      → (active to_lowercase (purge_expired s now write).1 later u ≡ active to_lowercase s later u)
        × (active to_lowercase (purge_expired s now write).1 now u
            ≡ find to_lowercase (purge_expired s now write).1 u)
  unfolding active
  purge_expired_view s now later write u le k =
      rw (find-purge s now write u) (maps_view s now later u le k)
