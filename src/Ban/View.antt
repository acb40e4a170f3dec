-- ===== src/Ban/View.antt =====
-- What the ban storage promises: a function from targets and times to the ban in force. Each
-- operation of the storage is described by its effect on that view.
use Prim.Native.String.{String}
use infrarust.Common.{
  ℕ, ◌≤◌, ◌≡◌, ◌≢◌, refl, sym, ap, Bool, true, false, Option, none, some, if◌then◌else◌,
  Option-cases, Bool-cases, inl, inr, arith,
}
use infrarust.Common.Maps.{lookup, nat_key, string_key, lookup-insert, lookup-remove}
use infrarust.Ban.Types.{
  BanTarget, ip, username, uuid, BanEntry, is_expired, expired_by, BanAuditLogEntry,
}
use infrarust.Ban.Storage.{
  FileBanStorage, ok, Write, persist, find, store, discard, add_ban, add_audit_entry, remove_ban,
  check_target,
}

abbrev pub live_at : ℕ → Option BanEntry → Option BanEntry
live_at now none = none
live_at now (some e) = if is_expired now e then none else some e

pub expired_by_mono :
    (now later : ℕ) (x : Option ℕ)
    → now ≤ later
    → expired_by now x ≡ true
    → expired_by later x ≡ true
unfolding expired_by
expired_by_mono now later none h e = cc
expired_by_mono now later (some t) h e = ground arith

-- Writing the file changes nothing else.
pub persist-find_fields :
    (s : FileBanStorage) (write : Write)
    → ((persist s write).1.ip_bans ≡ s.ip_bans)
      × ((persist s write).1.username_bans ≡ s.username_bans)
      × ((persist s write).1.uuid_bans ≡ s.uuid_bans)
unfolding persist
persist-find_fields s Write.written = (refl, refl, refl)
persist-find_fields s Write.skipped = (refl, refl, refl)
persist-find_fields s Write.failed = (refl, refl, refl)

pub persist_result :
    (s : FileBanStorage) (write : Write) → write ≢ Write.failed → (persist s write).0 ≡ ok tt
unfolding persist
persist_result s Write.written h = refl
persist_result s Write.skipped h = refl
persist_result s Write.failed h = absurd (h refl)

module _ (to_lowercase : String → String) where
  -- Two targets name the same ban: user names up to case.
  abbrev pub same_target : BanTarget → BanTarget → Bool
  same_target (ip a) (ip b) = nat_key.beq a b
  same_target (username n) (username m) = string_key.beq (to_lowercase n) (to_lowercase m)
  same_target (uuid u) (uuid v) = nat_key.beq u v
  same_target _ _ = false

  -- The ban in force on a target at a time.
  unfoldable pub active : FileBanStorage → ℕ → BanTarget → Option BanEntry
  active s now target = live_at now (find to_lowercase s target)

  pub find-store :
      (s : FileBanStorage) (t u : BanTarget) (e : BanEntry)
      → find to_lowercase (store to_lowercase s t e) u
        ≡ (if same_target t u then some e else find to_lowercase s u)
  unfolding find store
  find-store s (ip a) (ip b) e = lookup-insert a b e s.ip_bans
  find-store s (username n) (username m) e =
      lookup-insert (to_lowercase n) (to_lowercase m) e s.username_bans
  find-store s (uuid a) (uuid b) e = lookup-insert a b e s.uuid_bans
  find-store s (ip a) (username m) e = refl
  find-store s (ip a) (uuid b) e = refl
  find-store s (username n) (ip b) e = refl
  find-store s (username n) (uuid b) e = refl
  find-store s (uuid a) (ip b) e = refl
  find-store s (uuid a) (username m) e = refl

  pub find-discard :
      (s : FileBanStorage) (t u : BanTarget)
      → find to_lowercase (discard to_lowercase s t) u
        ≡ (if same_target t u then none else find to_lowercase s u)
  unfolding find discard
  find-discard s (ip a) (ip b) = lookup-remove a b s.ip_bans
  find-discard s (username n) (username m) =
      lookup-remove (to_lowercase n) (to_lowercase m) s.username_bans
  find-discard s (uuid a) (uuid b) = lookup-remove a b s.uuid_bans
  find-discard s (ip a) (username m) = refl
  find-discard s (ip a) (uuid b) = refl
  find-discard s (username n) (ip b) = refl
  find-discard s (username n) (uuid b) = refl
  find-discard s (uuid a) (ip b) = refl
  find-discard s (uuid a) (username m) = refl

  find-same :
      (s : FileBanStorage) (t u : BanTarget)
      → same_target t u ≡ true
      → find to_lowercase s u ≡ find to_lowercase s t
  unfolding find
  find-same s (ip a) (ip b) h = ap (λ k. lookup k s.ip_bans) (sym ((nat_key.beq_iff a b).0 h))
  find-same s (username n) (username m) h =
      ap (λ k. lookup k s.username_bans)
        (sym ((string_key.beq_iff (to_lowercase n) (to_lowercase m)).0 h))
  find-same s (uuid a) (uuid b) h = ap (λ k. lookup k s.uuid_bans) (sym ((nat_key.beq_iff a b).0 h))
  find-same s (ip a) (username m) h = cc
  find-same s (ip a) (uuid b) h = cc
  find-same s (username n) (ip b) h = cc
  find-same s (username n) (uuid b) h = cc
  find-same s (uuid a) (ip b) h = cc
  find-same s (uuid a) (username m) h = cc

  pub find-persist :
      (s : FileBanStorage) (write : Write) (u : BanTarget)
      → find to_lowercase (persist s write).1 u ≡ find to_lowercase s u
  unfolding find
  find-persist s write (ip a) = ap (lookup a) (persist-find_fields s write).0
  find-persist s write (username n) = ap (lookup (to_lowercase n)) (persist-find_fields s write).1
  find-persist s write (uuid a) = ap (lookup a) (persist-find_fields s write).2

  find-audit :
      (s : FileBanStorage) (a : BanAuditLogEntry) (u : BanTarget)
      → find to_lowercase (add_audit_entry s a) u ≡ find to_lowercase s u
  unfolding find add_audit_entry
  find-audit s a (ip b) = refl
  find-audit s a (username n) = refl
  find-audit s a (uuid b) = refl

  -- After add_ban every target of the same kind and key, names up to case, has the new ban until
  -- it expires, and every other target the ban it had, whatever becomes of the write.
  pub add_ban_view :
      (s : FileBanStorage) (e : BanEntry) (now later : ℕ) (write : Write) (u : BanTarget)
      → active (add_ban to_lowercase s e now write).1 later u
        ≡ (if same_target e.target u then live_at later (some e) else active s later u)
  unfolding active add_ban
  add_ban_view s e now later write u =
      rw (find-persist _ write u, find-audit _ _ u, find-store s e.target u e) (ground arith)

  -- After remove_ban no target of the same kind and key, names up to case, has a ban, and every
  -- other target has the ban it had, whatever becomes of the write.
  pub remove_ban_view :
      (s : FileBanStorage) (t : BanTarget) (now later : ℕ) (write : Write) (u : BanTarget)
      → active (remove_ban to_lowercase s t now write).1 later u
        ≡ (if same_target t u then none else active s later u)
  unfolding active remove_ban
  remove_ban_view s t now later write u = elim (Option-cases (find to_lowercase s t)) [
    | inl n ↦ rw (n, remove_ban) (ground (arith, n, find-same s t u))
    | inr (e, p) ↦
        rw (p, remove_ban, active, find-persist _ write u, find-audit _ _ u, find-discard s t u)
          (ground arith)
  ]

  -- Dropping an expired ban changes no later view.
  pub discard_expired :
      (s : FileBanStorage) (t : BanTarget) (e : BanEntry) (now later : ℕ) (u : BanTarget)
      → now ≤ later
      → find to_lowercase s t ≡ some e
      → is_expired now e ≡ true
      → active (discard to_lowercase s t) later u ≡ active s later u
  unfolding active
  discard_expired s t e now later u h p x =
      let gone = expired_by_mono now later e.expires_at h x in
      elim (Bool-cases (same_target t u)) [
        | inl q ↦ rw (find-discard s t u, q, find-same s t u q, p, gone) refl
        | inr q ↦ rw (find-discard s t u, q) refl
      ]

  -- `check_player` by one target: the ban in force, and the storage's later view kept.
  pub check_target_view :
      (s : FileBanStorage) (t : BanTarget) (now later : ℕ) (u : BanTarget)
      → now ≤ later
      → ((check_target to_lowercase s t now).0 ≡ active s now t)
        × (active (check_target to_lowercase s t now).1 later u ≡ active s later u)
  unfolding active check_target
  check_target_view s t now later u h = elim (Option-cases (find to_lowercase s t)) [
    | inl n ↦ rw (n, check_target) (refl, refl)
    | inr (e, p) ↦ elim (Bool-cases (is_expired now e)) [
      | inl x ↦ rw (p, x, check_target) (refl, discard_expired s t e now later u h p x)
      | inr x ↦ rw (p, x, check_target) (refl, refl)
    ]
  ]
