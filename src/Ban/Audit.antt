-- ===== src/Ban/Audit.antt =====
-- The audit log of file_storage.rs, where a ban is added and where bans are purged.
use Prim.Native.String.{String}
use infrarust.Common.{
  ℕ, ◌≤◌, ◌<◌, ◌+◌, ◌-◌, ◌≡◌, ◌∙◌, refl, sym, ap, Option, none, some, List, [], ◌∷◌, ◌++◌,
  Bool-cases, inl, inr, arith, length, drop, length-append, length-drop, length-map, drop-append_le,
  ltb, map, All, All-append, All-map, All-weaken, true,
}
use infrarust.Ban.Types.{BanTarget, BanEntry, is_expired, BanAction, BanAuditLogEntry}
use infrarust.Ban.Storage.{
  FileBanStorage, Write, persist, store, add_audit_entry, add_ban, max_audit_log_entries,
  remove_all, expired_keys, purge_expired, purged_targets, purge_maps, expiry_audit,
}
use infrarust.Common.Maps.{Eq, Map, lookup, nat_key, string_key}
use mathlib.Core.List.{append-nil}
use infrarust.Common.Keys.{IsUnique}
use infrarust.Ban.Keys.{expired_keys-dropped}
use infrarust.Ban.Purge.{logged, IsKeyed, held, length-targets, purge_fields}

-- The log of `after` is at most the limit long, and is the newest part of the log of `before` with
-- the entry `a` behind it.
pub record Logs (before after : List BanAuditLogEntry) (a : BanAuditLogEntry) : Type 0 where
  pub bounded : length after ≤ max_audit_log_entries
  pub dropped : ℕ
  pub newest : after ≡ drop dropped before ++ (a ∷ [])
  pub none_early : 0 < dropped → max_audit_log_entries ≤ length before

persist_log : (s : FileBanStorage) (write : Write) → (persist s write).1.audit_log ≡ s.audit_log
unfolding persist
persist_log s Write.written = refl
persist_log s Write.skipped = refl
persist_log s Write.failed = refl

add_audit_entry-Logs :
    (s : FileBanStorage) (a : BanAuditLogEntry) → Logs s.audit_log (add_audit_entry s a).audit_log a
unfolding add_audit_entry
add_audit_entry-Logs s a =
    let log = s.audit_log in
    let whole = length-append log (a ∷ []) in
    elim (Bool-cases (ltb max_audit_log_entries (length (log ++ (a ∷ []))))) [
      | inl full ↦
          let excess = length (log ++ (a ∷ [])) - max_audit_log_entries in
          let within : excess ≤ length log = omega (arith, whole) in
          rw full (record {
            bounded = omega (arith, whole, length-drop excess (log ++ (a ∷ [])));
            dropped = excess;
            newest = drop-append_le excess log (a ∷ []) within;
            none_early = λ h. omega (arith, whole, h);
          })
      | inr room ↦ rw room (record {
        bounded = ground (arith, room);
        dropped = 0;
        newest = refl;
        none_early = λ h. absurd (omega (arith, h));
      })
    ]

store_log :
    (to_lowercase : String → String) (s : FileBanStorage) (t : BanTarget) (e : BanEntry)
    → (store to_lowercase s t e).audit_log ≡ s.audit_log
unfolding store
store_log to_lowercase s (BanTarget.ip a) e = refl
store_log to_lowercase s (BanTarget.username n) e = refl
store_log to_lowercase s (BanTarget.uuid u) e = refl

-- After add_ban, whatever becomes of the write, the audit log is at most the limit long, and
-- consists of the newest entries before, with the ban's entry behind them; entries are dropped
-- only from a log that had reached the limit.
pub add_ban-Logs :
    (to_lowercase : String → String) (s : FileBanStorage) (e : BanEntry) (now : ℕ) (write : Write)
    → Logs s.audit_log (add_ban to_lowercase s e now write).1.audit_log (record {
      action = BanAction.ban;
      target = e.target;
      reason = e.reason;
      source = e.source;
      timestamp = now;
    })
unfolding add_ban store
add_ban-Logs to_lowercase s e now write =
    let banned = store to_lowercase s e.target e in
    let audit : BanAuditLogEntry = record {
      action = BanAction.ban;
      target = e.target;
      reason = e.reason;
      source = e.source;
      timestamp = now;
    } in
    let logs = add_audit_entry-Logs banned audit in
    rw (persist_log (add_audit_entry banned audit) write)
      (rw (store_log to_lowercase s e.target e) at logs)

-- What the storage holds under the key of a logged target, expired or not.
abbrev pub held_at : FileBanStorage → BanTarget → Option BanEntry
held_at s (BanTarget.ip a) = lookup a s.ip_bans
held_at s (BanTarget.username key) = lookup key s.username_bans
held_at s (BanTarget.uuid u) = lookup u s.uuid_bans

-- The log entry tells of a ban that had expired and is gone.
pub record Dropped (before after : FileBanStorage) (now : ℕ) (a : BanAuditLogEntry) : Type 0 where
  pub action_expired : a.action ≡ BanAction.expired
  pub at_now : a.timestamp ≡ now
  pub entry : BanEntry
  pub was_held : held_at before a.target ≡ some entry
  pub was_expired : is_expired now entry ≡ true
  pub is_gone : held_at after a.target ≡ none

-- One index of the purge.
index-Dropped :
    {K : Type 0} ⦃eq : Eq K⦄ (target : K → BanTarget) (m : Map K BanEntry)
    (before after : FileBanStorage) (now : ℕ)
    → IsUnique m
    → ((k : K) → held_at before (target k) ≡ lookup k m)
    → ((k : K) → held_at after (target k) ≡ lookup k (remove_all (expired_keys now m) m))
    → All (λ t. Dropped before after now (expiry_audit now t)) (map target (expired_keys now m))
index-Dropped target m before after now unique was is = All-map _ target (expired_keys now m) (
    All-weaken
      (λ k (e, held_e, ended, gone). record {
        action_expired = refl;
        at_now = refl;
        entry = e;
        was_held = was k ∙ held_e;
        was_expired = ended;
        is_gone = is k ∙ gone;
      })
      (expired_keys now m) (expired_keys-dropped now m unique))

purged_targets-Dropped :
    (s : FileBanStorage) (now : ℕ)
    → IsKeyed s
    → All (λ t. Dropped s (purge_maps s now) now (expiry_audit now t)) (purged_targets s now)
unfolding purged_targets purge_maps
purged_targets-Dropped s now (i, n, u) =
    All-append _ (map BanTarget.ip (expired_keys now s.ip_bans)) _
      (index-Dropped BanTarget.ip s.ip_bans s (purge_maps s now) now i (λ k. refl) (λ k. refl))
      (All-append _ (map BanTarget.username (expired_keys now s.username_bans)) _
        (index-Dropped BanTarget.username s.username_bans s (purge_maps s now) now n (λ k. refl)
          (λ k. refl))
        (index-Dropped BanTarget.uuid s.uuid_bans s (purge_maps s now) now u (λ k. refl)
          (λ k. refl)))

held_at-purge_expired :
    (s : FileBanStorage) (now : ℕ) (write : Write) (t : BanTarget)
    → held_at (purge_expired s now write).1 t ≡ held_at (purge_maps s now) t
held_at-purge_expired s now write (BanTarget.ip a) = ap (lookup a) (purge_fields s now write).0
held_at-purge_expired s now write (BanTarget.username key) =
    ap (lookup key) (purge_fields s now write).1
held_at-purge_expired s now write (BanTarget.uuid u) = ap (lookup u) (purge_fields s now write).2

map_empty : {A B : Type 0} (f : A → B) (xs : List A) → length xs ≡ 0 → map f xs ≡ []
map_empty f [] h = refl
map_empty f (x ∷ xs) h = absurd (omega (arith, h))

purge_expired-audit_log :
    (s : FileBanStorage) (now : ℕ) (write : Write)
    → (purge_expired s now write).1.audit_log
      ≡ s.audit_log ++ map (expiry_audit now) (purged_targets s now)
unfolding purge_expired purge_maps
purge_expired-audit_log s now write =
    let targets = purged_targets s now in
    elim (Bool-cases (ltb 0 (length targets))) [
      | inl some_purged ↦ rw (some_purged, persist_log (logged s now) write) refl
      | inr nothing ↦
          rw (nothing, map_empty (expiry_audit now) targets (ground (arith, nothing)))
            (sym (append-nil s.audit_log))
    ]

-- In a storage whose indexes hold each key once, a purge puts new entries behind the audit log
-- and trims nothing, however long the log is. The new entries are as many as the bans that are
-- gone, and each tells of the key of a ban that had expired and is gone.
pub purge_expired_log :
    (s : FileBanStorage) (now : ℕ) (write : Write)
    → IsKeyed s
    → (new : List BanAuditLogEntry) × ((purge_expired s now write).1.audit_log ≡ s.audit_log ++ new)
      × (held s ≡ length new + held (purge_expired s now write).1)
      × All (Dropped s (purge_expired s now write).1 now) new
purge_expired_log s now write keyed =
    let targets = purged_targets s now in
    let (p, q, r) = purge_fields s now write in
    (
      map (expiry_audit now) targets,
      purge_expired-audit_log s now write,
      rw (p, q, r, length-map (expiry_audit now) targets) (length-targets s now keyed),
      All-map _ (expiry_audit now) targets (
          All-weaken
            (λ t dropped. record {
              action_expired = dropped.action_expired;
              at_now = dropped.at_now;
              entry = dropped.entry;
              was_held = dropped.was_held;
              was_expired = dropped.was_expired;
              is_gone = held_at-purge_expired s now write t ∙ dropped.is_gone;
            })
            targets (purged_targets-Dropped s now keyed)),
    )
