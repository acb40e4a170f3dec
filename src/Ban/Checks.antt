-- ===== src/Ban/Checks.antt =====
-- The two checks of a player, `is_banned` and `check_player`, which drop the expired bans they meet.
use Prim.Native.String.{String}
use infrarust.Common.{
  ℕ, ◌≤◌, ◌≡◌, ◌≢◌, ◌∙◌, refl, sym, Option, none, some, Option-cases, Bool-cases, inl, inr, arith,
}
use infrarust.Ban.Types.{BanTarget, ip, username, uuid, BanEntry, is_expired}
use infrarust.Ban.Storage.{
  FileBanStorage, ok, Write, find, discard, is_banned, check_target, check_uuid, check_player,
  or_then,
}
use infrarust.Ban.View.{active, persist_result, find-persist, discard_expired, check_target_view}

-- The first of two answers.
abbrev pub or_else : Option BanEntry → Option BanEntry → Option BanEntry
or_else (some e) o = some e
or_else none o = o

abbrev pub at_uuid : (BanTarget → Option BanEntry) → Option ℕ → Option BanEntry
at_uuid view none = none
at_uuid view (some u) = view (uuid u)

at_uuid_ext :
    (v w : BanTarget → Option BanEntry) (id : Option ℕ)
    → ((t : BanTarget) → v t ≡ w t)
    → at_uuid v id ≡ at_uuid w id
at_uuid_ext v w none h = refl
at_uuid_ext v w (some u) h = h (uuid u)

module _ (to_lowercase : String → String) where
  -- If the file can be written, is_banned answers with the ban in force on the target, and it
  -- leaves the bans in force on every target as they were from then on.
  pub is_banned_view :
      (s : FileBanStorage) (t : BanTarget) (now later : ℕ) (write : Write) (u : BanTarget)
      → now ≤ later
      → write ≢ Write.failed
      → ((is_banned to_lowercase s t now write).0 ≡ ok (active to_lowercase s now t))
        × (active to_lowercase (is_banned to_lowercase s t now write).1 later u
            ≡ active to_lowercase s later u)
  unfolding active is_banned
  is_banned_view s t now later write u h w = elim (Option-cases (find to_lowercase s t)) [
    | inl n ↦ rw (n, is_banned) (refl, refl)
    | inr (e, p) ↦ elim (Bool-cases (is_expired now e)) [
      | inl x ↦
          let kept = discard_expired to_lowercase s t e now later u h p x in
          rw (p, x, is_banned, persist_result (discard to_lowercase s t) write w)
            (refl, rw (find-persist to_lowercase (discard to_lowercase s t) write u) kept)
      | inr x ↦ rw (p, x, is_banned) (refl, refl)
    ]
  ]

  check_uuid_view :
      (s : FileBanStorage) (id : Option ℕ) (now later : ℕ) (u : BanTarget)
      → now ≤ later
      → ((check_uuid to_lowercase id now s).0 ≡ at_uuid (active to_lowercase s now) id)
        × (active to_lowercase (check_uuid to_lowercase id now s).1 later u
            ≡ active to_lowercase s later u)
  unfolding check_uuid
  check_uuid_view s none now later u h = (refl, refl)
  check_uuid_view s (some x) now later u h = check_target_view to_lowercase s (uuid x) now later u h

  -- The answers of two checks in a row, the second run on what the first left.
  or_then_view :
      (r : Option BanEntry × FileBanStorage)
      (next : FileBanStorage → Option BanEntry × FileBanStorage) (a b v : Option BanEntry)
      (later : ℕ) (u : BanTarget)
      → r.0 ≡ a
      → active to_lowercase r.1 later u ≡ v
      → (next r.1).0 ≡ b
      → active to_lowercase (next r.1).1 later u ≡ active to_lowercase r.1 later u
      → ((or_then r next).0 ≡ or_else a b) × (active to_lowercase (or_then r next).1 later u ≡ v)
  or_then_view (none, s) next a b v later u p q p' q' = (rw (sym p) p', q' ∙ q)
  or_then_view (some e, s) next a b v later u p q p' q' = (rw (sym p) refl, q)

  -- check_player answers with the first ban in force on the address, the name, and the UUID if
  -- given, and leaves the bans in force on every target as they were from then on.
  pub check_player_view :
      (s : FileBanStorage) (address : ℕ) (name : String) (id : Option ℕ) (now later : ℕ)
      (u : BanTarget)
      → now ≤ later
      → ((check_player to_lowercase s address name id now).0
          ≡ or_else (active to_lowercase s now (ip address)) (
              or_else
                (active to_lowercase s now (username name))
                (at_uuid (active to_lowercase s now) id)))
        × (active to_lowercase (check_player to_lowercase s address name id now).1 later u
            ≡ active to_lowercase s later u)
  unfolding check_player
  check_player_view s address name id now later u h =
      let first = check_target to_lowercase s (ip address) now in
      let second = check_target to_lowercase first.1 (username name) now in
      let by_ip = check_target_view to_lowercase s (ip address) now in
      let by_name = check_target_view to_lowercase first.1 (username name) now in
      let by_uuid = check_uuid_view second.1 id now later u h in
      let reflexive : now ≤ now = omega arith in
      let third =
        by_uuid.0
        ∙ at_uuid_ext (active to_lowercase second.1 now) (active to_lowercase s now) id
            (λ t. (by_name now t reflexive).1 ∙ (by_ip now t reflexive).1) in
      let rest =
        or_then_view second (check_uuid to_lowercase id now)
          (active to_lowercase s now (username name)) (at_uuid (active to_lowercase s now) id)
          (active to_lowercase first.1 later u) later u
          ((by_name now u reflexive).0 ∙ (by_ip now (username name) reflexive).1)
          (by_name later u h).1 third by_uuid.1 in
      or_then_view first
        (λ s₁.
          or_then (check_target to_lowercase s₁ (username name) now)
            (check_uuid to_lowercase id now))
        (active to_lowercase s now (ip address))
        (or_else (active to_lowercase s now (username name))
          (at_uuid (active to_lowercase s now) id))
        (active to_lowercase s later u) later u (by_ip now u reflexive).0 (by_ip later u h).1 rest.0
        rest.1
