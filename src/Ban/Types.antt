-- ===== src/Ban/Types.antt =====
-- ban_service.rs and ban/types.rs: targets, entries and the audit log. An address and a UUID are
-- numbers; a time is a number of nanoseconds since the Unix epoch.
use Prim.Native.String.{String}
use infrarust.Common.{
  ℕ, ◌+◌, ◌-◌, ◌/◌, ◌%◌, Bool, true, false, Option, none, some, ltb, leb, if◌then◌else◌,
}

pub data BanTarget : Type 0 where
  ip : ℕ → BanTarget
  username : String → BanTarget
  uuid : ℕ → BanTarget

pub record BanEntry : Type 0 where
  pub target : BanTarget
  pub reason : Option String
  pub expires_at : Option ℕ
  pub created_at : ℕ
  pub source : String

-- `BanEntry::new`, with the clock's reading.
abbrev pub new_entry : ℕ → BanTarget → Option String → Option ℕ → String → BanEntry
new_entry now target reason duration source = record {
  target = target;
  reason = reason;
  expires_at = elim duration [ none ↦ none | some d ↦ some (now + d) ];
  created_at = now;
  source = source;
}

unfoldable pub expired_by : ℕ → Option ℕ → Bool
expired_by now none = false
expired_by now (some exp) = leb exp now

abbrev pub is_expired : ℕ → BanEntry → Bool
is_expired now e = expired_by now e.expires_at

abbrev pub is_permanent : BanEntry → Bool
is_permanent e = elim e.expires_at [ none ↦ true | some exp ↦ false ]

-- `exp.duration_since(now).ok()`
abbrev pub remaining_until : ℕ → Option ℕ → Option ℕ
remaining_until now none = none
remaining_until now (some exp) = if leb now exp then some (exp - now) else none

abbrev pub remaining : ℕ → BanEntry → Option ℕ
remaining now e = remaining_until now e.expires_at

abbrev pub second : ℕ
second = 1_000_000_000

-- What the kick message says behind the reason.
pub data Duration : Type 0 where
  permanent : Duration
  days : ℕ → Duration
  hours_minutes : ℕ → ℕ → Duration
  minutes : ℕ → Duration

abbrev pub duration_text : Option ℕ → Duration
duration_text none = permanent
duration_text (some left) =
    let secs = left / second in
    let hours = secs / 3600 in
    let mins = secs % 3600 / 60 in
    if ltb 24 hours
    then days (hours / 24)
    else if ltb 0 hours
    then hours_minutes hours mins
    else minutes mins

-- `kick_message`: the reason, or the default one, and the time left.
abbrev pub kick_message : ℕ → BanEntry → String × Duration
kick_message now e = (
  elim e.reason [ none ↦ "Banned by administrator" | some r ↦ r ],
  duration_text (remaining now e),
)

pub data BanAction : Type 0 where
  ban unban expired : BanAction

pub record BanAuditLogEntry : Type 0 where
  pub action : BanAction
  pub target : BanTarget
  pub reason : Option String
  pub source : String
  pub timestamp : ℕ
