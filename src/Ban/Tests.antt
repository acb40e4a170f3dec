-- ===== src/Ban/Tests.antt =====
-- Runs of the ban storage, with a folding of names that knows two spellings of one name.
use Prim.Native.String.{String}
use infrarust.Common.{
  length, ◌++◌, All, ℕ, ◌+◌, ◌≡◌, ◌≢◌, none, some, List, [], ◌∷◌, arith, if◌then◌else◌,
}
use infrarust.Common.Maps.{string_key}
use infrarust.Ban.Types.{BanAction, BanAuditLogEntry, expired_by, ip, username, BanEntry}
use infrarust.Ban.Storage.{
  FileBanStorage, missing, ok, Write, find, add_ban, remove_ban, is_banned, check_player,
  purge_expired,
}
use infrarust.Ban.View.{active, add_ban_view, remove_ban_view}
use infrarust.Ban.Checks.{is_banned_view, check_player_view, or_else, at_uuid}
use infrarust.Ban.Purge.{IsKeyed, held, purge_expired_count, purge_expired_view}
use infrarust.Ban.Audit.{Logs, Dropped, add_ban-Logs, purge_expired_log}
use infrarust.Ban.Requests.{Request, banning, purging, new, perform_all}
use infrarust.Ban.Invariants.{perform_all-IsKeyed, IsFiled, perform_all-IsFiled}

abbrev fold : String → String
fold n = if string_key.beq n "Alex" then "alex" else if string_key.beq n "ALEX" then "alex" else n

abbrev alex : BanEntry
alex = record {
  target = username "Alex";
  reason = some "griefing";
  expires_at = some 100;
  created_at = 10;
  source = "console";
}

abbrev mallory : BanEntry
mallory = record {
  target = ip 7;
  reason = none;
  expires_at = none;
  created_at = 20;
  source = "console";
}

abbrev requests : List Request
requests = banning alex 10 Write.written ∷ banning mallory 20 Write.failed ∷ []

abbrev stocked : FileBanStorage
stocked = perform_all fold (new missing) requests

stocked-IsKeyed : IsKeyed stocked
stocked-IsKeyed = perform_all-IsKeyed fold missing requests

not_failed : Write.written ≢ Write.failed
not_failed e = cc

perform_all-IsFiled_example : IsFiled fold (
    perform_all fold (new missing) (banning alex 10 Write.written ∷ purging 200 Write.skipped ∷ []))
perform_all-IsFiled_example =
    perform_all-IsFiled fold missing
      (banning alex 10 Write.written ∷ purging 200 Write.skipped ∷ [])

add_ban_view_example :
    active fold (add_ban fold stocked alex 50 Write.failed).1 60 (username "alex") ≡ some alex
unfolding expired_by
add_ban_view_example = add_ban_view fold stocked alex 50 60 Write.failed (username "alex")

remove_ban_view_example :
    active fold (remove_ban fold stocked (username "ALEX") 50 Write.written).1 60 (username "alex")
    ≡ none
remove_ban_view_example =
    remove_ban_view fold stocked (username "ALEX") 50 60 Write.written (username "alex")

is_banned_view_example :
    ((is_banned fold stocked (username "Alex") 100 Write.written).0
      ≡ ok (active fold stocked 100 (username "Alex")))
    × (active fold (is_banned fold stocked (username "Alex") 100 Write.written).1 120 (ip 7)
        ≡ active fold stocked 120 (ip 7))
is_banned_view_example =
    is_banned_view fold stocked (username "Alex") 100 120 Write.written (ip 7) (omega arith)
      not_failed

check_player_view_example :
    ((check_player fold stocked 8 "Alex" (some 3) 99).0
      ≡ or_else (active fold stocked 99 (ip 8)) (
          or_else
            (active fold stocked 99 (username "Alex"))
            (at_uuid (active fold stocked 99) (some 3))))
    × (active fold (check_player fold stocked 8 "Alex" (some 3) 99).1 99 (ip 7)
        ≡ active fold stocked 99 (ip 7))
check_player_view_example =
    check_player_view fold stocked 8 "Alex" (some 3) 99 99 (ip 7) (omega arith)

purge_expired_count_example :
    (n : ℕ) × ((purge_expired stocked 500 Write.written).0 ≡ ok n)
    × (held stocked ≡ n + held (purge_expired stocked 500 Write.written).1)
purge_expired_count_example =
    purge_expired_count stocked 500 Write.written stocked-IsKeyed not_failed

purge_expired_view_example :
    (active fold (purge_expired stocked 500 Write.failed).1 600 (ip 7)
      ≡ active fold stocked 600 (ip 7))
    × (active fold (purge_expired stocked 500 Write.failed).1 500 (ip 7)
        ≡ find fold (purge_expired stocked 500 Write.failed).1 (ip 7))
purge_expired_view_example =
    purge_expired_view fold stocked 500 600 Write.failed (ip 7) (omega arith) stocked-IsKeyed

add_ban-Logs_example :
    Logs stocked.audit_log (add_ban fold stocked mallory 30 Write.skipped).1.audit_log (record {
      action = BanAction.ban;
      target = ip 7;
      reason = none;
      source = "console";
      timestamp = 30;
    })
add_ban-Logs_example = add_ban-Logs fold stocked mallory 30 Write.skipped

purge_expired_log_example :
    (new_entries : List BanAuditLogEntry) × ((purge_expired stocked 500 Write.written).1.audit_log
      ≡ stocked.audit_log ++ new_entries)
    × (held stocked ≡ length new_entries + held (purge_expired stocked 500 Write.written).1)
    × All (Dropped stocked (purge_expired stocked 500 Write.written).1 500) new_entries
purge_expired_log_example = purge_expired_log stocked 500 Write.written stocked-IsKeyed
