-- ===== src/ServerManager/Idle.antt =====
-- Automatic shutdown: the idle checks of one server over time.
use Prim.Native.String.{String}
use infrarust.Common.{
  ℕ, ◌-◌, ◌≤◌, ◌<◌, ◌≡◌, refl, true, Option, none, some, List, [], ◌∷◌, ◌++◌, All, ltb,
  if◌then◌else◌, arith,
}
use infrarust.Common.Maps.{lookup, string_key, lookup-insert, beq_self}
use infrarust.ServerManager.Service.{ServerEntry, Service}
use infrarust.ServerManager.Monitor.{check_auto_shutdown, idle_check}

-- One check: the number of players, and the time.
abbrev pub Check : Type 0
Check = ℕ × ℕ

-- The checks of a monitored server that was not stopped in between.
unfoldable pub checks : Service → String → List Check → Service
checks s id [] = s
checks s id ((count, now) ∷ rest) = checks (check_auto_shutdown s id count now).0 id rest

-- The entry after a check, and the time that it notes.
seen_after : ServerEntry → ℕ → ℕ → Option ℕ
seen_after e count now = if ltb 0 count then some now else elim e.shutdown_after [
  | none ↦ e.last_player_seen
  | some a ↦ elim e.last_player_seen [ none ↦ some now | some t ↦ some t ]
]

check_auto_shutdown_entry :
    (s : Service) (id : String) (e : ServerEntry) (count now : ℕ)
    → lookup id s.entries ≡ some e
    → lookup id (check_auto_shutdown s id count now).0.entries
      ≡ some (record e { last_player_seen = seen_after e count now })
unfolding check_auto_shutdown idle_check seen_after
check_auto_shutdown_entry s id e count now f = ground (
  arith,
  f,
  beq_self id,
  lookup-insert id id (record e { last_player_seen = some now }) s.entries,
)

-- A stop is asked for only at a check without players, at least the idle time after the time noted.
check_auto_shutdown_stops :
    (s : Service) (id : String) (e : ServerEntry) (count now : ℕ)
    → lookup id s.entries ≡ some e
    → (check_auto_shutdown s id count now).1 ≡ true
    → (a : ℕ) × (t : ℕ) × (e.shutdown_after ≡ some a)
      × (e.last_player_seen ≡ some t)
      × (count ≡ 0)
      × (a ≤ now - t)
unfolding check_auto_shutdown idle_check
check_auto_shutdown_stops s id e count now f q = stops e.shutdown_after e.last_player_seen refl refl
  where
    stops :
        (after last : Option ℕ)
        → e.shutdown_after ≡ after
        → e.last_player_seen ≡ last
        → (a : ℕ) × (t : ℕ) × (e.shutdown_after ≡ some a)
          × (e.last_player_seen ≡ some t)
          × (count ≡ 0)
          × (a ≤ now - t)
    stops none last p r = ground arith
    stops (some a) none p r = ground arith
    stops (some a) (some t) p r = (a, t, p, r, ground arith, ground arith)

-- The entry of a server that has been seen with players at `t` or later.
record SeenFrom (s : Service) (id : String) (a t : ℕ) : Type 0 where
  entry : ServerEntry
  found : lookup id s.entries ≡ some entry
  idle_time : entry.shutdown_after ≡ some a
  noted : ℕ
  seen : entry.last_player_seen ≡ some noted
  late : t ≤ noted

check-SeenFrom :
    (s : Service) (id : String) (a t count now : ℕ)
    → t ≤ now
    → SeenFrom s id a t
    → SeenFrom (check_auto_shutdown s id count now).0 id a t
unfolding seen_after
check-SeenFrom s id a t count now h k = record {
  entry = record k.entry { last_player_seen = seen_after k.entry count now };
  found = check_auto_shutdown_entry s id k.entry count now k.found;
  idle_time = k.idle_time;
  noted = if ltb 0 count then now else k.noted;
  seen = ground (arith, k.idle_time, k.seen);
  late = ground (arith, k.late);
}

checks-SeenFrom :
    (s : Service) (id : String) (a t : ℕ) (cs : List Check)
    → All (λ c. t ≤ c.1) cs
    → SeenFrom s id a t
    → SeenFrom (checks s id cs) id a t
unfolding checks
checks-SeenFrom s id a t [] h k = k
checks-SeenFrom s id a t ((count, now) ∷ cs) (h, hs) k =
    checks-SeenFrom (check_auto_shutdown s id count now).0 id a t cs hs
      (check-SeenFrom s id a t count now h k)

checks_entry :
    (s : Service) (id : String) (e : ServerEntry) (a : ℕ) (cs : List Check)
    → lookup id s.entries ≡ some e
    → e.shutdown_after ≡ some a
    → (e' : ServerEntry) × (lookup id (checks s id cs).entries ≡ some e')
      × (e'.shutdown_after ≡ some a)
unfolding checks
checks_entry s id e a [] f p = (e, f, p)
checks_entry s id e a ((count, now) ∷ cs) f p =
    checks_entry (check_auto_shutdown s id count now).0 id
      (record e { last_player_seen = seen_after e count now }) a cs
      (check_auto_shutdown_entry s id e count now f) p

checks-append :
    (s : Service) (id : String) (cs ds : List Check)
    → checks s id (cs ++ ds) ≡ checks (checks s id cs) id ds
unfolding checks
checks-append s id [] ds = refl
checks-append s id ((count, now) ∷ cs) ds =
    checks-append (check_auto_shutdown s id count now).0 id cs ds

-- If, after a sequence of checks of a registered server with an idle time, a check asks for its
-- stop, no player is on it at that check, and at least the idle time has passed since any earlier
-- check that saw a player, if no check between them has an earlier time.
pub idle_shutdown_waits :
    (s : Service) (id : String) (e : ServerEntry) (a : ℕ) (before after : List Check)
    (players t count now : ℕ)
    → lookup id s.entries ≡ some e
    → e.shutdown_after ≡ some a
    → 0 < players
    → All (λ c. t ≤ c.1) after
    → (check_auto_shutdown (checks s id (before ++ ((players, t) ∷ after))) id count now).1 ≡ true
    → (count ≡ 0) × (a ≤ now - t)
unfolding checks seen_after
idle_shutdown_waits s id e a before after players t count now f p h asc q =
    let s₁ = checks s id before in
    let (e₁, f₁, p₁) = checks_entry s id e a before f p in
    let s₂ = (check_auto_shutdown s₁ id players t).0 in
    let seen : SeenFrom s₂ id a t = record {
      entry = record e₁ { last_player_seen = seen_after e₁ players t };
      found = check_auto_shutdown_entry s₁ id e₁ players t f₁;
      idle_time = p₁;
      noted = t;
      seen = ground arith;
      late = omega arith;
    } in
    let k = checks-SeenFrom s₂ id a t after asc seen in
    let (a', t', u, v, none_on, waited) =
      check_auto_shutdown_stops (checks s₂ id after) id k.entry count now k.found
        (rw (checks-append s id before ((players, t) ∷ after)) at q) in
    (none_on, ground (arith, u, v, waited, k.idle_time, k.seen, k.late))
