-- ===== src/ServerManager/Waiters.antt =====
-- Counting the channels that are queued and answered, and the ways in which an entry is written.
use Prim.Native.String.{String}
use infrarust.Common.{
  ℕ, ◌+◌, ◌≡◌, refl, none, some, List, [], ◌∷◌, ◌++◌, ltb, ◌==◌, if◌then◌else◌, arith,
}
use infrarust.Common.Maps.{Map, lookup, insert, string_key}
use infrarust.ServerManager.State.{Outcome}
use infrarust.ServerManager.Service.{ServerEntry, Service, messages}

-- How often a channel stands in a list, among the waiters of all servers, and among the messages.
unfoldable pub times : ℕ → List ℕ → ℕ
times c [] = 0
times c (x ∷ xs) = (if x == c then 1 else 0) + times c xs

unfoldable pub queued : ℕ → Map String ServerEntry → ℕ
queued c [] = 0
queued c ((k, e) ∷ m) = times c e.waiters + queued c m

unfoldable pub answered : ℕ → List (ℕ × Outcome) → ℕ
answered c [] = 0
answered c ((x, r) ∷ ms) = (if x == c then 1 else 0) + answered c ms

pub times-append : (c : ℕ) (xs ys : List ℕ) → times c (xs ++ ys) ≡ times c xs + times c ys
unfolding times
times-append c [] ys = omega arith
times-append c (x ∷ xs) ys = omega (arith, times-append c xs ys)

pub answered-append :
    (c : ℕ) (xs ys : List (ℕ × Outcome)) → answered c (xs ++ ys) ≡ answered c xs + answered c ys
unfolding answered
answered-append c [] ys = omega arith
answered-append c ((x, r) ∷ xs) ys = omega (arith, answered-append c xs ys)

pub answered-messages :
    (c : ℕ) (r : Outcome) (xs : List ℕ) → answered c (messages r xs) ≡ times c xs
unfolding answered times
answered-messages c r [] = refl
answered-messages c r (x ∷ xs) = omega (arith, answered-messages c r xs)

-- A write in place exchanges the waiters of one entry.
pub queued-insert :
    (c : ℕ) (k : String) (e e' : ServerEntry) (m : Map String ServerEntry)
    → lookup k m ≡ some e
    → queued c (insert k e' m) + times c e.waiters ≡ queued c m + times c e'.waiters
unfolding queued lookup insert
queued-insert c k e e' [] h = cc
queued-insert c k e e' ((j, w) ∷ m) h = ground (arith, queued-insert c k e e' m)

pub queued-insert_new :
    (c : ℕ) (k : String) (e : ServerEntry) (m : Map String ServerEntry)
    → lookup k m ≡ none
    → queued c (insert k e m) ≡ queued c m + times c e.waiters
unfolding queued lookup insert
queued-insert_new c k e [] h = omega arith
queued-insert_new c k e ((j, w) ∷ m) h = ground (arith, queued-insert_new c k e m)

-- Every channel handed out is queued or answered once, and no other is: nothing is lost, and
-- nothing is sent twice.
pub record IsConserved (s : Service) : Type 0 where
  pub once :
      (c : ℕ) → queued c s.entries + answered c s.sent ≡ (if ltb c s.next_channel then 1 else 0)

-- The three ways in which an operation writes an entry: its waiters stay, are all answered, or one
-- with the next channel joins them.
module _ (s s' : Service) (id : String) (e e' : ServerEntry) (found : lookup id s.entries ≡ some e)
    (written : s'.entries ≡ insert id e' s.entries) (h : IsConserved s) where
  pub IsConserved-kept :
      e'.waiters ≡ e.waiters → s'.sent ≡ s.sent → s'.next_channel ≡ s.next_channel → IsConserved s'
  IsConserved-kept p q r = record {
    once = λ c. ground (arith, h.once c, queued-insert c id e e' s.entries found);
  }

  pub IsConserved-answered :
      (result : Outcome)
      → e'.waiters ≡ []
      → s'.sent ≡ s.sent ++ messages result e.waiters
      → s'.next_channel ≡ s.next_channel
      → IsConserved s'
  unfolding times
  IsConserved-answered result p q r = record {
    once = λ c. ground (
      arith,
      h.once c,
      queued-insert c id e e' s.entries found,
      answered-append c s.sent (messages result e.waiters),
      answered-messages c result e.waiters,
    );
  }

  pub IsConserved-joined :
      e'.waiters ≡ e.waiters ++ (s.next_channel ∷ [])
      → s'.sent ≡ s.sent
      → s'.next_channel ≡ s.next_channel + 1
      → IsConserved s'
  unfolding times
  IsConserved-joined p q r = record {
    once = λ c. ground (
      arith,
      h.once c,
      queued-insert c id e e' s.entries found,
      times-append c e.waiters (s.next_channel ∷ []),
    );
  }
