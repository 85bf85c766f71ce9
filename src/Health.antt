-- ===== src/Health.antt =====
-- internal/health/health.go: the two probes. The clock is read as a number of nanoseconds.
pub mod Probes
use mathlib.Core.List.{[]}
use ai_k8s.Prelude.{
  ℕ, ◌-◌, String, Bool, true, false, not, ◌||◌, Option, none, some, List, ◌∷◌, if◌then◌else◌, ltb,
  ◌==◌, Eq-nat, Eq-string, ◌&&◌,
}

-- `State`; `last_seen` is `none` for the zero time. A limit that is not positive is 0 here.
pub record State : Type 0 where
  pub started : Bool
  pub last_seen : Option ℕ
  pub idle_limit : ℕ

-- `New`
unfoldable pub new : ℕ → State
new idle_limit = record { started = false; last_seen = none; idle_limit = idle_limit }

-- `Started` and `Seen`, at a reading of the clock.
unfoldable pub start : ℕ → State → State
start now s = record s { started = true; last_seen = some now }

unfoldable pub see : ℕ → State → State
see now s = record s { last_seen = some now }

-- `Ready`
unfoldable pub ready : State → Bool
ready s = s.started

-- `now.Sub(lastSeen) < limit`; since the zero time more than any limit has passed.
abbrev pub within : ℕ → Option ℕ → ℕ → Bool
within limit none now = false
within limit (some seen) now = ltb (now - seen) limit

-- `Live`, at a reading of the clock.
unfoldable pub live : ℕ → State → Bool
live now s =
    if not s.started || s.idle_limit == 0 then true else within s.idle_limit s.last_seen now

-- The status and the body that `answer` writes.
unfoldable pub answer : Bool → ℕ × String
answer ok = if ok then (200, "ok\n") else (503, "unavailable\n")

-- `Handler`: the two paths under GET, and so under HEAD, for which net/http drops the body; 405 for
-- another method on them, and 404 for any other path.
unfoldable pub handle_probe : String → String → ℕ → State → ℕ × String
unfolding answer live ready
handle_probe method path now s =
    if path == "/healthz"
    then (if method == "GET" || method == "HEAD"
        then answer (live now s)
        else (405, "Method Not Allowed\n"))
    else if path == "/readyz"
    then (if method == "GET" || method == "HEAD"
        then answer (ready s)
        else (405, "Method Not Allowed\n"))
    else (404, "404 page not found\n")

-- The calls that move a state, each at its reading of the clock.
pub data Event : Type 0 where
  started_at seen_at : ℕ → Event

unfoldable pub after : Event → State → State
unfolding start see
after (started_at now) s = start now s
after (seen_at now) s = see now s

unfoldable pub run : List Event → State → State
unfolding after
run [] s = s
run (e ∷ es) s = run es (after e s)
