-- ===== src/Health/Probes.antt =====
-- internal/health/health.go: when the kubelet is told that the worker is not alive.
use mathlib.Core.List.{[]}
use ai_k8s.Prelude.{
  ℕ, ◌-◌, ◌≤◌, ◌≡◌, ◌≢◌, ◌↔◌, refl, sym, ◌∙◌, Bool, true, false, ◌||◌, some, List, ◌∷◌, Eq-nat,
  arith, nat_eq_iff,
}
use ai_k8s.Health.{State, new, start, see, live, ready, Event, started_at, seen_at, after, run}

-- Whether the loop has been started, and the time of the last call.
abbrev pub has_started : List Event → Bool
has_started [] = false
has_started (started_at t ∷ es) = true
has_started (seen_at t ∷ es) = has_started es

abbrev time_of : Event → ℕ
time_of (started_at t) = t
time_of (seen_at t) = t

abbrev pub last_time : Event → List Event → ℕ
last_time e [] = time_of e
last_time e (f ∷ es) = last_time f es

run-idle_limit : (es : List Event) (s : State) → (run es s).idle_limit ≡ s.idle_limit
unfolding run after start see
run-idle_limit [] s = refl
run-idle_limit (started_at t ∷ es) s = run-idle_limit es _
run-idle_limit (seen_at t ∷ es) s = run-idle_limit es _

run-started : (es : List Event) (s : State) → (run es s).started ≡ (s.started || has_started es)
unfolding run after start see
run-started [] s = ground arith
run-started (started_at t ∷ es) s = run-started es _ ∙ ground arith
run-started (seen_at t ∷ es) s = run-started es _

run-last_seen :
    (e : Event) (es : List Event) (s : State) → (run (e ∷ es) s).last_seen ≡ some (last_time e es)
unfolding run after start see
run-last_seen (started_at t) [] s = refl
run-last_seen (seen_at t) [] s = refl
run-last_seen e (f ∷ es) s = run-last_seen f es (after e s)

live_iff :
    (now : ℕ) (s : State) (seen : ℕ)
    → s.last_seen ≡ some seen
    → (live now s ≡ false) ↔ ((s.started ≡ true) × (s.idle_limit ≢ 0) × (s.idle_limit ≤ now - seen))
unfolding live
live_iff now s seen h = rw h (
  λ d. (ground (arith, d), ground (arith, d, nat_eq_iff s.idle_limit 0), ground (arith, d)),
  λ k. ground (arith, k.0, k.1, k.2, nat_eq_iff s.idle_limit 0),
)

-- From a new state on, through any calls, `Live` is false exactly when the pull loop was started, an
-- idle limit is set, and at least that time has passed since the last call; `Ready` is true exactly when
-- the loop was started.
pub run-live_iff :
    (limit now : ℕ) (e : Event) (es : List Event)
    → ((live now (run (e ∷ es) (new limit)) ≡ false)
        ↔ ((has_started (e ∷ es) ≡ true) × (limit ≢ 0) × (limit ≤ now - last_time e es)))
      × (ready (run (e ∷ es) (new limit)) ≡ has_started (e ∷ es))
unfolding new ready
run-live_iff limit now e es =
    let own =
      live_iff now (run (e ∷ es) (new limit)) (last_time e es) (run-last_seen e es (new limit)) in
    let same = run-idle_limit (e ∷ es) (new limit) in
    let started = run-started (e ∷ es) (new limit) in
    (
      (
        λ d. let (a, b, c) = own.0 d in (sym started ∙ a, rw same at b, rw same at c),
        λ k. own.1 (started ∙ k.0, rw same (k.1), rw same (k.2)),
      ),
      started,
    )
