-- ===== src/Worker/Drill.antt =====
-- The crash drills (internal/worker/crash.go): which boundaries the flag names, and that a drill
-- stops the process with nothing done.
use ai_k8s.Prelude.{
  ◌≡◌, refl, ◌↔◌, inl, inr, subst, String, Bool-cases, ok, ◌==◌, Eq-string, eq_iff, ok-injective,
}
use ai_k8s.Ledger.State.{
  State, received, classified, notification_attempted, acknowledged, other, state_text,
}
use ai_k8s.Worker.Handle.{parse_crash_at}

-- The hook is off, or it is at one of the three boundaries.
abbrev pub IsBoundary : State → Type 0
IsBoundary received = Unit
IsBoundary classified = ⊥
IsBoundary notification_attempted = Unit
IsBoundary acknowledged = Unit
IsBoundary (other s) = s ≡ ""

abbrev Names : String → State → Type 0
Names value s = (value ≡ state_text s) × IsBoundary s

-- `ParseCrashAt` takes the names of the three boundaries and the empty text, each for what it names,
-- and nothing else.
pub parse_crash_at_iff :
    (value : String) (s : State)
    → (parse_crash_at value ≡ ok s) ↔ ((value ≡ state_text s) × IsBoundary s)
unfolding parse_crash_at
parse_crash_at_iff value s = (
  λ h. elim (Bool-cases (value == "")) [
    | inl e ↦ named (other "") (((eq_iff value "").0 e), refl) (rw e at h)
    | inr e ↦ elim (Bool-cases (value == "received")) [
      | inl f ↦ named received (((eq_iff value "received").0 f), tt) (rw (e, f) at h)
      | inr f ↦ elim (Bool-cases (value == "notification_attempted")) [
        | inl g ↦
            named notification_attempted (((eq_iff value "notification_attempted").0 g), tt)
              (rw (e, f, g) at h)
        | inr g ↦ elim (Bool-cases (value == "acknowledged")) [
          | inl i ↦
              named acknowledged (((eq_iff value "acknowledged").0 i), tt) (rw (e, f, g, i) at h)
          | inr i ↦ cc (rw (e, f, g, i) at h)
        ]
      ]
    ]
  ],
  λ n. back s n,
)
  where
    named : (t : State) → Names value t → ok t ≡ ok s → Names value s
    named t n e = subst (Names value) (ok-injective e) n

    back : (t : State) → Names value t → parse_crash_at value ≡ ok t
    back received n = rw (n.0) refl
    back classified n = absurd (n.1)
    back notification_attempted n = rw (n.0) refl
    back acknowledged n = rw (n.0) refl
    back (other t) n = rw (n.0, n.1) refl
