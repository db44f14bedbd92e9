-- ===== src/ApiClient/Flights.antt =====
-- Calls of `refreshAccessToken` at the same time.
use recruit_saas.Common.{
  ℕ, suc, ◌+◌, ◌≡◌, refl, inl, inr, false, Option, List, [], ◌∷◌, arith, Bool-cases, if◌then◌else◌,
  String, none,
}
use recruit_saas.ApiClient.{Flight, Event, step, run}

-- The calls among the events, and the ends of a refresh that was under way.
abbrev pub calls : List Event → ℕ
calls [] = 0
calls (Event.call ∷ events) = suc (calls events)
calls (Event.settle new ∷ events) = calls events

abbrev pub ended : Flight → List Event → ℕ
ended f [] = 0
ended f (Event.call ∷ events) = ended (step Event.call f) events
ended f (Event.settle new ∷ events) =
    let rest = ended (step (Event.settle new) f) events in if f.in_flight then suc rest else rest

abbrev pub under_way : Flight → ℕ
under_way f = if f.in_flight then 1 else 0

abbrev pub idle : Flight
idle = record { in_flight = false; waiting = 0; sent_refreshes = 0; answered = 0; token = none }

-- Nobody waits while no refresh is under way.
abbrev pub Awaited : Flight → Type 0
Awaited f = f.in_flight ≡ false → f.waiting ≡ 0

module _ where
  Awaited-step : (e : Event) (f : Flight) → Awaited f → Awaited (step e f)
  Awaited-step Event.call f a = elim (Bool-cases f.in_flight) [
    | inl on ↦ rw on (λ off. ground arith)
    | inr off ↦ rw off (λ on. absurd (ground arith))
  ]
  Awaited-step (Event.settle new) f a = elim (Bool-cases f.in_flight) [
    | inl on ↦ rw on (λ _. refl)
    | inr off ↦ rw off (λ _. a off)
  ]

  run-Awaited : (events : List Event) (f : Flight) → Awaited f → Awaited (run events f)
  run-Awaited [] f a = a
  run-Awaited (e ∷ events) f a = run-Awaited events (step e f) (Awaited-step e f a)

  run-sent :
      (events : List Event) (f : Flight)
      → (run events f).sent_refreshes + under_way f
        ≡ f.sent_refreshes + ended f events + under_way (run events f)
  run-sent [] f = omega arith
  run-sent (Event.call ∷ events) f =
      let rest = run-sent events (step Event.call f) in
      elim (Bool-cases f.in_flight) [
        | inl on ↦ ground (arith, rest)
        | inr off ↦ ground (arith, rest)
      ]
  run-sent (Event.settle new ∷ events) f =
      let rest = run-sent events (step (Event.settle new) f) in
      elim (Bool-cases f.in_flight) [
        | inl on ↦ ground (arith, rest)
        | inr off ↦ ground (arith, rest)
      ]

  run-answered :
      (events : List Event) (f : Flight)
      → (run events f).answered + (run events f).waiting ≡ f.answered + f.waiting + calls events
  run-answered [] f = omega arith
  run-answered (Event.call ∷ events) f =
      let rest = run-answered events (step Event.call f) in
      elim (Bool-cases f.in_flight) [
        | inl on ↦ ground (arith, rest)
        | inr off ↦ ground (arith, rest)
      ]
  run-answered (Event.settle new ∷ events) f =
      let rest = run-answered events (step (Event.settle new) f) in
      elim (Bool-cases f.in_flight) [
        | inl on ↦ ground (arith, rest)
        | inr off ↦ ground (arith, rest)
      ]

-- However calls of `refreshAccessToken` and ends of refreshes follow each other: the refreshes that were
-- sent are those that ended and the one under way, so that calls at the same time spend one refresh
-- token together; every call was answered or waits; none waits unless a refresh is under way; and the next end
-- of a refresh leaves every call answered.
pub single_flight :
    (events : List Event)
    → ((run events idle).sent_refreshes ≡ ended idle events + under_way (run events idle))
      × ((run events idle).answered + (run events idle).waiting ≡ calls events)
      × ((run events idle).in_flight ≡ false → (run events idle).waiting ≡ 0)
      × ((new : Option String)
          → (step (Event.settle new) (run events idle)).answered ≡ calls events)
single_flight events =
    let sent = run-sent events idle in
    let answered = run-answered events idle in
    let awaited = run-Awaited events idle (λ _. refl) in
    (
      omega arith,
      omega arith,
      awaited,
      λ new. elim (Bool-cases (run events idle).in_flight) [
        | inl on ↦ ground (arith, answered)
        | inr off ↦ let nobody = awaited off in ground (arith, answered, nobody)
      ],
    )
