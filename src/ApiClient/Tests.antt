-- ===== src/ApiClient/Tests.antt =====
-- Instances of the theorems about the browser's requests.
use recruit_saas.Common.{
  ◌+◌, ◌≡◌, ◌⊎◌, String, Option, some, false, List, [], ◌∷◌, if◌then◌else◌, same_text,
}
use recruit_saas.ApiClient.{Request, Response, Client, Event, run, step, api_request}
use recruit_saas.ApiClient.Requests.{SentOnce, SentTwice, SentAgain, api_request_sends}
use recruit_saas.ApiClient.Flights.{calls, ended, under_way, idle, single_flight}

-- A server that refuses all but the refresh.
abbrev expired_session : List Request → Request → Option Response
expired_session sent r = some (
    if same_text r.path "/auth/refresh"
    then record { status = 200; body = "new" }
    else record { status = 401; body = "" })

abbrev fresh : Client
fresh = record { access_token = some "old"; sent = [] }

api_request_sends_example :
    let r = api_request expired_session (λ s. some (some s)) "/jobs" fresh in
    SentOnce expired_session (λ s. some (some s)) "/jobs" fresh r
    ⊎ (SentTwice expired_session (λ s. some (some s)) "/jobs" fresh r
        ⊎ SentAgain expired_session (λ s. some (some s)) "/jobs" fresh r)
api_request_sends_example = api_request_sends expired_session (λ s. some (some s)) "/jobs" fresh

abbrev burst : List Event
burst = Event.call ∷ Event.call ∷ Event.call ∷ Event.settle (some "new") ∷ Event.call ∷ []

single_flight_example :
    ((run burst idle).sent_refreshes ≡ ended idle burst + under_way (run burst idle))
    × ((run burst idle).answered + (run burst idle).waiting ≡ calls burst)
    × ((run burst idle).in_flight ≡ false → (run burst idle).waiting ≡ 0)
    × ((new : Option String) → (step (Event.settle new) (run burst idle)).answered ≡ 4)
single_flight_example = single_flight burst
