-- ===== src/ApiClient.antt =====
-- frontend/lib/api.ts: the requests of the browser, with the renewal of the access token. The network is
-- the function `answer` of what was sent so far; `token_of` reads the JSON of the refresh answer: `none`
-- where that throws, and otherwise the value of `accessToken`, which may be missing.
pub mod Requests
pub mod Flights
mod Tests
use recruit_saas.Common.{
  ℕ, suc, ◌+◌, String, Option, none, some, Bool, true, false, not, List, [], ◌∷◌, ◌==◌, ◌&&◌, ◌||◌,
  same_text, leb, if◌then◌else◌,
}

-- What `rawFetch` sends: the path, and the bearer token where there is one.
pub record Request : Type 0 where
  pub path : String
  pub authorization : Option String

pub record Response : Type 0 where
  pub status : ℕ
  pub body : String

-- The module's state: the access token in memory, and all that was sent, the last request first.
pub record Client : Type 0 where
  pub access_token : Option String
  pub sent : List Request

-- ApiError, by its status, or the error of a fetch that found no server.
pub data Outcome : Type 0 where
  body : String → Outcome
  api_error : ℕ → Outcome
  network_error : Outcome

-- `res.ok`
abbrev pub is_ok : Response → Bool
is_ok r = leb 200 r.status && leb r.status 299

-- NO_RETRY_PATHS
abbrev pub no_retry : String → Bool
no_retry path =
    same_text path "/auth/refresh"
    || same_text path "/auth/login"
    || same_text path "/auth/register"

-- `if (accessToken)`: the header is left out where there is no token, or an empty one.
abbrev pub bearer : Option String → Option String
bearer none = none
bearer (some token) = if same_text token "" then none else some token

abbrev pub set_access_token : Option String → Client → Client
set_access_token token c = record c { access_token = token }

-- An error, the empty answer of 204, or the text, whose JSON the caller takes.
abbrev pub outcome : Option Response → Outcome
outcome none = Outcome.network_error
outcome (some r) =
    if is_ok r
    then (if r.status == 204 then Outcome.body "" else Outcome.body r.body)
    else Outcome.api_error r.status

module _ (answer : List Request → Request → Option Response)
    (token_of : String → Option (Option String)) where
  abbrev pub raw_fetch : String → Client → Option Response × Client
  raw_fetch path c =
      let r : Request = record { path = path; authorization = bearer c.access_token } in
      (answer c.sent r, record c { sent = r ∷ c.sent })

  -- The answer of the refresh: one that cannot be read is a failure; what is read is kept as the token,
  -- also where it is missing.
  abbrev pub take_token : Option (Option String) → Client → Bool × Client
  take_token none c = (false, c)
  take_token (some token) c = (true, set_access_token token c)

  abbrev pub refresh_answered : Option Response → Client → Bool × Client
  refresh_answered none c = (false, c)
  refresh_answered (some r) c = if is_ok r then take_token (token_of r.body) c else (false, c)

  -- The body of `refreshAccessToken`, where no refresh is under way.
  pub refresh_access_token : Client → Bool × Client
  refresh_access_token c = let (res, c') = raw_fetch "/auth/refresh" c in refresh_answered res c'

  abbrev pub is_unauthorized : Option Response → Bool
  is_unauthorized none = false
  is_unauthorized (some r) = r.status == 401

  -- After the refresh: the second attempt, or the first answer.
  abbrev pub retry_if : Bool → String → Option Response → Client → Option Response × Client
  retry_if true path res c = raw_fetch path c
  retry_if false path res c = (res, c)

  abbrev pub renewed : Bool → String → Option Response → Client → Option Response × Client
  renewed true path res c =
      let (refreshed, c') = refresh_access_token c in retry_if refreshed path res c'
  renewed false path res c = (res, c)

  pub api_request : String → Client → Outcome × Client
  api_request path c =
      let (res, c1) = raw_fetch path c in
      let (last, c2) = renewed (is_unauthorized res && not (no_retry path)) path res c1 in
      (outcome last, c2)

-- `refreshPromise`: whether a refresh is under way, who awaits it, and how often one was sent.
pub record Flight : Type 0 where
  pub in_flight : Bool
  pub waiting : ℕ
  pub sent_refreshes : ℕ
  pub answered : ℕ
  pub token : Option String

pub data Event : Type 0 where
  -- somebody calls `refreshAccessToken`
  call : Event
  -- the refresh that is under way ends, with a new token or without
  settle : Option String → Event

abbrev pub or_old : Option String → Option String → Option String
or_old none old = old
or_old (some token) old = some token

-- A call starts a refresh or joins the one under way; the end answers all who wait and clears it.
abbrev pub step : Event → Flight → Flight
step Event.call f = if f.in_flight then record f { waiting = suc f.waiting } else record f {
  in_flight = true;
  waiting = suc f.waiting;
  sent_refreshes = suc f.sent_refreshes;
}
step (Event.settle new) f =
    if f.in_flight
    then record f {
      in_flight = false;
      waiting = 0;
      answered = f.answered + f.waiting;
      token = or_old new f.token;
    }
    else f

abbrev pub run : List Event → Flight → Flight
run [] f = f
run (e ∷ events) f = run events (step e f)
