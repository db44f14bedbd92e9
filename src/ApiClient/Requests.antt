-- ===== src/ApiClient/Requests.antt =====
-- What one call of `apiRequest` sends, with which token, and its result.
use recruit_saas.Common.{
  ap, ◌≡◌, refl, ◌⊎◌, inl, inr, String, Option, some, true, false, not, List, ◌∷◌, ◌&&◌, arith,
  Bool-cases, Option-cases,
}
use recruit_saas.ApiClient.{
  bearer, Request, Response, Client, is_ok, no_retry, refresh_access_token, is_unauthorized,
  api_request, outcome, Outcome,
}

-- The request for a path with this token.
abbrev pub with_token : String → Option String → Request
with_token path token = record { path = path; authorization = bearer token }

module _ (answer : List Request → Request → Option Response)
    (token_of : String → Option (Option String)) where
  -- The answer to the first request.
  abbrev pub first_answer : String → Client → Option Response
  first_answer path c = answer c.sent (with_token path c.access_token)

  -- A call whose session has ended, and whose path may be tried again.
  abbrev pub MayRetry : String → Client → Type 0
  MayRetry path c =
      (no_retry path ≡ false) × ((r : Response) × (first_answer path c ≡ some r) × (r.status ≡ 401))

  -- The client after the first request.
  abbrev pub sent_first : String → Client → Client
  sent_first path c = record c { sent = with_token path c.access_token ∷ c.sent }

  -- A refresh is answered with success, and this is read of the answer.
  abbrev pub Renews : Client → Option String → Type 0
  Renews c token =
      (r : Response) × (answer c.sent (with_token "/auth/refresh" c.access_token) ≡ some r)
      × (is_ok r ≡ true)
      × (token_of r.body ≡ some token)

  -- What one call sends, the last request first, and answers: the request alone, where it needs no
  -- second try or may have none; a refresh after it, where that brings no answer that can be read; or,
  -- after a refresh that did, the request once more, with the token that was read, or with none.
  abbrev pub SentOnce : String → Client → Outcome × Client → Type 0
  SentOnce path c r =
      ¬ (MayRetry path c)
      × (r.0 ≡ outcome (first_answer path c))
      × (r.1.sent ≡ with_token path c.access_token ∷ c.sent)
      × (r.1.access_token ≡ c.access_token)

  abbrev pub SentTwice : String → Client → Outcome × Client → Type 0
  SentTwice path c r =
      MayRetry path c
      × ((token : Option String) → ¬ (Renews (sent_first path c) token))
      × (r.0 ≡ Outcome.api_error 401)
      × (r.1.sent
          ≡ with_token "/auth/refresh" c.access_token ∷ with_token path c.access_token ∷ c.sent)
      × (r.1.access_token ≡ c.access_token)

  abbrev pub SentAgain : String → Client → Outcome × Client → Type 0
  SentAgain path c r =
      MayRetry path c
      × ((token : Option String) × Renews (sent_first path c) token
          × (r.0
              ≡ outcome (
                  answer
                    (with_token "/auth/refresh" c.access_token
                      ∷ with_token path c.access_token
                      ∷ c.sent)
                    (with_token path token)))
          × (r.1.sent
              ≡ with_token path token
                ∷ with_token "/auth/refresh" c.access_token
                ∷ with_token path c.access_token
                ∷ c.sent)
          × (r.1.access_token ≡ token))

  refresh-cases :
      (c : Client)
      → let sent = with_token "/auth/refresh" c.access_token ∷ c.sent in
        (((token : Option String) → ¬ (Renews c token))
          × (refresh_access_token answer token_of c ≡ (false, record c { sent = sent })))
        ⊎ ((token : Option String) × Renews c token
            × (refresh_access_token answer token_of c
                ≡ (true, record c { access_token = token; sent = sent })))
  unfolding refresh_access_token
  refresh-cases c =
      elim (Option-cases (answer c.sent (with_token "/auth/refresh" c.access_token))) [
        | inl lost ↦ inl ((λ token (r, came, _, _). absurd (ground arith)), rw lost refl)
        | inr (r, came) ↦ elim (Bool-cases (is_ok r)) [
          | inr failed ↦ inl (
            (λ token (r', came', fine', _).
                let same : r ≡ r' = ground arith in absurd (ground (arith, ap is_ok same))),
            rw (came, failed) refl,
          )
          | inl fine ↦ elim (Option-cases (token_of r.body)) [
            | inl unreadable ↦ inl (
              (λ token (r', came', _, read').
                  let same : r ≡ r' = ground arith in
                  absurd (ground (arith, ap (λ (x : Response). token_of x.body) same))),
              rw (came, fine, unreadable) refl,
            )
            | inr (token, read) ↦ inr (token, (r, came, fine, read), rw (came, fine, read) refl)
          ]
        ]
      ]

  first-cases :
      (path : String) (c : Client)
      → (¬ (MayRetry path c)
          × ((is_unauthorized answer token_of (first_answer path c) && not (no_retry path))
              ≡ false))
        ⊎ (MayRetry path c
            × ((is_unauthorized answer token_of (first_answer path c) && not (no_retry path))
                ≡ true)
            × (outcome (first_answer path c) ≡ Outcome.api_error 401))
  first-cases path c = elim (Option-cases (first_answer path c)) [
    | inl lost ↦ inl ((λ (_, (r, came, _)). absurd (ground arith)), rw lost refl)
    | inr (r, came) ↦
        elim (Bool-cases (is_unauthorized answer token_of (some r) && not (no_retry path))) [
          | inr settled ↦ inl (
            (λ (untried, (r', came', status)).
                let same : r ≡ r' = ground arith in
                absurd (ground (arith, ap (λ (x : Response). x.status) same))),
            rw came settled,
          )
          | inl again ↦
              inr ((ground arith, (r, came, ground arith)), rw came again, rw came (ground arith))
        ]
  ]

  -- `apiRequest` ends after at most three requests, whatever the server answers. The request is sent
  -- alone, and its answer is the result, unless that is 401 for a path other than those of the session.
  -- Then one refresh follows. Where the refresh is not answered with success, or its answer cannot be
  -- read, the result is the error 401; else the request is sent once more, with the token of that
  -- answer, or without one where the answer has none, and the second answer is the result.
  pub api_request_sends :
      (path : String) (c : Client)
      → let r = api_request answer token_of path c in
        SentOnce path c r ⊎ (SentTwice path c r ⊎ SentAgain path c r)
  unfolding api_request
  api_request_sends path c = elim (first-cases path c) [
    | inl (none_due, settled) ↦ inl (none_due, rw settled refl, rw settled refl, rw settled refl)
    | inr (due, again, error) ↦ elim (refresh-cases (sent_first path c)) [
      | inl (unread, refused) ↦ inr (
          inl (
            due,
            unread,
            rw (again, refused) error,
            rw (again, refused) refl,
            rw (again, refused) refl,
          ))
      | inr (token, read, given) ↦ inr (
          inr (
            due,
            (token, read, rw (again, given) refl, rw (again, given) refl, rw (again, given) refl),
          ))
    ]
  ]
