-- ===== src/Observability/Middleware.antt =====
-- libs/libs/observability/metrics.py: PrometheusMiddleware, and libs/libs/middlewares/logger.py:
-- HttpLoggingMiddleware; and `create_app` of services/warehouse_service/src/main.py, as far as it
-- adds the two. Durations, and the address and the agent of a client, are left out.
use supply_chain_tracker.Prelude.{
  ℕ, String, Bool, false, Option, none, some, List, [], ◌∷◌, ◌++◌, str_eq, if◌then◌else◌,
}
use supply_chain_tracker.Outcome.{Outcome, returns, raises}
use supply_chain_tracker.Exec.{Exec, pure, lift, ◌>>=◌, ◌>>◌}

-- `body` is what reading the body comes to.
pub record Request : Type 0 where
  pub method : String
  pub path : String
  pub body : Outcome String

-- `body` is there for a response that has one as bytes.
pub record Response : Type 0 where
  pub status_code : ℕ
  pub body : Option String

-- A line of the log, with the fields that tell requests apart.
pub data Entry : Type 0 where
  request_body_read_failed : String → Entry
  http_request_started : String → String → Entry
  http_request_failed : String → String → Entry
  response_body_read_failed : String → Entry
  http_request_finished : String → String → ℕ → Option String → Option String → Entry

-- The labels of a count of HTTP_REQUESTS_TOTAL.
pub record Sample : Type 0 where
  pub service : String
  pub method : String
  pub path : String
  pub status : ℕ

-- The state of a process: that of the application, the counts and the log, each in order.
pub record Web (S : Type 0) : Type 0 where
  pub app : S
  pub counts : List Sample
  pub log : List Entry

-- `response.status_code if response else 500`
abbrev pub status_of : Outcome Response → ℕ
status_of (returns r) = r.status_code
status_of (raises e) = 500

-- the text of the body, and the request that is passed on, whose body can be read again
abbrev pub body_text : (String → Outcome String) → Request → Outcome (Option String × Request)
body_text decode request = elim request.body [
  | raises e ↦ raises e
  | returns bytes ↦
      if str_eq bytes ""
      then returns (none, record request { body = returns bytes })
      else elim (decode bytes) [
        | raises e ↦ raises e
        | returns text ↦ returns (some text, record request { body = returns bytes })
      ]
]

module _ {S : Type 0} where
  -- the application below the middlewares
  abbrev pub on_app : {A : Type 0} → Exec S A → Exec (Web S) A
  on_app m w = let (r, s) = m w.app in (r, record w { app = s })

  abbrev pub write : Entry → Exec (Web S) (Unit {0})
  write entry w = (returns tt, record w { log = w.log ++ entry ∷ [] })

  -- `PrometheusMiddleware.dispatch`
  unfoldable pub count_dispatch :
      String → Request → (Request → Exec (Web S) Response) → Exec (Web S) Response
  count_dispatch service request call_next w =
      let (r, w') = call_next request w in
      let sample : Sample = record {
        service = service;
        method = request.method;
        path = request.path;
        status = status_of r;
      } in
      (r, record w' { counts = w'.counts ++ sample ∷ [] })

  -- `decode("utf-8")`
  module _ (decode : String → Outcome String) where
    abbrev pub keep_body :
        Request → Outcome (Option String × Request) → Exec (Web S) (Option String × Request)
    keep_body request (returns r) = pure r
    keep_body request (raises e) = do
      write (request_body_read_failed request.path)
      pure (none, request)

    unfoldable pub read_request : Bool → Request → Exec (Web S) (Option String × Request)
    read_request log_request_body request =
        if log_request_body
        then keep_body request (body_text decode request)
        else pure (none, request)

    abbrev pub keep_text : Request → Outcome String → Exec (Web S) (Option String)
    keep_text request (returns text) = pure (some text)
    keep_text request (raises e) = do write (response_body_read_failed request.path); pure none

    unfoldable pub read_response : Bool → Request → Response → Exec (Web S) (Option String)
    read_response log_response_body request response =
        if log_response_body
        then (elim response.body [
          | none ↦ pure none
          | some bytes ↦ keep_text request (decode bytes)
        ])
        else pure none

    -- once the application has answered
    unfoldable pub finish :
        Bool → Request → Option String → Outcome Response → Exec (Web S) Response
    finish log_response_body request sent (raises e) = do
      write (http_request_failed request.method request.path)
      lift (raises e)
    finish log_response_body request sent (returns response) = do
      answered ← read_response log_response_body request response
      write (http_request_finished request.method request.path response.status_code sent answered)
      pure response

    -- `HttpLoggingMiddleware.dispatch`
    unfoldable pub log_dispatch :
        Bool → Bool → Request → (Request → Exec (Web S) Response) → Exec (Web S) Response
    log_dispatch log_request_body log_response_body request call_next = do
      read ← read_request log_request_body request
      let (sent, request') = read
      write (http_request_started request.method request.path)
      λ w. let (r, w') = call_next request' w in finish log_response_body request sent r w'

    -- The middlewares that `create_app` adds, the last added outermost, over the routes.
    unfoldable pub served : String → (Request → Exec S Response) → Request → Exec (Web S) Response
    served service route request =
        count_dispatch service request (λ q. log_dispatch false false q (λ q'. on_app (route q')))
