-- ===== src/Observability/MiddlewareLaws.antt =====
-- The middlewares do not change what the application answers.
use supply_chain_tracker.Prelude.{String, ◌≡◌, refl, none, [], ◌∷◌, ◌++◌, inl, inr}
use supply_chain_tracker.Outcome.{Outcome, returns, raises}
use supply_chain_tracker.Exec.{Exec}
use supply_chain_tracker.Exec.Laws.{Outcome-cases}
use supply_chain_tracker.Observability.Middleware.{
  Request, Response, Entry, http_request_started, http_request_failed, http_request_finished, Web,
  status_of, count_dispatch, read_request, read_response, finish, log_dispatch, served,
}

-- the line that ends a request
abbrev pub last_line : Request → Outcome Response → Entry
last_line q (returns response) =
    http_request_finished q.method q.path response.status_code none none
last_line q (raises e) = http_request_failed q.method q.path

-- Whatever a route does, a request through the middlewares of a service gets what the route answers
-- or raises, and leaves the application as the route leaves it. The request is counted once, under
-- the status of the response, or 500 where the route raises, and logged in two lines, when it
-- starts and when it has finished or failed.
pub served_lem :
    {S : Type 0} (decode : String → Outcome String) (service : String)
    (route : Request → Exec S Response) (q : Request) (w : Web S)
    → let (r, s) = route q w.app in
      served decode service route q w ≡ (
        r,
        record {
          app = s;
          counts =
              w.counts
              ++ record {
                service = service;
                method = q.method;
                path = q.path;
                status = status_of r;
              }
                ∷ [];
          log = (w.log ++ http_request_started q.method q.path ∷ []) ++ last_line q r ∷ [];
        },
      )
unfolding served count_dispatch log_dispatch read_request finish read_response
served_lem decode service route q w = elim (Outcome-cases (route q w.app).0) [
  | inl (a, e) ↦ rw e refl
  | inr (x, e) ↦ rw e refl
]
