-- ===== src/Http/Tests.antt =====
-- Requests and renewals of one signed-in browser.
use webbuilder.Base.{
  String, ◌≡◌, ◌≢◌, refl, Bool, true, false, none, some, [], arith, eq_iff, concat,
}
use webbuilder.Base.Exec.{ok}
use webbuilder.Auth.Session.{Browser, LoginResponse, get_session_id}
use webbuilder.Http.Renewal.{Client, renewed, renew}
use webbuilder.Http.Renewal.Laws.{renew-renewed}
use webbuilder.Http.Interceptors.{
  Request, Failure, renew_then_resend, on_request, on_error, on_unauthorized, end_unverified,
  authorize,
}
use webbuilder.Http.Interceptors.Laws.{IsReject, at_most_one_retry, renewal_mends}

abbrev signed_in : Browser
signed_in = record {
  auth_token = some "a1";
  refresh_token = some "t1";
  auth_session_id = some "s1";
  user_data = none;
  cache = record { files = []; cached_bytes = 0 };
  pathname = "/chat";
}

abbrev fresh : LoginResponse
fresh = record { access_token = "a2"; refresh_token = "t2"; token_type = "bearer" }

abbrev any_value : String → Bool
any_value v = true

abbrev request : Request
request = record {
  url = some "projects";
  session_id = some "s1";
  access_token = some "a1";
  retried_after_refresh = false;
  authorization = some "Bearer a1";
}

abbrev unauthorized : Request → Failure
unauthorized r = record { request = some r; status = some 401; detail = none; message = "401" }

session_s1 : get_session_id signed_in ≡ some "s1"
unfolding get_session_id
session_s1 = refl

a2_there : fresh.access_token ≢ ""
a2_there = ground (arith, eq_iff "a2" "")

t2_there : fresh.refresh_token ≢ ""
t2_there = ground (arith, eq_iff "t2" "")

renew-renewed_example :
    (let (r, b) = renew any_value "s1" "t1" (renewed fresh) signed_in in
      (r ≡ ok tt)
      × (b.auth_token ≡ some "a2")
      × (b.refresh_token ≡ some "t2")
      × (get_session_id b ≡ some "s1"))
renew-renewed_example =
    renew-renewed any_value "s1" "t1" fresh signed_in refl session_s1 refl a2_there t2_there
      (λ v. refl)

abbrev idle : Client
idle = record { browser = signed_in; pending_refresh = none; next_promise = 7 }

abbrev waiting : Client
waiting = record {
  browser = signed_in;
  pending_refresh = some (record { session_id = "s1"; promise = 7 });
  next_promise = 8;
}

abbrev again : Request
again = record request { retried_after_refresh = true }

at_most_one_retry_example : IsReject (on_error signed_in (unauthorized again)).1
unfolding on_error on_unauthorized end_unverified on_request authorize get_session_id
at_most_one_retry_example =
    at_most_one_retry signed_in signed_in signed_in (unauthorized request) (unauthorized again)
      again again refl refl refl

renewal_mends_example :
    (on_error signed_in (unauthorized request) ≡ (signed_in, renew_then_resend "s1" again))
    × ((renew any_value "s1" "t1" (renewed fresh) signed_in).0 ≡ ok tt)
    × ((r : Request) × (on_request (renew any_value "s1" "t1" (renewed fresh) signed_in).1 again
          ≡ ok r)
        × (r.authorization ≡ some (concat "Bearer " "a2")))
renewal_mends_example =
    renewal_mends any_value signed_in request (unauthorized request) "s1" "t1" fresh refl refl refl
      refl (λ p. ground (arith, eq_iff "s1" "")) refl session_s1 refl refl refl refl a2_there
      t2_there (λ v. refl)
