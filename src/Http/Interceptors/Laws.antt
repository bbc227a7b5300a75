-- ===== src/Http/Interceptors/Laws.antt =====
-- Sessions, retries and tokens of the requests that pass the interceptors.
use webbuilder.Base.{
  String, ◌≡◌, ◌≢◌, refl, Bool, true, false, Option, none, some, truthy, arith, eq_iff, same_text,
  same_text-eq, same_text_self, ◌∙◌, concat,
}
use webbuilder.Base.Exec.{ok}
use webbuilder.Auth.Session.{Browser, LoginResponse, get_session_id}
use webbuilder.Http.Renewal.{renewed, renew}
use webbuilder.Http.Renewal.Laws.{renew-renewed}
use webbuilder.Http.Interceptors.{
  Request, is_public, authorize, on_request, on_response, Failure, Next, reject, resend,
  renew_then_resend, is_status, session_of, end_unverified, on_unauthorized, on_error,
}

-- A response to a request that was sent in a session is delivered only in that session, unchanged.
pub on_response_delivered {ℓ} :
    {A : Type ℓ} (b : Browser) (r : Request) (response : A) {delivered : A}
    → truthy r.session_id ≡ true
    → on_response b r response ≡ ok delivered
    → (get_session_id b ≡ r.session_id) × (delivered ≡ response)
unfolding on_response
on_response_delivered b r response h e =
    ground (arith, same_text-eq r.session_id (get_session_id b))

-- A failure of a request that was not sent in the current session changes nothing that is stored.
pub on_error_other_session :
    (b : Browser) (f : Failure)
    → same_text (session_of f.request) (get_session_id b) ≡ false
    → (on_error b f).0 ≡ b
unfolding on_error end_unverified on_unauthorized
on_error_other_session b f h = ground arith

abbrev pub IsReject : Next → Type 0
IsReject (reject e) = Unit
IsReject (resend r) = ⊥
IsReject (renew_then_resend s r) = ⊥

-- the request that is sent again, if one is
abbrev pub sent_again : Next → Option Request
sent_again (reject e) = none
sent_again (resend r) = some r
sent_again (renew_then_resend s r) = some r

retried-on_error :
    (b : Browser) (f : Failure) (r : Request)
    → sent_again (on_error b f).1 ≡ some r
    → r.retried_after_refresh ≡ true
unfolding on_error on_unauthorized
retried-on_error b f r h = ground arith

retried-on_request :
    (b : Browser) (r r' : Request)
    → on_request b r ≡ ok r'
    → r'.retried_after_refresh ≡ r.retried_after_refresh
unfolding on_request authorize
retried-on_request b r r' h = ground arith

on_error-retried :
    (b : Browser) (f : Failure) (r : Request)
    → f.request ≡ some r
    → r.retried_after_refresh ≡ true
    → IsReject (on_error b f).1
unfolding on_error on_unauthorized
on_error-retried b f r h t = ground arith

-- A request is sent again at most once: when the second sending fails too, in whatever state and
-- for whatever reason, the failure is final.
pub at_most_one_retry :
    (b b' b'' : Browser) (f g : Failure) (r r' : Request)
    → sent_again (on_error b f).1 ≡ some r
    → on_request b' r ≡ ok r'
    → g.request ≡ some r'
    → IsReject (on_error b'' g).1
at_most_one_retry b b' b'' f g r r' h k e =
    on_error-retried b'' g r' e (retried-on_request b' r r' k ∙ retried-on_error b f r h)

on_error-expired :
    (b : Browser) (r : Request) (f : Failure) (sid : String)
    → f.request ≡ some r
    → is_status 401 f.status ≡ true
    → r.retried_after_refresh ≡ false
    → sid ≢ ""
    → r.session_id ≡ some sid
    → get_session_id b ≡ some sid
    → r.access_token ≡ b.auth_token
    → truthy b.auth_token ≡ true
    → on_error b f ≡ (b, renew_then_resend sid (record r { retried_after_refresh = true }))
unfolding on_error end_unverified on_unauthorized
on_error-expired b r f sid fr st nr ne rs bs at bt =
    let same = same_text_self (some sid) in
    let token = same_text_self b.auth_token in ground (arith, eq_iff sid "")

on_request-renewed :
    (b : Browser) (r : Request) (sid token : String)
    → is_public r ≡ false
    → r.session_id ≡ some sid
    → get_session_id b ≡ some sid
    → b.auth_token ≡ some token
    → token ≢ ""
    → (r' : Request) × (on_request b r ≡ ok r') × (r'.authorization ≡ some (concat "Bearer " token))
unfolding on_request authorize
on_request-renewed b r sid token np rs bs bt ne =
    let same = same_text_self (some sid) in
    (
      record r {
        session_id = get_session_id b;
        access_token = b.auth_token;
        authorization = some (concat "Bearer " token);
      },
      ground (arith, eq_iff token ""),
      refl,
    )

-- A 401 on a request of the current session, for the token that is stored, is mended when the
-- server renews the session: the request waits for the renewal, the renewal succeeds, and the
-- request is then sent with the new token.
pub renewal_mends :
    (accepts : String → Bool) (b : Browser) (r : Request) (f : Failure) (sid token : String)
    (session : LoginResponse)
    → f.request ≡ some r
    → is_status 401 f.status ≡ true
    → is_public r ≡ false
    → r.retried_after_refresh ≡ false
    → sid ≢ ""
    → r.session_id ≡ some sid
    → get_session_id b ≡ some sid
    → truthy b.auth_session_id ≡ true
    → r.access_token ≡ b.auth_token
    → truthy b.auth_token ≡ true
    → b.refresh_token ≡ some token
    → session.access_token ≢ ""
    → session.refresh_token ≢ ""
    → ((v : String) → accepts v ≡ true)
    → let again = record r { retried_after_refresh = true } in
      let (result, b') = renew accepts sid token (renewed session) b in
      (on_error b f ≡ (b, renew_then_resend sid again))
      × (result ≡ ok tt)
      × ((r' : Request) × (on_request b' again ≡ ok r')
          × (r'.authorization ≡ some (concat "Bearer " session.access_token)))
renewal_mends accepts b r f sid token session fr st np nr ne rs bs bi at bt rt sa sr all =
    let (done, new_token, _, same_session) =
      renew-renewed accepts sid token session b bi bs rt sa sr all in
    (
      on_error-expired b r f sid fr st nr ne rs bs at bt,
      done,
      on_request-renewed (renew accepts sid token (renewed session) b).1
          (record r { retried_after_refresh = true }) sid session.access_token np rs same_session
          new_token sa,
    )
