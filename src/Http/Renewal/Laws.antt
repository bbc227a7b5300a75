-- ===== src/Http/Renewal/Laws.antt =====
-- What renewing a session does to the stored credentials, by the server's answer.
use webbuilder.Base.{
  ℕ, String, ◌≡◌, ◌≢◌, refl, Bool, true, false, Option, none, some, truthy, arith, eq_iff, eq_refl,
  same_text, Bool-cases, inl, inr,
}
use webbuilder.Files.ContentCache.{clear_file_content_cache}
use webbuilder.Base.Exec.{ok, err}
use webbuilder.Auth.Session.{
  Browser, LoginResponse, get_session_id, clear_session, store_tokens, set_refresh_token,
  set_auth_token,
}
use webbuilder.Auth.Session.Laws.{IsSignedOut}
use webbuilder.Http.Renewal.{
  Client, is_session, end_session, joined, posted, begin_renewal, Answer, renewed, failed,
  is_denied, try_renewal, after_renewal, renew,
}

same_text_iff :
    (s t : String) → (o : Option String) → o ≡ some s → same_text o (some t) ≡ true → s ≡ t
same_text_iff s t o h e = ground (arith, eq_iff s t)

pub same_text_refl : (t : String) → same_text (some t) (some t) ≡ true
same_text_refl t = eq_refl t

pub same_text_ne : (o : Option String) (t : String) → o ≢ some t → same_text o (some t) ≡ false
same_text_ne none t h = refl
same_text_ne (some s) t h = ground (arith, eq_iff s t)

is_session_of :
    (session_id : String) (b : Browser)
    → get_session_id b ≡ some session_id
    → is_session session_id b ≡ true
is_session_of session_id b h = rw h (eq_refl session_id)

end_session-IsSignedOut :
    (session_id : String) (b : Browser)
    → get_session_id b ≡ some session_id
    → IsSignedOut (end_session session_id "/signin" b)
unfolding end_session clear_session clear_file_content_cache
end_session-IsSignedOut session_id b h = ground (arith, is_session_of session_id b h)

pathname-end_session :
    (session_id destination : String) (b : Browser)
    → get_session_id b ≡ some session_id
    → (end_session session_id destination b).pathname ≡ destination
unfolding end_session clear_session
pathname-end_session session_id destination b h =
    ground (arith, is_session_of session_id b h, eq_iff b.pathname destination)

module _ (accepts : String → Bool) (session_id token : String) where
  store_tokens_complete :
      (session : LoginResponse) (b : Browser)
      → session.access_token ≢ ""
      → session.refresh_token ≢ ""
      → ((v : String) → accepts v ≡ true)
      → store_tokens accepts session b ≡ (
        ok tt,
        record b {
          refresh_token = some session.refresh_token;
          auth_token = some session.access_token;
        },
      )
  unfolding store_tokens set_refresh_token set_auth_token
  store_tokens_complete session b a f all = ground (
    arith,
    eq_iff session.access_token "",
    eq_iff session.refresh_token "",
    all session.access_token,
    all session.refresh_token,
  )

  -- A failure that is no refusal leaves every stored credential as it was.
  pub renew-failed :
      (status : Option ℕ) (b : Browser)
      → is_denied status ≡ false
      → (renew accepts session_id token (failed status) b).1 ≡ b
  unfolding renew try_renewal after_renewal
  renew-failed status b h = ground arith

  -- When the session has changed meanwhile, an answer of any kind changes nothing, and the renewal
  -- fails.
  pub renew_changed_session :
      (answer : Answer) (b : Browser)
      → get_session_id b ≢ some session_id
      → (e : String) × (renew accepts session_id token answer b ≡ (err e, b))
  unfolding renew try_renewal after_renewal
  renew_changed_session (renewed session) b h = (
    "Could not renew your session. Please try again.",
    ground (arith, same_text_ne _ session_id h),
  )
  renew_changed_session (failed status) b h = elim (Bool-cases (is_denied status)) [
    | inl denied ↦ (
      "Your session has expired. Please sign in again.",
      unfold end_session in ground (arith, same_text_ne _ session_id h),
    )
    | inr other ↦ (
      "Could not renew your session. Please try again.",
      ground (arith, same_text_ne _ session_id h),
    )
  ]

  -- When another tab has renewed the session meanwhile, an answer of any kind changes nothing, and
  -- the renewal succeeds with the other tab's tokens.
  pub renew_other_tab :
      (answer : Answer) (b : Browser)
      → get_session_id b ≡ some session_id
      → b.refresh_token ≢ some token
      → renew accepts session_id token answer b ≡ (ok tt, b)
  unfolding renew try_renewal after_renewal
  renew_other_tab (renewed session) b h ne =
      ground (arith, is_session_of session_id b h, same_text_ne b.refresh_token token ne)
  renew_other_tab (failed status) b h ne =
      ground (arith, is_session_of session_id b h, same_text_ne b.refresh_token token ne)

  -- A refusal of the refresh token that is still stored ends the session: nobody is signed in, and
  -- the page is the sign-in page.
  pub renew_denied :
      (status : Option ℕ) (b : Browser)
      → get_session_id b ≡ some session_id
      → b.refresh_token ≡ some token
      → is_denied status ≡ true
      → let (r, b') = renew accepts session_id token (failed status) b in
        (r ≡ err "Your session has expired. Please sign in again.")
        × IsSignedOut b'
        × (b'.pathname ≡ "/signin")
  unfolding renew try_renewal after_renewal
  renew_denied status b h t d =
      let kept : same_text b.refresh_token (some token) ≡ true = rw t (eq_refl token) in
      ground (
        arith,
        is_session_of session_id b h,
        end_session-IsSignedOut session_id b h,
        pathname-end_session session_id "/signin" b h,
      )

  -- An accepted renewal replaces both tokens and keeps the session's id, so that requests of the
  -- session stay valid.
  pub renew-renewed :
      (session : LoginResponse) (b : Browser)
      → truthy b.auth_session_id ≡ true
      → get_session_id b ≡ some session_id
      → b.refresh_token ≡ some token
      → session.access_token ≢ ""
      → session.refresh_token ≢ ""
      → ((v : String) → accepts v ≡ true)
      → let (r, b') = renew accepts session_id token (renewed session) b in
        (r ≡ ok tt)
        × (b'.auth_token ≡ some session.access_token)
        × (b'.refresh_token ≡ some session.refresh_token)
        × (get_session_id b' ≡ some session_id)
  unfolding renew try_renewal after_renewal
  renew-renewed session b l h t a f all =
      let kept : same_text b.refresh_token (some token) ≡ true = rw t (eq_refl token) in
      let same = is_session_of session_id b h in
      let stored = store_tokens_complete session b a f all in
      (
        ground arith,
        ground arith,
        ground arith,
        unfold get_session_id in ground (arith, eq_iff session.access_token ""),
      )

-- While a session's renewal is under way, whatever else has changed in the storage of that
-- session, another request to renew it joins the same promise and posts nothing.
pub begin_renewal-posted :
    (session_id token : String) (promise : ℕ) (c c' : Client) (b : Browser)
    → begin_renewal session_id c ≡ (c', posted token promise)
    → get_session_id b ≡ some session_id
    → let now = record c' { browser = b } in begin_renewal session_id now ≡ (now, joined promise)
unfolding begin_renewal
begin_renewal-posted session_id token promise c c' b h s =
    ground (arith, is_session_of session_id b s, eq_refl session_id)
