-- ===== src/Auth/Profile/View/Retried.antt =====
-- Trying to load a profile again.
use webbuilder.Base.{
  ℕ, suc, ◌+◌, ◌<◌, ◌≤◌, sym, String, Bool, true, ◌≡◌, refl, Option, none, some, eqb, Bool-cases,
  inl, inr, truthy, arith,
}
use webbuilder.Base.Exec.{Result, ok, err}
use webbuilder.Auth.Account.{UserData, set_user_data}
use webbuilder.Auth.Profile.{Profile, load, on_loaded, after_load, attempted, loaded, step}
use webbuilder.Auth.Profile.View.{Body, try_again, skeleton, content, body}

-- the user that a page shows
unfoldable pub shown_user : Body → Option UserData
shown_user (content user methods) = some user
shown_user _ = none

user-after_load :
    (provider_in : String → Option String) (accepts : String → Bool) (stringify : UserData → String)
    (user : UserData) (p : Profile)
    → (after_load provider_in user (set_user_data accepts (stringify user) p.browser) p).user
      ≡ some user
unfolding after_load set_user_data
user-after_load provider_in accepts stringify user p =
    elim (Bool-cases (accepts (stringify user))) [ inl t ↦ rw t refl | inr f ↦ rw f refl ]

eqb_self : (n : ℕ) → eqb n n ≡ true
eqb_self n = ground arith

shown_user-body :
    (p : Profile) (user : UserData) → p.user ≡ some user → shown_user (body p) ≡ some user
unfolding shown_user body
shown_user-body p user e = rw e refl

load_waits : (p : Profile) → truthy p.browser.auth_token ≡ true → load p ≡ record p { error = "" }
unfolding load
load_waits p t = rw t refl

body_waits : (p : Profile) → p.user ≡ none → p.error ≡ "" → body p ≡ skeleton
unfolding body
body_waits p n e = rw (n, e) refl

-- what the page shows for an answer
abbrev pub IsShown : Result UserData → Body → Type 0
IsShown (ok user) shown = shown_user shown ≡ some user
IsShown (err message) shown = shown ≡ try_again

body-on_loaded :
    (provider_in : String → Option String) (accepts : String → Bool) (stringify : UserData → String)
    (answer : Result UserData) (q : Profile)
    → q.user ≡ none
    → IsShown answer (body (on_loaded accepts stringify provider_in q.attempt answer q))
unfolding on_loaded body
body-on_loaded provider_in accepts stringify (ok user) q n =
    rw (eqb_self q.attempt)
      (shown_user-body _ user (user-after_load provider_in accepts stringify user q))
body-on_loaded provider_in accepts stringify (err message) q n = rw (eqb_self q.attempt, n) refl

stale_answer :
    (provider_in : String → Option String) (accepts : String → Bool) (stringify : UserData → String)
    (stale : Result UserData) (n : ℕ) (q : Profile)
    → n < q.attempt
    → on_loaded accepts stringify provider_in n stale q ≡ q
unfolding on_loaded
stale_answer provider_in accepts stringify (ok user) n q l = ground arith
stale_answer provider_in accepts stringify (err message) n q l = ground arith

-- While no user is shown and a token is there, the button that tries again starts a new attempt:
-- the page waits, an answer to any attempt before changes nothing, and the answer to the new one is
-- shown: the user that the server gives, even where the storage refuses the copy, or the button
-- again.
pub body-after_retry :
    (provider_in : String → Option String) (accepts : String → Bool) (stringify : UserData → String)
    (p : Profile) (before : ℕ) (stale answer : Result UserData)
    → p.user ≡ none
    → truthy p.browser.auth_token ≡ true
    → before ≤ p.attempt
    → let react = step provider_in accepts stringify in
      let q = react attempted p in
      (q.attempt ≡ suc p.attempt)
      × (body q ≡ skeleton)
      × (react (loaded before stale) q ≡ q)
      × IsShown answer (body (react (loaded (suc p.attempt) answer) q))
unfolding step
body-after_retry provider_in accepts stringify p before stale answer n t l =
    let q = record p { attempt = p.attempt + 1; error = "" } in
    let next : suc p.attempt ≡ q.attempt = omega arith in
    let older : before < q.attempt = omega (arith, l) in
    let shown = body-on_loaded provider_in accepts stringify answer q n in
    rw (load_waits (record p { attempt = p.attempt + 1 }) t) (
      sym next,
      body_waits q n refl,
      stale_answer provider_in accepts stringify stale before q older,
      rw next shown,
    )
