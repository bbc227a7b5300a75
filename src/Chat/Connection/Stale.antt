-- ===== src/Chat/Connection/Stale.antt =====
-- Sockets that the hook has left.
use webbuilder.Base.{
  ℕ, ◌≡◌, refl, ap, ◌∙◌, String, true, Option, none, List, [], ◌∷◌, ◌++◌, append-nil, append_assoc,
  All,
}
use webbuilder.Auth.Session.{Browser}
use webbuilder.Chat.Connection.{
  Socket, Connection, Outgoing, Event, opened, message, failed, closed, user_checked, timeout,
  on_open, on_message, on_close, on_user_checked, on_retry, is_gone, unmount, step, run,
}

-- what a socket tells of itself after it was opened
abbrev pub IsFrom : Socket → Event → Type 0
IsFrom ws (message s frame) = s ≡ ws
IsFrom ws (closed s code) = s ≡ ws
IsFrom ws (user_checked s ok) = s ≡ ws
IsFrom ws _ = ⊥

-- A message or the closing of a socket that is no longer the current one changes nothing, nor does
-- the answer about the user that was asked for when it closed.
pub step-IsFrom :
    (parse_date : String → Option ℕ) (url id : String) (b : Browser) (ws : Socket) (event : Event)
    (c : Connection)
    → is_gone ws c ≡ true
    → IsFrom ws event
    → step parse_date url id b event c ≡ c
unfolding step on_message on_close on_user_checked
step-IsFrom parse_date url id b ws (opened s) c g e = absurd e
step-IsFrom parse_date url id b ws (message s frame) c g e = rw (e, g) refl
step-IsFrom parse_date url id b ws (failed s) c g e = absurd e
step-IsFrom parse_date url id b ws (closed s code) c g e = rw (e, g) refl
step-IsFrom parse_date url id b ws (user_checked s ok) c g e = rw (e, g) refl
step-IsFrom parse_date url id b ws timeout c g e = absurd e

-- the log of `q` is that of `c`, then closings, and nothing else is changed
pub record HasOnlyClosed (c q : Connection) : Type 0 where
  pub extra : List (ℕ × Outgoing)
  pub log_only : q ≡ record c { sent = c.sent ++ extra }
  pub closings : All (λ (e : ℕ × Outgoing). e.1 ≡ Outgoing.close) extra

step-unmounted :
    (parse_date : String → Option ℕ) (url id : String) (b : Browser) (event : Event)
    (c : Connection)
    → c.disposed ≡ true
    → c.retry ≡ none
    → HasOnlyClosed c (step parse_date url id b event c)
unfolding step on_open on_message on_close on_user_checked on_retry
step-unmounted parse_date url id b (opened s) c d r =
    rw d (record { extra = (s.id, Outgoing.close) ∷ []; log_only = refl; closings = (refl, tt) })
step-unmounted parse_date url id b (message s frame) c d r =
    rw d (record { extra = []; log_only = rw (append-nil c.sent) refl; closings = tt })
step-unmounted parse_date url id b (failed s) c d r = record {
  extra = (s.id, Outgoing.close) ∷ [];
  log_only = refl;
  closings = (refl, tt);
}
step-unmounted parse_date url id b (closed s code) c d r =
    rw d (record { extra = []; log_only = rw (append-nil c.sent) refl; closings = tt })
step-unmounted parse_date url id b (user_checked s ok) c d r =
    rw d (record { extra = []; log_only = rw (append-nil c.sent) refl; closings = tt })
step-unmounted parse_date url id b timeout c d r =
    rw r (record { extra = []; log_only = rw (append-nil c.sent) refl; closings = tt })

All-append :
    (P : ℕ × Outgoing → Type 0) (xs ys : List (ℕ × Outgoing))
    → All P xs
    → All P ys
    → All P (xs ++ ys)
All-append P [] ys h k = k
All-append P (x ∷ xs) ys (h, hs) k = (h, All-append P xs ys hs k)

HasOnlyClosed-trans :
    (c q r : Connection) → HasOnlyClosed c q → HasOnlyClosed q r → HasOnlyClosed c r
HasOnlyClosed-trans c q r h k = record {
  extra = h.extra ++ k.extra;
  log_only = k.log_only ∙ rw (h.log_only, append_assoc c.sent h.extra k.extra) refl;
  closings = All-append _ h.extra k.extra h.closings k.closings;
}

run-unmounted :
    (parse_date : String → Option ℕ) (url id : String) (events : List (Browser × Event))
    (c : Connection)
    → c.disposed ≡ true
    → c.retry ≡ none
    → HasOnlyClosed c (run parse_date url id events c)
unfolding run
run-unmounted parse_date url id [] c d r = record {
  extra = [];
  log_only = rw (append-nil c.sent) refl;
  closings = tt;
}
run-unmounted parse_date url id ((b, event) ∷ rest) c d r =
    let h = step-unmounted parse_date url id b event c d r in
    let q = step parse_date url id b event c in
    HasOnlyClosed-trans c q (run parse_date url id rest q) h (
      run-unmounted parse_date url id rest q (ap (λ (x : Connection). x.disposed) h.log_only ∙ d)
        (ap (λ (x : Connection). x.retry) h.log_only ∙ r))

-- After the hook is unmounted, whatever its sockets, its timeout and its requests still do closes
-- sockets and changes nothing else.
pub run-unmount :
    (parse_date : String → Option ℕ) (url id : String) (events : List (Browser × Event))
    (c : Connection)
    → HasOnlyClosed (unmount c) (run parse_date url id events (unmount c))
unfolding unmount
run-unmount parse_date url id events c =
    run-unmounted parse_date url id events (unmount c) refl refl
