-- ===== src/Chat/Handler/Snapshot.antt =====
-- A run as its events come in over the socket, and as its snapshot restores it.
use webbuilder.Base.{
  ◌≡◌, ◌≢◌, refl, ap, ◌∙◌, String, true, false, List, [], ◌∷◌, ◌++◌, is_empty, eq_iff, arith,
  Bool-cases, inl, inr, Bool, ℕ, Option, any, if_keeps, if◌then◌else◌, All, sym, not, ◌&&◌,
}
use webbuilder.Chat.Types.{Message, RunEvent, RunSnapshot, EventName, run_finished}
use webbuilder.Chat.Events.{apply_run_event, is_run_finished}
use webbuilder.Chat.Events.Calls.{any-append_self}
use webbuilder.Chat.Restore.{
  is_running, apply_events, terminal_event, needs_end, forget_time, restore_run, restore_all,
  sort_by_time, restore_runs,
}
use webbuilder.Chat.Handler.{Chat, contains, on_event}
use webbuilder.Chat.Handler.Live.{
  IsTerminal, finished-contains, on_event_no_run, on_event_of_terminal,
}

pub receive : Chat → List RunEvent → Chat
receive c [] = c
receive c (e ∷ es) = receive (on_event c e) es

-- The events of one run, of which only the last may be `run_finished`.
abbrev pub IsTrace : String → List RunEvent → Type 0
IsTrace r [] = Unit
IsTrace r (e ∷ []) = e.run_id ≡ r
IsTrace r (e ∷ f ∷ es) = (e.run_id ≡ r) × (is_run_finished e.e ≡ false) × IsTrace r (f ∷ es)

on_event-messages :
    (c : Chat) (e : RunEvent)
    → contains c.terminal_runs e.run_id ≡ false
    → (on_event c e).messages ≡ apply_run_event c.messages e
unfolding on_event apply_run_event
on_event-messages c e h = ground arith

on_event-terminal_runs :
    (c : Chat) (e : RunEvent)
    → is_run_finished e.e ≡ false
    → (on_event c e).terminal_runs ≡ c.terminal_runs
unfolding on_event
on_event-terminal_runs c e h = ground arith

messages-receive_events :
    (r : String) (c : Chat) (es : List RunEvent)
    → contains c.terminal_runs r ≡ false
    → IsTrace r es
    → (receive c es).messages ≡ apply_events c.messages es
unfolding receive apply_events
messages-receive_events r c [] h t = refl
messages-receive_events r c (e ∷ []) h t = on_event-messages c e (rw t h)
messages-receive_events r c (e ∷ f ∷ es) h t =
    let same = on_event-messages c e (rw t.0 h) in
    messages-receive_events r (on_event c e) (f ∷ es) (rw (on_event-terminal_runs c e t.1) h) t.2
    ∙ ap (λ ms. apply_events ms (f ∷ es)) same

receive-append :
    (es fs : List RunEvent) (c : Chat) → receive c (es ++ fs) ≡ receive (receive c es) fs
unfolding receive
receive-append [] fs c = refl
receive-append (e ∷ es) fs c = receive-append es fs (on_event c e)

apply_events-append :
    (es fs : List RunEvent) (ms : List Message)
    → apply_events ms (es ++ fs) ≡ apply_events (apply_events ms es) fs
unfolding apply_events
apply_events-append [] fs ms = refl
apply_events-append (e ∷ es) fs ms = apply_events-append es fs (apply_run_event ms e)

abbrev has_end : List RunEvent → Bool
has_end es = any (λ (e : RunEvent). is_run_finished e.e) es

-- a trace without an end goes on with one more event
IsTrace-append :
    (r : String) (es : List RunEvent) (last : RunEvent)
    → last.run_id ≡ r
    → has_end es ≡ false
    → IsTrace r es
    → IsTrace r (es ++ last ∷ [])
IsTrace-append r [] last l h t = l
IsTrace-append r (e ∷ []) last l h t = (t, ground (arith, h), l)
IsTrace-append r (e ∷ f ∷ es) last l h t =
    (t.0, t.1, IsTrace-append r (f ∷ es) last l (ground (arith, h)) t.2)

-- what a run that ends has sent
abbrev pub all_events : RunSnapshot → List RunEvent
all_events run = if needs_end run then run.events ++ terminal_event run ∷ [] else run.events

run_id-terminal_event : (run : RunSnapshot) → (terminal_event run).run_id ≡ run.id
unfolding terminal_event
run_id-terminal_event run = refl

ends-terminal_event : (run : RunSnapshot) → is_run_finished (terminal_event run).e ≡ true
unfolding terminal_event
ends-terminal_event run = refl

not_needed : (b : Bool) → (not b && false) ≡ false
not_needed b = ground arith

on_event_ignored :
    (r : String) (e : RunEvent) (c : Chat)
    → (r ≢ "" → IsTerminal r c)
    → e.run_id ≡ r
    → on_event c e ≡ c
on_event_ignored r e c h i = elim (Bool-cases (is_empty r)) [
  | inl z ↦ on_event_no_run c e (i ∙ (eq_iff r "").0 z)
  | inr z ↦ on_event_of_terminal c e (rw i (h (λ p. ground (arith, eq_iff r ""))))
]

all_events-IsTrace :
    (run : RunSnapshot) → IsTrace run.id run.events → IsTrace run.id (all_events run)
unfolding needs_end
all_events-IsTrace run t = elim (Bool-cases (has_end run.events)) [
  | inl e ↦ rw (e, not_needed (is_running run.status)) t
  | inr e ↦
      if_keeps (IsTrace run.id) (not (is_running run.status) && not (has_end run.events))
        (IsTrace-append run.id run.events (terminal_event run) (run_id-terminal_event run) e t) t
]

ends-append :
    (es : List RunEvent) (last : RunEvent)
    → is_run_finished last.e ≡ true
    → has_end (es ++ last ∷ []) ≡ true
ends-append es last f = any-append_self (λ (e : RunEvent). is_run_finished e.e) es last f

all_events-has_end :
    (run : RunSnapshot) → is_running run.status ≡ false → has_end (all_events run) ≡ true
unfolding needs_end
all_events-has_end run f = elim (Bool-cases (has_end run.events)) [
  | inl e ↦ rw (f, e) e
  | inr e ↦ rw (f, e) (ends-append run.events (terminal_event run) (ends-terminal_event run))
]

is_run_finished-eq : (e : EventName) → is_run_finished e ≡ true → e ≡ run_finished
is_run_finished-eq e h = ground (arith, h)

receive-IsTerminal :
    (r : String) (es : List RunEvent) (c : Chat)
    → r ≢ ""
    → IsTrace r es
    → has_end es ≡ true
    → IsTerminal r (receive c es)
unfolding receive
receive-IsTerminal r [] c n t h = absurd (ground (arith, h))
receive-IsTerminal r (e ∷ []) c n t h =
    rw (sym t) (finished-contains c e (is_run_finished-eq e.e (ground (arith, h))) (rw t n))
receive-IsTerminal r (e ∷ f ∷ es) c n t h =
    receive-IsTerminal r (f ∷ es) (on_event c e) n t.2 (ground (arith, h))

receive_of_terminal :
    (r : String) (es : List RunEvent) (c : Chat)
    → (r ≢ "" → IsTerminal r c)
    → All (λ e. e.run_id ≡ r) es
    → receive c es ≡ c
unfolding receive
receive_of_terminal r [] c h o = refl
receive_of_terminal r (e ∷ es) c h (i, o) =
    rw (on_event_ignored r e c h i) (receive_of_terminal r es c h o)

-- nothing comes after what a run that has ended has sent
receive-all_events :
    (c : Chat) (run : RunSnapshot) (late : List RunEvent)
    → IsTrace run.id run.events
    → All (λ e. e.run_id ≡ run.id) late
    → (is_running run.status ≡ true → late ≡ [])
    → receive c (all_events run ++ late) ≡ receive c (all_events run)
unfolding receive
receive-all_events c run late t o h = elim (Bool-cases (is_running run.status)) [
  | inl r ↦ rw (h r) (receive-append (all_events run) [] c)
  | inr r ↦
      receive-append (all_events run) late c
      ∙ receive_of_terminal run.id late _
          (λ n.
            receive-IsTerminal run.id (all_events run) c n (all_events-IsTrace run t)
              (all_events-has_end run r))
          o
]

restore_run-all_events :
    (messages : List Message) (run : RunSnapshot)
    → restore_run messages run ≡ (
        let ms = apply_events messages (all_events run) in
        if needs_end run then forget_time run.id ms else ms)
unfolding restore_run apply_events
restore_run-all_events messages run = elim (Bool-cases (needs_end run)) [
  | inl n ↦ rw (n, apply_events-append run.events (terminal_event run ∷ []) messages) refl
  | inr n ↦ rw n refl
]

-- The events of a run that the chat has not seen end, received one by one, leave the messages that
-- restoring the run from its snapshot shows, up to the order by time. All events are the run's, and
-- `run_finished` comes last if it comes. If the snapshot has ended without it, the event made for it is
-- received too, and the completion time is forgotten. Once the run has ended, any number of late
-- events of the run may follow.
pub messages-receive :
    (parse_date : String → Option ℕ) (c : Chat) (run : RunSnapshot) (late : List RunEvent)
    → contains c.terminal_runs run.id ≡ false
    → IsTrace run.id run.events
    → All (λ e. e.run_id ≡ run.id) late
    → (is_running run.status ≡ true → late ≡ [])
    → let ms = (receive c (all_events run ++ late)).messages in
      restore_runs parse_date c.messages (run ∷ [])
      ≡ sort_by_time parse_date (if needs_end run then forget_time run.id ms else ms)
unfolding restore_runs restore_all
messages-receive parse_date c run late h t o l =
    rw
      (
        receive-all_events c run late t o l,
        restore_run-all_events c.messages run,
        messages-receive_events run.id c (all_events run) h (all_events-IsTrace run t),
      )
      refl
