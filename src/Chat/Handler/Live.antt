-- ===== src/Chat/Handler/Live.antt =====
-- A run as its events come in over the socket.
use webbuilder.Base.{
  ◌≡◌, ◌≢◌, ◌∙◌, String, true, false, some, List, [], ◌∷◌, ◌++◌, ◌==◌, is_empty, eq_iff, eq_refl,
  arith, Bool-cases, inl, inr, ℕ, Option, if_keeps, or_else,
}
use webbuilder.Chat.Types.{RunEvent, RunSnapshot, run_finished}
use webbuilder.Chat.Events.Calls.{any-append_self}
use webbuilder.Chat.Restore.{is_running}
use webbuilder.Chat.Handler.{
  Chat, Incoming, malformed, history, event, contains, add, add_terminal, on_event, on_history,
  handle_web_socket_message,
}

contains-add : (id : String) (ids : List String) → contains (add id ids) id ≡ true
contains-add id ids = elim (Bool-cases (contains ids id)) [
  | inl old ↦ rw old old
  | inr new ↦ rw new (any-append_self (λ x. x == id) ids id (eq_refl id))
]

pub finished-contains :
    (c : Chat) (fin : RunEvent)
    → fin.e ≡ run_finished
    → fin.run_id ≢ ""
    → contains (on_event c fin).terminal_runs fin.run_id ≡ true
unfolding on_event
finished-contains c fin f h =
    ground (arith, contains-add fin.run_id c.terminal_runs, eq_iff fin.run_id "")

pub on_event_no_run : (c : Chat) (e : RunEvent) → e.run_id ≡ "" → on_event c e ≡ c
unfolding on_event
on_event_no_run c e h = ground (arith, eq_iff e.run_id "")

pub on_event_of_terminal :
    (c : Chat) (e : RunEvent) → contains c.terminal_runs e.run_id ≡ true → on_event c e ≡ c
unfolding on_event
on_event_of_terminal c e h = ground arith

contains-append :
    (ids more : List String) (id : String)
    → contains ids id ≡ true
    → contains (ids ++ more) id ≡ true
contains-append [] more id h = absurd (ground (arith, h))
contains-append (x ∷ ids) more id h = ground (arith, contains-append ids more id)

contains-add_other :
    (x id : String) (ids : List String) → contains ids id ≡ true → contains (add x ids) id ≡ true
contains-add_other x id ids h =
    if_keeps (λ (l : List String). contains l id ≡ true) (contains ids x) h
      (contains-append ids (x ∷ []) id h)

contains-add_terminal :
    (id : String) (runs : List RunSnapshot) (ids : List String)
    → contains ids id ≡ true
    → contains (add_terminal ids runs) id ≡ true
unfolding add_terminal
contains-add_terminal id [] ids h = h
contains-add_terminal id (run ∷ runs) ids h = contains-add_terminal id runs _ (
    if_keeps (λ (l : List String). contains l id ≡ true) (is_running run.status) h
      (contains-add_other run.id id ids h))

abbrev pub IsTerminal : String → Chat → Type 0
IsTerminal id c = contains c.terminal_runs id ≡ true

on_event-IsTerminal :
    (id : String) (e : RunEvent) (c : Chat) → IsTerminal id c → IsTerminal id (on_event c e)
unfolding on_event
on_event-IsTerminal id e c h = ground (arith, contains-add_other e.run_id id c.terminal_runs h)

-- the messages of the socket, one by one
unfoldable pub handle_all : (parse_date : String → Option ℕ) → List Incoming → Chat → Chat
handle_all parse_date [] c = c
handle_all parse_date (m ∷ ms) c =
    handle_all parse_date ms (handle_web_socket_message parse_date c m)

handle_all-IsTerminal :
    (parse_date : String → Option ℕ) (id : String) (ms : List Incoming) (c : Chat)
    → IsTerminal id c
    → IsTerminal id (handle_all parse_date ms c)
unfolding handle_all handle_web_socket_message on_history
handle_all-IsTerminal parse_date id [] c h = h
handle_all-IsTerminal parse_date id (malformed ∷ ms) c h =
    handle_all-IsTerminal parse_date id ms _ h
handle_all-IsTerminal parse_date id (history past ∷ ms) c h =
    handle_all-IsTerminal parse_date id ms _
      (contains-add_terminal id (or_else past.runs []) c.terminal_runs h)
handle_all-IsTerminal parse_date id (event e ∷ ms) c h =
    handle_all-IsTerminal parse_date id ms _ (on_event-IsTerminal id e c h)

-- Once `run_finished` has come for a run, no later event of that run changes anything, whatever
-- events of this run or of others, histories and unreadable frames have come between the two.
pub on_event-run_finished :
    (parse_date : String → Option ℕ) (c : Chat) (fin late : RunEvent) (between : List Incoming)
    → fin.e ≡ run_finished
    → late.run_id ≡ fin.run_id
    → let q = handle_all parse_date between (on_event c fin) in on_event q late ≡ q
on_event-run_finished parse_date c fin late between f r = elim (Bool-cases (is_empty fin.run_id)) [
  | inl e ↦ on_event_no_run _ late (r ∙ (eq_iff fin.run_id "").0 e)
  | inr ne ↦
      let done = finished-contains c fin f (λ p. ground (arith, eq_iff fin.run_id "")) in
      on_event_of_terminal _ late
        (rw r (handle_all-IsTerminal parse_date fin.run_id between (on_event c fin) done))
]

-- A run that is shown as active is being built and is not among the terminal ones.
pub record IsLive (c : Chat) : Type 0 where
  pub building : (r : String) → c.run_id ≡ some r → c.is_building ≡ true
  pub open_run : (r : String) → c.run_id ≡ some r → contains c.terminal_runs r ≡ false

-- Every event keeps the shown run live.
pub on_event-IsLive : (c : Chat) (e : RunEvent) → IsLive c → IsLive (on_event c e)
unfolding on_event
on_event-IsLive c e h = record {
  building = λ r p. ground (arith, h.building r);
  open_run = λ r p. ground (arith, h.open_run r);
}
