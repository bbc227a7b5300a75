-- ===== src/Chat/Workspace/Starts.antt =====
-- How often runs are started.
use webbuilder.Base.{
  ℕ, ◌+◌, ◌≤◌, String, Bool, not, ◌&&◌, ◌≡◌, refl, ap, Option, none, some, List, [], ◌∷◌, length,
  length-append, if◌then◌else◌, trim, arith,
}
use webbuilder.Base.Exec.{Result, ok, err}
use webbuilder.Auth.Account.{UserData, set_user_data}
use webbuilder.Chat.Workspace.{
  Workspace, Start, Event, typed, sent, started, stopped, cancelled, progress, step, run,
  handle_send_message, on_started, store_tokens_left, start_failed, resync, set_error, set_building,
  set_run_id, handle_cancel, on_cancelled,
}

-- the runs that were started, and the one that may be started now
abbrev budget : Workspace → ℕ
budget w = length w.starts + (if w.chat.is_building then 0 else 1)

-- The workspace builds no longer.
abbrev pub released : Workspace → Workspace → ℕ
released w w' = if w.chat.is_building && not w'.chat.is_building then 1 else 0

module _ (parse_date : String → Option ℕ) (accepts : String → Bool)
    (stringify : UserData → String) where
  -- how often building ends, by an answer or by the progress of a run
  unfoldable pub releases : List Event → Workspace → ℕ
  releases [] w = 0
  releases (event ∷ events) w =
      let w' = step parse_date accepts stringify event w in released w w' + releases events w'

  starts-on_started :
      (open_socket : Bool) (user : Option UserData) (answer : Result Start) (w : Workspace)
      → (on_started accepts stringify open_socket user answer w).starts ≡ w.starts
  unfolding on_started store_tokens_left start_failed resync set_error set_building set_run_id
      set_user_data
  starts-on_started open_socket user (err message) w = refl
  starts-on_started open_socket none (ok start) w = ground arith
  starts-on_started open_socket (some u) (ok start) w = ground arith

  budget-same : (w w' : Workspace) → w'.starts ≡ w.starts → budget w' ≤ budget w + released w w'
  budget-same w w' e = ground (arith, ap (length {0} {A = String}) e)

  budget-send : (w : Workspace) → budget (handle_send_message w) ≤ budget w
  unfolding handle_send_message set_error set_building
  budget-send w = ground (arith, length-append w.starts (trim w.input ∷ []))

  budget-step :
      (event : Event) (w : Workspace)
      → let w' = step parse_date accepts stringify event w in budget w' ≤ budget w + released w w'
  unfolding step handle_cancel on_cancelled resync set_error set_building set_run_id
  budget-step (typed text) w = budget-same w (step parse_date accepts stringify (typed text) w) refl
  budget-step sent w = omega (arith, budget-send w)
  budget-step (started o user answer) w =
      budget-same w (step parse_date accepts stringify (started o user answer) w)
        (starts-on_started o user answer w)
  budget-step stopped w = budget-same w (step parse_date accepts stringify stopped w) (ground arith)
  budget-step (cancelled o answer) w =
      budget-same w (step parse_date accepts stringify (cancelled o answer) w) (ground arith)
  budget-step (progress incoming) w =
      budget-same w (step parse_date accepts stringify (progress incoming) w) refl

  budget-run :
      (events : List Event) (w : Workspace)
      → budget (run parse_date accepts stringify events w) ≤ budget w + releases events w
  unfolding run releases
  budget-run [] w = omega arith
  budget-run (event ∷ events) w =
      omega
        (arith, budget-step event w, budget-run events (step parse_date accepts stringify event w))

  -- Whatever the user, the server and the socket do, the workspace starts one run at a time: each
  -- start after the first needs that building has ended since the one before.
  pub starts-run :
      (events : List Event) (w : Workspace)
      → length (run parse_date accepts stringify events w).starts
        ≤ length w.starts + (if w.chat.is_building then 0 else 1) + releases events w
  starts-run events w = omega (arith, budget-run events w)
