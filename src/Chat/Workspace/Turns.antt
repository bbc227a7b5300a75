-- ===== src/Chat/Workspace/Turns.antt =====
-- From one run to the next.
use webbuilder.Base.{
  ℕ, String, Bool, false, ◌≡◌, ◌≢◌, Option, none, some, [], ◌∷◌, ◌++◌, trim, eq_iff, arith,
}
use webbuilder.Base.Exec.{err}
use webbuilder.Auth.Account.{UserData}
use webbuilder.Chat.Types.{RunEvent, run_finished}
use webbuilder.Chat.Handler.{event, contains, on_event, handle_web_socket_message}
use webbuilder.Chat.Workspace.{
  Workspace, sent, started, progress, step, handle_send_message, on_started, start_failed,
  set_error, set_building,
}

module _ (parse_date : String → Option ℕ) (accepts : String → Bool)
    (stringify : UserData → String) where
  -- When the server refuses a start, the prompt is still in the input, the reason is shown, and
  -- sending again posts the same prompt.
  pub resend-started_err :
      (o : Bool) (user : Option UserData) (message : String) (w : Workspace)
      → trim w.input ≢ ""
      → w.chat.is_building ≡ false
      → let refused =
          step parse_date accepts stringify
            (started o user (err message))
            (step parse_date accepts stringify sent w) in
        (refused.input ≡ w.input)
        × (refused.chat.error ≡ some message)
        × ((step parse_date accepts stringify sent refused).starts
            ≡ (w.starts ++ trim w.input ∷ []) ++ trim w.input ∷ [])
  unfolding step handle_send_message on_started start_failed set_error set_building
  resend-started_err o user message w n b = ground (arith, eq_iff (trim w.input) "")

  -- When the run's `run_finished` comes in, the workspace builds no longer, shows no run and no
  -- error, and posts the prompt that the user has typed meanwhile.
  pub send-run_finished :
      (fin : RunEvent) (w : Workspace)
      → fin.e ≡ run_finished
      → fin.run_id ≢ ""
      → contains w.chat.terminal_runs fin.run_id ≡ false
      → trim w.input ≢ ""
      → let ended = step parse_date accepts stringify (progress (event fin)) w in
        (ended.chat.is_building ≡ false)
        × (ended.chat.run_id ≡ none)
        × (ended.chat.error ≡ none)
        × ((step parse_date accepts stringify sent ended).starts ≡ w.starts ++ trim w.input ∷ [])
  unfolding step handle_send_message handle_web_socket_message on_event
  send-run_finished fin w f r t n = ground (arith, eq_iff (trim w.input) "", eq_iff fin.run_id "")
