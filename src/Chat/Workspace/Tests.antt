-- ===== src/Chat/Workspace/Tests.antt =====
-- Two prompts in one workspace.
use webbuilder.Base.{
  ◌+◌, ◌≤◌, ◌≡◌, ◌≢◌, refl, true, false, none, some, List, [], ◌∷◌, ◌++◌, length, trim,
}
use webbuilder.Base.Exec.{ok}
use webbuilder.Chat.Types.{run_finished}
use webbuilder.Chat.Handler.{event, contains}
use webbuilder.Samples.{
  signed_in, account, no_chat, no_dates, takes_all, takes_none, stringify, run_event,
}
use webbuilder.Chat.Workspace.{
  Workspace, Event, typed, sent, started, progress, step, run, handle_send_message, on_started,
}
use webbuilder.Chat.Workspace.Starts.{releases, starts-run}
use webbuilder.Chat.Workspace.Turns.{send-run_finished}

abbrev idle : Workspace
idle = record {
  chat = no_chat;
  input = " a shop ";
  is_loading = false;
  user_data = some account;
  follow_latest = false;
  browser = signed_in;
  starts = [];
  cancels = [];
  resyncs = 0;
}

abbrev accepted : Event
accepted = started true (some account) (ok (record { run_id = "r1"; tokens_remaining = 4 }))

abbrev day : List Event
day =
    sent
    ∷ sent
    ∷ accepted
    ∷ typed "a blog"
    ∷ sent
    ∷ progress (event (run_event run_finished))
    ∷ sent
    ∷ []

day_starts : (run no_dates takes_all stringify day idle).starts ≡ "a shop" ∷ "a blog" ∷ []
unfolding run step handle_send_message trim on_started webbuilder.Chat.Workspace.store_tokens_left
    webbuilder.Auth.Account.set_user_data webbuilder.Chat.Workspace.resync
    webbuilder.Chat.Workspace.set_run_id webbuilder.Chat.Handler.handle_web_socket_message
    webbuilder.Chat.Handler.on_event
day_starts = refl

release_count : releases no_dates takes_all stringify day idle ≡ 1
unfolding releases step handle_send_message trim on_started
    webbuilder.Chat.Workspace.store_tokens_left webbuilder.Auth.Account.set_user_data
    webbuilder.Chat.Workspace.resync webbuilder.Chat.Workspace.set_run_id
    webbuilder.Chat.Handler.handle_web_socket_message webbuilder.Chat.Handler.on_event
release_count = refl

-- A start that was accepted looks like a failed one if the copy of the user cannot be stored.
full_storage :
    (step no_dates takes_none stringify accepted (handle_send_message idle)).chat.error
    ≡ some "The quota has been exceeded."
unfolding step on_started webbuilder.Chat.Workspace.store_tokens_left
    webbuilder.Auth.Account.set_user_data webbuilder.Chat.Workspace.start_failed
full_storage = refl

starts-run_example :
    length (run no_dates takes_all stringify day idle).starts
    ≤ 0 + 1 + releases no_dates takes_all stringify day idle
starts-run_example = starts-run no_dates takes_all stringify day idle

is_prompt : trim idle.input ≢ ""
unfolding trim
is_prompt = λ e. cc

send-run_finished_example :
    let ended =
      step no_dates takes_all stringify (progress (event (run_event run_finished))) idle in
    (ended.chat.is_building ≡ false)
    × (ended.chat.run_id ≡ none)
    × (ended.chat.error ≡ none)
    × ((step no_dates takes_all stringify sent ended).starts ≡ [] ++ trim idle.input ∷ [])
send-run_finished_example =
    send-run_finished no_dates takes_all stringify (run_event run_finished) idle refl (λ e. cc) refl
      is_prompt
