-- ===== src/Chat/Composer/Tests.antt =====
-- A reference to a file that is added to a text, and the keys and the button of the form.
use webbuilder.Base.{
  String, Bool, true, false, not, ◌&&◌, ◌||◌, ◌≡◌, refl, Option, none, some, List, [], ◌∷◌,
  if◌then◌else◌, ◌==◌,
}
use webbuilder.Chat.Workspace.{Workspace, handle_send_message, handle_cancel}
use webbuilder.Chat.Composer.{
  Menu, file_menu, command_menu, open_menu, close_menu, commands, choices, insert, empty_text, send,
  button, press, on_key_down, status_text,
}
use webbuilder.Chat.Composer.Enter.{on_key_down-press}
use webbuilder.Samples.{signed_in, no_chat}

abbrev same : String → String
same s = s

abbrev typing : Workspace
typing = record {
  chat = no_chat;
  input = "Look at";
  is_loading = false;
  user_data = none;
  follow_latest = true;
  browser = signed_in;
  starts = [];
  cancels = [];
  resyncs = 0;
}

file_added : insert "Look at" "@a.ts " ≡ "Look at @a.ts "
unfolding insert webbuilder.Chat.Composer.ends_in_space
file_added = refl

second_file : insert "Look at @a.ts " "@b.ts " ≡ "Look at @a.ts @b.ts "
unfolding insert webbuilder.Chat.Composer.ends_in_space
second_file = refl

all_commands : choices same [] (open_menu command_menu) ≡ commands
unfolding choices webbuilder.Projects.Filters.includes
all_commands = refl

no_files :
    empty_text same [] (open_menu file_menu)
    ≡ some "Saved files will appear after your first build."
unfolding empty_text choices
no_files = refl

sent : (on_key_down true "Enter" false false typing).starts ≡ ("Look at" ∷ [])
unfolding on_key_down webbuilder.Base.trim handle_send_message
sent = refl

can_send : button true typing ≡ send false
unfolding button webbuilder.Base.trim
can_send = refl

on_key_down-press_example :
    (on_key_down true "Enter" false false typing ≡ (
      if true && "Enter" == "Enter" && not (false || false)
      then handle_send_message typing
      else typing))
    × (press (button true typing) typing ≡ (
        if typing.chat.is_building
        then handle_cancel typing
        else if true
        then handle_send_message typing
        else typing))
on_key_down-press_example = on_key_down-press true "Enter" false false typing
