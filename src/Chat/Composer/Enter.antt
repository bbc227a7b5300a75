-- ===== src/Chat/Composer/Enter.antt =====
-- What the keys and the button of the form do.
use webbuilder.Base.{
  String, Bool, true, false, not, ◌&&◌, ◌||◌, ◌≡◌, refl, sym, if◌then◌else◌, is_empty, trim, truthy,
  ◌==◌, inl, inr, Bool-cases,
}
use webbuilder.Chat.Workspace.{Workspace, handle_send_message, handle_cancel}
use webbuilder.Chat.Composer.{on_key_down, button, press, stop, send}

-- A guard that tests what the function tests again changes nothing.
guard_twice :
    {A : Type 0} (building blank : Bool) (sent kept : A)
    → (if not building && not blank then if blank || building then kept else sent else kept)
      ≡ (if blank || building then kept else sent)
guard_twice true true sent kept = refl
guard_twice true false sent kept = refl
guard_twice false true sent kept = refl
guard_twice false false sent kept = refl

guarded :
    (w : Workspace)
    → (if not w.chat.is_building && not (is_empty (trim w.input)) then handle_send_message w else w)
      ≡ handle_send_message w
unfolding handle_send_message
guarded w = guard_twice w.chat.is_building (is_empty (trim w.input)) _ w

blank-handle_send_message :
    (w : Workspace) → is_empty (trim w.input) ≡ true → handle_send_message w ≡ w
unfolding handle_send_message
blank-handle_send_message w h = rw h refl

idle-handle_cancel : (w : Workspace) → truthy w.chat.run_id ≡ false → handle_cancel w ≡ w
unfolding handle_cancel
idle-handle_cancel w h = rw h refl

keys :
    (connected enter shift composing : Bool) (w : Workspace)
    → (if enter && not shift && not composing
        then if connected && not w.chat.is_building && not (is_empty (trim w.input))
          then handle_send_message w
          else w
        else w)
      ≡ (if connected && enter && not (shift || composing) then handle_send_message w else w)
keys true false shift composing w = refl
keys false false shift composing w = refl
keys true true true composing w = refl
keys false true true composing w = refl
keys true true false true w = refl
keys false true false true w = refl
keys true true false false w = guarded w
keys false true false false w = refl

stopped : (w : Workspace) → press (stop (not (truthy w.chat.run_id))) w ≡ handle_cancel w
stopped w = elim (Bool-cases (truthy w.chat.run_id)) [
  | inl r ↦ rw r refl
  | inr r ↦ rw r (sym (idle-handle_cancel w r))
]

sends :
    (connected : Bool) (w : Workspace)
    → press (send (not connected || is_empty (trim w.input))) w
      ≡ (if connected then handle_send_message w else w)
sends false w = refl
sends true w = elim (Bool-cases (is_empty (trim w.input))) [
  | inl b ↦ rw b (sym (blank-handle_send_message w b))
  | inr b ↦ rw b refl
]

pressed :
    (building connected : Bool) (w : Workspace)
    → press
        (if building
          then stop (not (truthy w.chat.run_id))
          else send (not connected || is_empty (trim w.input)))
        w
      ≡ (if building then handle_cancel w else if connected then handle_send_message w else w)
pressed true connected w = stopped w
pressed false connected w = sends connected w

-- While the chat is connected, Enter does exactly what `handleSendMessage` does, and with Shift, in
-- a composition or without a connection nothing, as any other key. The button does exactly what
-- `handleCancel` does while a run builds, and otherwise what `handleSendMessage` does, or nothing
-- without a connection: their own guards only refuse what the handlers refuse as well.
pub on_key_down-press :
    (connected : Bool) (key : String) (shift composing : Bool) (w : Workspace)
    → (on_key_down connected key shift composing w ≡ (
        if connected && key == "Enter" && not (shift || composing)
        then handle_send_message w
        else w))
      × (press (button connected w) w ≡ (
          if w.chat.is_building
          then handle_cancel w
          else if connected
          then handle_send_message w
          else w))
unfolding on_key_down button
on_key_down-press connected key shift composing w =
    (keys connected (key == "Enter") shift composing w, pressed w.chat.is_building connected w)
