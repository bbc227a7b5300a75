-- ===== src/Chat/Landing/Tests.antt =====
-- A brief that is submitted twice.
use webbuilder.Base.{◌≡◌, refl, false, none, some, trim, utf16_length, arith}
use webbuilder.Chat.Landing.{Hero, change, submit}
use webbuilder.Chat.Landing.Opening.{open_page, input-submit}
use webbuilder.Chat.NewProject.SignedIn.{come_back}
use webbuilder.Samples.{signed_in, signed_out, account, takes_all, takes_none, stringify}

abbrev typed : Hero
typed = record {
  prompt = " a shop ";
  error = "";
  opening = false;
  draft = none;
  starter = some "habits";
  route = none;
}

refused_draft : (submit takes_none typed).route ≡ none
unfolding submit trim
refused_draft = refl

kept_text : (change "a blog" (submit takes_all typed)).prompt ≡ " a shop "
unfolding change submit trim
kept_text = refl

input-submit_example :
    (come_back takes_all takes_all stringify none signed_in account
      (open_page signed_out (submit takes_all typed))).input
    ≡ trim typed.prompt
unfolding trim utf16_length
input-submit_example =
    input-submit takes_all takes_all stringify typed signed_out signed_in account refl refl refl
      (omega arith) refl refl refl
