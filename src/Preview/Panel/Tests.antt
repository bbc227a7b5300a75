-- ===== src/Preview/Panel/Tests.antt =====
-- A visit to the files that lasts more than a minute.
use webbuilder.Base.{◌≡◌, refl, true, false, none, some, [], ◌∷◌}
use webbuilder.Preview.Lifecycle.{PreviewPhase}
use webbuilder.Chat.Layout.{preview, files}
use webbuilder.Preview.Panel.{
  Props, Panel, Event, rendered, timed_out, run, has_frame, preview_ready, is_preview, empty_title,
}
use webbuilder.Preview.Panel.Frame.{has_frame-run}

abbrev open_preview : Props
open_preview = record {
  app_url = some "https://a.b";
  revision_id = some "v1";
  is_building = false;
  active_tab = preview;
  visible = true;
  phase = PreviewPhase.active;
  preview_error = none;
}

abbrev mounted : Panel
mounted = record { props = open_preview; retain_preview = false }

short_visit :
    has_frame (
      run
        (rendered open_preview ∷ rendered (record open_preview { active_tab = files }) ∷ [])
        mounted)
    ≡ true
unfolding has_frame run webbuilder.Preview.Panel.step webbuilder.Preview.Panel.render
    webbuilder.Preview.Panel.settle preview_ready
short_visit = refl

long_visit :
    has_frame (
      run
        (rendered open_preview
          ∷ rendered (record open_preview { active_tab = files })
          ∷ timed_out
          ∷ [])
        mounted)
    ≡ false
unfolding has_frame run webbuilder.Preview.Panel.step webbuilder.Preview.Panel.render
    webbuilder.Preview.Panel.settle preview_ready webbuilder.Preview.Panel.on_timeout
long_visit = refl

sleeping_title :
    empty_title (record open_preview { phase = PreviewPhase.sleeping })
    ≡ "Your preview is sleeping."
unfolding empty_title
sleeping_title = refl

abbrev at_files : Props
at_files = record open_preview { active_tab = files }

abbrev first_view : Panel
first_view = run (rendered open_preview ∷ []) mounted

has_frame-run_example :
    (has_frame (run (rendered at_files ∷ []) first_view) ≡ true)
    × (has_frame
          (run (timed_out ∷ rendered at_files ∷ []) (run (rendered at_files ∷ []) first_view))
        ≡ false)
unfolding has_frame run webbuilder.Preview.Panel.step webbuilder.Preview.Panel.render
    webbuilder.Preview.Panel.settle preview_ready
has_frame-run_example =
    has_frame-run open_preview [] (rendered at_files ∷ []) timed_out (rendered at_files ∷ [])
      mounted refl (refl, tt) refl (refl, tt)
