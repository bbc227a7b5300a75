-- ===== src/Preview/Panel.antt =====
-- frontend/components/chat/PreviewPanel.tsx: when the preview's frame is there, and what stands in
-- its place. A render settles `retainPreview` before the children; the timer of a minute runs
-- while another tab than the preview is open.
pub mod Frame
mod Tests
use webbuilder.Base.{
  String, Bool, true, false, not, ◌&&◌, ◌||◌, Option, some, none, List, [], ◌∷◌, if◌then◌else◌,
  truthy,
}
use webbuilder.Preview.Lifecycle.{PreviewPhase}
use webbuilder.Chat.Layout.{PreviewTab, preview, files}

pub record Props : Type 0 where
  pub app_url : Option String
  pub revision_id : Option String
  pub is_building : Bool
  pub active_tab : PreviewTab
  pub visible : Bool
  pub phase : PreviewPhase
  pub preview_error : Option String

pub record Panel : Type 0 where
  pub props : Props
  pub retain_preview : Bool

abbrev pub is_active : PreviewPhase → Bool
is_active PreviewPhase.active = true
is_active _ = false

abbrev pub is_preview : PreviewTab → Bool
is_preview preview = true
is_preview files = false

unfoldable pub preview_ready : Props → Bool
preview_ready p = p.visible && truthy p.app_url && is_active p.phase && not p.is_building

-- `retainPreview` after a render
unfoldable pub settle : Props → Bool → Bool
settle p retain =
    if retain && not (preview_ready p)
    then false
    else if not retain && preview_ready p && is_preview p.active_tab
    then true
    else retain

unfoldable pub render : Props → Panel → Panel
render props panel = record panel {
  props = props;
  retain_preview = settle props panel.retain_preview;
}

-- the timeout of the effect, which is set while this holds
unfoldable pub on_timeout : Panel → Panel
on_timeout panel =
    if not (preview_ready panel.props) || is_preview panel.props.active_tab
    then panel
    else render panel.props (record panel { retain_preview = false })

pub data Event : Type 0 where
  rendered : Props → Event
  timed_out : Event

unfoldable pub step : Event → Panel → Panel
step (rendered props) panel = render props panel
step timed_out panel = on_timeout panel

unfoldable pub run : List Event → Panel → Panel
run [] panel = panel
run (event ∷ events) panel = run events (step event panel)

abbrev pub building : Props → Bool
building p = p.is_building || (elim (p.phase) [ PreviewPhase.building ↦ true | _ ↦ false ])

abbrev pub preparing : Props → Bool
preparing p =
    truthy p.revision_id
    && (elim (p.phase) [ PreviewPhase.checking ↦ true | PreviewPhase.opening ↦ true | _ ↦ false ])

unfoldable pub empty_title : Props → String
empty_title p =
    if building p
    then "Your app is building."
    else if preparing p
    then "Preparing your preview…"
    else if truthy p.preview_error
    then "Preview unavailable."
    else if truthy p.revision_id
    then "Your preview is sleeping."
    else "Your canvas is ready."

unfoldable pub empty_description : Props → String
empty_description p =
    if building p
    then "Follow the existing build in your conversation."
    else if preparing p
    then "Your saved project will appear here shortly."
    else if truthy p.revision_id
    then "Your saved files are available in Files."
    else "The app preview will appear when your build makes it available."

-- the stage is mounted, and in it the frame
unfoldable pub has_frame : Panel → Bool
has_frame panel =
    let p = panel.props in
    (p.visible && (is_preview p.active_tab || panel.retain_preview))
    && truthy p.app_url
    && is_active p.phase
    && not (building p)
