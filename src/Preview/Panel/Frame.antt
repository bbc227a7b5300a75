-- ===== src/Preview/Panel/Frame.antt =====
-- When the frame is there.
use webbuilder.Base.{
  Bool, true, false, not, ◌&&◌, ◌||◌, All, ◌≡◌, sym, ◌∙◌, List, [], ◌∷◌, truthy, arith, if_keeps,
}
use webbuilder.Preview.Lifecycle.{PreviewPhase}
use webbuilder.Preview.Panel.{
  Props, Panel, is_active, is_preview, preview_ready, settle, render, on_timeout, Event, rendered,
  timed_out, step, run, has_frame,
}

-- The preview is retained only while it is ready, and it is where its tab is open.
pub record IsRetained (panel : Panel) : Type 0 where
  pub only_ready : panel.retain_preview ≡ true → preview_ready panel.props ≡ true
  pub if_open :
      preview_ready panel.props ≡ true
      → is_preview panel.props.active_tab ≡ true
      → panel.retain_preview ≡ true

render-IsRetained : (props : Props) (panel : Panel) → IsRetained (render props panel)
unfolding render settle
render-IsRetained props panel = record {
  only_ready = λ e. ground arith;
  if_open = λ r o. ground arith;
}

step-IsRetained : (event : Event) (panel : Panel) → IsRetained panel → IsRetained (step event panel)
unfolding step on_timeout
step-IsRetained (rendered props) panel h = render-IsRetained props panel
step-IsRetained timed_out panel h =
    if_keeps IsRetained (not (preview_ready panel.props) || is_preview panel.props.active_tab) h
      (render-IsRetained panel.props (record panel { retain_preview = false }))

run-IsRetained :
    (events : List Event) (panel : Panel) → IsRetained panel → IsRetained (run events panel)
unfolding run
run-IsRetained [] panel h = h
run-IsRetained (event ∷ events) panel h =
    run-IsRetained events (step event panel) (step-IsRetained event panel h)

frame_of :
    (visible url builds shown retain : Bool) (phase : PreviewPhase)
    → (retain ≡ true → visible && url && is_active phase && not builds ≡ true)
    → (visible && url && is_active phase && not builds ≡ true → shown ≡ true → retain ≡ true)
    → (visible && (shown || retain))
        && url
        && is_active phase
        && not (builds || (elim phase [ PreviewPhase.building ↦ true | _ ↦ false ]))
      ≡ retain
frame_of visible url builds shown retain PreviewPhase.active h k = ground (arith, h, k)
frame_of visible url builds shown retain PreviewPhase.sleeping h k = ground (arith, h, k)
frame_of visible url builds shown retain PreviewPhase.opening h k = ground (arith, h, k)
frame_of visible url builds shown retain PreviewPhase.building h k = ground (arith, h, k)
frame_of visible url builds shown retain PreviewPhase.checking h k = ground (arith, h, k)
frame_of visible url builds shown retain PreviewPhase.error h k = ground (arith, h, k)

has_frame-IsRetained : (panel : Panel) → IsRetained panel → has_frame panel ≡ panel.retain_preview
unfolding has_frame preview_ready
has_frame-IsRetained panel h =
    let p = panel.props in
    frame_of p.visible (truthy p.app_url) p.is_building (is_preview p.active_tab)
      panel.retain_preview p.phase h.only_ready h.if_open

run-after :
    (props : Props) (events : List Event) (panel : Panel)
    → IsRetained (run (rendered props ∷ events) panel)
unfolding run step
run-after props events panel =
    run-IsRetained events (render props panel) (render-IsRetained props panel)

-- a render in which the preview is ready
abbrev pub IsReady : Event → Type 0
IsReady (rendered props) = preview_ready props ≡ true
IsReady timed_out = ⊥

-- The preview is no longer ready, or the minute is over while another tab is open.
abbrev pub IsEnd : Panel → Event → Type 0
IsEnd panel (rendered props) = preview_ready props ≡ false
IsEnd panel timed_out = is_preview panel.props.active_tab ≡ false

-- the timer, or a render in which another tab is open
abbrev pub IsElsewhere : Event → Type 0
IsElsewhere (rendered props) = is_preview props.active_tab ≡ false
IsElsewhere timed_out = Unit

retain-IsReady :
    (events : List Event) (panel : Panel)
    → All IsReady events
    → panel.retain_preview ≡ true
    → (run events panel).retain_preview ≡ true
unfolding run step render settle
retain-IsReady [] panel a h = h
retain-IsReady (rendered props ∷ events) panel (r, a) h =
    retain-IsReady events _ a (ground (arith, h, r))
retain-IsReady (timed_out ∷ events) panel (r, a) h = absurd r

retain-IsEnd :
    (event : Event) (panel : Panel)
    → IsRetained panel
    → IsEnd panel event
    → (step event panel).retain_preview ≡ false
unfolding step render settle on_timeout
retain-IsEnd (rendered props) panel k e = ground (arith, e)
retain-IsEnd timed_out panel k e = ground (arith, e, k.only_ready)

retain-IsElsewhere :
    (events : List Event) (panel : Panel)
    → All IsElsewhere events
    → panel.retain_preview ≡ false
    → (run events panel).retain_preview ≡ false
unfolding run step render settle on_timeout
retain-IsElsewhere [] panel a h = h
retain-IsElsewhere (rendered props ∷ events) panel (r, a) h =
    retain-IsElsewhere events _ a (ground (arith, h, r))
retain-IsElsewhere (timed_out ∷ events) panel (r, a) h =
    retain-IsElsewhere events _ a (ground (arith, h))

-- After a first render and whatever follows it, a frame that is there stays while every render has the
-- preview ready, whatever tab is open. When a render has it ready no longer, or the timer fires
-- while another tab is open, the frame goes, and it stays away until the preview's tab is open.
pub has_frame-run :
    (props : Props) (before kept : List Event) (ending : Event) (elsewhere : List Event)
    (panel : Panel)
    → let shown = run (rendered props ∷ before) panel in
      has_frame shown ≡ true
      → All IsReady kept
      → IsEnd (run kept shown) ending
      → All IsElsewhere elsewhere
      → (has_frame (run kept shown) ≡ true)
        × (has_frame (run (ending ∷ elsewhere) (run kept shown)) ≡ false)
unfolding run
has_frame-run props before kept ending elsewhere panel f r e l =
    let shown = run-after props before panel in
    let held = run-IsRetained kept _ shown in
    let gone = step-IsRetained ending _ held in
    (
      has_frame-IsRetained _ held
          ∙ retain-IsReady kept _ r (sym (has_frame-IsRetained _ shown) ∙ f),
      has_frame-IsRetained _ (run-IsRetained elsewhere _ gone)
          ∙ retain-IsElsewhere elsewhere _ l (retain-IsEnd ending _ held e),
    )
