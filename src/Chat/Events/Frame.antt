-- ===== src/Chat/Events/Frame.antt =====
-- What an event leaves alone: the messages of other runs, and the uniqueness of ids.
use webbuilder.Base.{
  ◌≡◌, ◌≢◌, refl, sym, ◌∙◌, subst, String, not, Option, none, some, List, [], ◌∷◌, ◌++◌, find,
  arith, eq_iff, Bool-cases, inl, inr, All, filter, filter-append, append-nil,
}
use webbuilder.Chat.Types.{Message, RunEvent}
use webbuilder.Chat.Events.{has_id, run_message_id, updated, store, replace, apply_run_event}
use webbuilder.Chat.Events.Replay.{id-updated, OwnId-find}

-- the messages that are not of the run
abbrev pub others : String → List Message → List Message
others id = filter (λ m. not (has_id id m))

others-replace :
    (id : String) (m : Message) (ms : List Message)
    → m.id ≡ id
    → others id (replace id m ms) ≡ others id ms
unfolding replace
others-replace id m [] e = refl
others-replace id m (x ∷ ms) e =
    ground (arith, eq_iff m.id id, eq_iff x.id id, others-replace id m ms e)

others-store :
    (id : String) (existing : Option Message) (m : Message) (ms : List Message)
    → m.id ≡ id
    → others id (store id existing m ms) ≡ others id ms
unfolding store
others-store id none m ms e =
    filter-append _ ms (m ∷ []) ∙ ground (arith, eq_iff m.id id, append-nil (others id ms))
others-store id (some old) m ms e = others-replace id m ms e

-- An event changes no message but its run's: the others stand unchanged and in their order.
pub others-apply_run_event :
    (messages : List Message) (event : RunEvent)
    → let id = run_message_id event.run_id in
      others id (apply_run_event messages event) ≡ others id messages
unfolding apply_run_event
others-apply_run_event messages event =
    let id = run_message_id event.run_id in
    let existing = find (has_id id) messages in
    let own = id-updated event existing (OwnId-find event messages) in
    ground (arith, others-store id existing (updated event existing) messages own)

-- No two messages have one id.
abbrev pub DistinctIds : List Message → Type 0
DistinctIds [] = Unit
DistinctIds (m ∷ ms) = All (λ (n : Message). n.id ≢ m.id) ms × DistinctIds ms

All-id-replace :
    (id : String) (m : Message) (ms : List Message) (k : String)
    → m.id ≡ id
    → All (λ (n : Message). n.id ≢ k) ms
    → All (λ (n : Message). n.id ≢ k) (replace id m ms)
unfolding replace
All-id-replace id m [] k e h = tt
All-id-replace id m (x ∷ ms) k e (h, hs) =
    (ground (arith, eq_iff x.id id), All-id-replace id m ms k e hs)

DistinctIds-replace :
    (id : String) (m : Message) (ms : List Message)
    → m.id ≡ id
    → DistinctIds ms
    → DistinctIds (replace id m ms)
unfolding replace
DistinctIds-replace id m [] e d = tt
DistinctIds-replace id m (x ∷ ms) e (h, d) = elim (Bool-cases (has_id id x)) [
  | inl own ↦ rw own (
    subst (λ k. All (λ (n : Message). n.id ≢ k) (replace id m ms)) ((eq_iff x.id id).0 own ∙ sym e)
        (All-id-replace id m ms x.id e h),
    DistinctIds-replace id m ms e d,
  )
  | inr other ↦ rw other (All-id-replace id m ms x.id e h, DistinctIds-replace id m ms e d)
]

All-id-append :
    (ms : List Message) (m : Message) (k : String)
    → m.id ≢ k
    → All (λ (n : Message). n.id ≢ k) ms
    → All (λ (n : Message). n.id ≢ k) (ms ++ m ∷ [])
All-id-append [] m k ne h = (ne, tt)
All-id-append (x ∷ ms) m k ne (h, hs) = (h, All-id-append ms m k ne hs)

DistinctIds-append :
    (ms : List Message) (m : Message)
    → find (has_id m.id) ms ≡ none
    → DistinctIds ms
    → DistinctIds (ms ++ m ∷ [])
DistinctIds-append [] m h d = (tt, tt)
DistinctIds-append (x ∷ ms) m h (hx, d) = (
  All-id-append ms m x.id (ground (arith, eq_iff x.id m.id)) hx,
  DistinctIds-append ms m (ground arith) d,
)

DistinctIds-store :
    (id : String) (existing : Option Message) (m : Message) (ms : List Message)
    → m.id ≡ id
    → find (has_id id) ms ≡ existing
    → DistinctIds ms
    → DistinctIds (store id existing m ms)
unfolding store
DistinctIds-store id none m ms e f d = DistinctIds-append ms m (rw e f) d
DistinctIds-store id (some old) m ms e f d = DistinctIds-replace id m ms e d

-- An event never gives two messages one id, if no two had one before.
pub apply_run_event-DistinctIds :
    (messages : List Message) (event : RunEvent)
    → DistinctIds messages
    → DistinctIds (apply_run_event messages event)
unfolding apply_run_event
apply_run_event-DistinctIds messages event d =
    let id = run_message_id event.run_id in
    let existing = find (has_id id) messages in
    let own = id-updated event existing (OwnId-find event messages) in
    ground (arith, DistinctIds-store id existing (updated event existing) messages own refl d)
