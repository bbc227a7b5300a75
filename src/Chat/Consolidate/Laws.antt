-- ===== src/Chat/Consolidate/Laws.antt =====
-- What consolidation keeps: the user's messages, the tool calls, and its own results.
use webbuilder.Base.{
  ◌≡◌, refl, sym, ap, ◌∙◌, Bool, true, false, not, Option, none, some, List, [], ◌∷◌, ◌++◌, arith,
  append_assoc, append-nil, or_else, Bool-cases, inl, inr, filter,
}
use webbuilder.Chat.Types.{Role, Message, ToolCall}
use webbuilder.Chat.Consolidate.{
  is_wrapper, is_grouped, merge, start_group, append_calls, consolidate_messages,
}
use webbuilder.Chat.Consolidate.Spec.{
  closed, extended, joins, dropped, cards, cards-dropped, cards-joins, cards_apart,
  consolidate_messages-eq-cards,
}

-- An open group comes from assistant messages and bears the type `thinking`.
pub record IsGroup (g : Message) : Type 0 where
  pub by_assistant : g.role ≡ Role.assistant
  pub normalized : g.event_type ≡ some "thinking"

abbrev IsGroup? : Option Message → Type 0
IsGroup? none = Unit
IsGroup? (some g) = IsGroup g

extended-IsGroup :
    (g : Option Message) (m : Message) → IsGroup? g → joins m ≡ true → IsGroup (extended g m)
unfolding joins start_group merge
extended-IsGroup none m h j = ground arith
extended-IsGroup (some g) m h j = ground arith

abbrev pub is_user : Message → Bool
is_user m = elim m.role [ Role.user ↦ true | Role.assistant ↦ false ]

dropped_of_is_user : (m : Message) → is_user m ≡ true → (dropped m ≡ false) × (joins m ≡ false)
unfolding dropped joins
dropped_of_is_user m h = ground arith

users-closed :
    (g : Option Message) (ms : List Message)
    → IsGroup? g
    → filter is_user (closed g ++ ms) ≡ filter is_user ms
users-closed none ms h = refl
users-closed (some g) ms h = ground arith

users-cards :
    (g : Option Message) (ms : List Message)
    → IsGroup? g
    → filter is_user (cards g ms) ≡ filter is_user ms
unfolding cards
users-cards none [] h = refl
users-cards (some g) [] h = ground arith
users-cards g (m ∷ ms) h = elim (Bool-cases (dropped m)) [
  | inl d ↦ rw (cards-dropped g m ms d) (ground (arith, dropped_of_is_user m, users-cards g ms h))
  | inr d ↦ elim (Bool-cases (joins m)) [
    | inl j ↦ rw (cards-joins g m ms d j) (
        ground (
          arith,
          dropped_of_is_user m,
          users-cards (some (extended g m)) ms (extended-IsGroup g m h j),
        ))
    | inr j ↦
        rw (cards_apart g m ms d j, users-closed g (m ∷ cards none ms) h, users-cards none ms tt)
          refl
  ]
]

-- The user's messages stand unchanged and in their order.
pub users-consolidate_messages :
    (ms : List Message) → filter is_user (consolidate_messages ms) ≡ filter is_user ms
users-consolidate_messages ms = rw consolidate_messages-eq-cards (users-cards none ms tt)

abbrev pub all_calls : List Message → List ToolCall
all_calls [] = []
all_calls (m ∷ ms) = or_else m.tool_calls [] ++ all_calls ms

append_calls_lem :
    (a b : Option (List ToolCall)) → or_else (append_calls a b) [] ≡ or_else a [] ++ or_else b []
append_calls_lem a none = sym (append-nil _)
append_calls_lem a (some []) = sym (append-nil _)
append_calls_lem a (some (c ∷ cs)) = refl

all_calls-append : (xs ys : List Message) → all_calls (xs ++ ys) ≡ all_calls xs ++ all_calls ys
all_calls-append [] ys = refl
all_calls-append (x ∷ xs) ys = simp (all_calls-append xs ys, append_assoc)

calls-extended :
    (g : Option Message) (m : Message) (rest : List ToolCall)
    → all_calls (extended g m ∷ []) ++ rest
      ≡ all_calls (closed g) ++ (or_else m.tool_calls [] ++ rest)
unfolding start_group merge
calls-extended none m rest = simp append-nil
calls-extended (some g) m rest = simp (append_calls_lem, append-nil, append_assoc)

calls-cards :
    (g : Option Message) (ms : List Message)
    → all_calls (cards g ms) ≡ all_calls (closed g) ++ all_calls (filter (λ m. not (dropped m)) ms)
unfolding cards
calls-cards none [] = refl
calls-cards (some g) [] = sym (append-nil _)
calls-cards g (m ∷ ms) = elim (Bool-cases (dropped m)) [
  | inl d ↦ rw (cards-dropped g m ms d, d) (calls-cards g ms)
  | inr d ↦ elim (Bool-cases (joins m)) [
    | inl j ↦
        rw (cards-joins g m ms d j, d) (calls-cards (some (extended g m)) ms ∙ calls-extended g m _)
    | inr j ↦
        rw (cards_apart g m ms d j, d)
          (all_calls-append (closed g) (m ∷ cards none ms) ∙ simp (calls-cards none ms))
  ]
]

-- A group stands as it is when it is consolidated again.
group_again :
    (g : Message) → IsGroup g → (dropped g ≡ false) × (joins g ≡ true) × (start_group g ≡ g)
unfolding dropped joins start_group is_wrapper is_grouped
group_again g h = (ground arith, ground arith, λ i. record g { event_type = sym h.normalized i })

-- The tool calls of all messages but the dropped wrapper events stand in the cards, in order.
pub calls-consolidate_messages :
    (ms : List Message)
    → all_calls (consolidate_messages ms) ≡ all_calls (filter (λ m. not (dropped m)) ms)
calls-consolidate_messages ms = rw consolidate_messages-eq-cards (calls-cards none ms)

reopen : (g : Message) (ms : List Message) → IsGroup g → cards none (g ∷ ms) ≡ cards (some g) ms
reopen g ms h =
    let (kept, joined, same) = group_again g h in
    cards-joins none g ms kept joined ∙ ap (λ x. cards (some x) ms) same

closed_again :
    (g : Option Message) (ms : List Message) → IsGroup? g → cards none (closed g ++ ms) ≡ cards g ms
closed_again none ms h = refl
closed_again (some g) ms h = reopen g ms h

cards-cards :
    (g : Option Message) (ms : List Message) → IsGroup? g → cards none (cards g ms) ≡ cards g ms
unfolding cards
cards-cards none [] h = refl
cards-cards (some g) [] h = reopen g [] h
cards-cards g (m ∷ ms) h = elim (Bool-cases (dropped m)) [
  | inl d ↦ rw (cards-dropped g m ms d) (cards-cards g ms h)
  | inr d ↦ elim (Bool-cases (joins m)) [
    | inl j ↦
        rw (cards-joins g m ms d j)
          (cards-cards (some (extended g m)) ms (extended-IsGroup g m h j))
    | inr j ↦ rw (cards_apart g m ms d j) (
        closed_again g (m ∷ cards none ms) h
        ∙ cards_apart g m (cards none ms) d j
        ∙ ap (λ x. closed g ++ m ∷ x) (cards-cards none ms tt))
  ]
]

-- Consolidating a consolidated history changes nothing.
pub consolidate_messages_idempotent :
    (ms : List Message) → consolidate_messages (consolidate_messages ms) ≡ consolidate_messages ms
consolidate_messages_idempotent ms = simp consolidate_messages-eq-cards (cards-cards none ms tt)
