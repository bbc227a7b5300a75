-- ===== src/Chat/Consolidate/Spec.antt =====
-- The same without an accumulator: what each message emits, and the group that it leaves open.
use webbuilder.Base.{
  ◌≡◌, refl, sym, ◌∙◌, Bool, true, false, Option, none, some, List, [], ◌∷◌, ◌++◌, arith,
  append_assoc, append-nil, Bool-cases, inl, inr,
}
use webbuilder.Chat.Types.{Role, Message}
use webbuilder.Chat.Consolidate.{
  Cards, is_wrapper, is_grouped, close_group, merge, start_group, consolidate_one, consolidate_from,
  consolidate_messages,
}

abbrev pub closed : Option Message → List Message
closed none = []
closed (some g) = g ∷ []

abbrev pub extended : Option Message → Message → Message
extended none m = start_group m
extended (some g) m = merge g m

-- whether a message joins the open group
unfoldable pub joins : Message → Bool
joins m = elim m.role [ Role.user ↦ false | Role.assistant ↦ is_grouped m ]

-- whether a message is dropped
unfoldable pub dropped : Message → Bool
dropped m = elim m.role [ Role.user ↦ false | Role.assistant ↦ is_wrapper m ]

unfoldable pub cards : Option Message → List Message → List Message
cards g [] = closed g
cards g (m ∷ ms) = elim (dropped m) [
  | true ↦ cards g ms
  | false ↦ elim (joins m) [
    | true ↦ cards (some (extended g m)) ms
    | false ↦ closed g ++ m ∷ cards none ms
  ]
]

module _ (g : Option Message) (m : Message) (ms : List Message) where
  pub cards-dropped : dropped m ≡ true → cards g (m ∷ ms) ≡ cards g ms
  unfolding cards
  cards-dropped d = rw (d, cards)

  pub cards-joins :
      dropped m ≡ false → joins m ≡ true → cards g (m ∷ ms) ≡ cards (some (extended g m)) ms
  unfolding cards
  cards-joins d j = rw (d, j, cards)

  pub cards_apart :
      dropped m ≡ false → joins m ≡ false → cards g (m ∷ ms) ≡ closed g ++ m ∷ cards none ms
  unfolding cards
  cards_apart d j = rw (d, j, cards)

abbrev state : List Message → Option Message → Cards
state out g = record { consolidated = out; group = g }

-- One round of the loop, by what becomes of the message.
consolidate_one-state :
    (out : List Message) (g : Option Message) (m : Message)
    → consolidate_one (state out g) m ≡ elim (dropped m) [
      | true ↦ state out g
      | false ↦ elim (joins m) [
        | true ↦ state out (some (extended g m))
        | false ↦ state ((out ++ closed g) ++ m ∷ []) none
      ]
    ]
unfolding consolidate_one dropped joins close_group
consolidate_one-state out none m = ground (arith, append-nil out)
consolidate_one-state out (some g) m = ground arith

consolidate_from-eq-cards :
    (out : List Message) (g : Option Message) (ms : List Message)
    → (close_group (consolidate_from (state out g) ms)).consolidated ≡ out ++ cards g ms
unfolding consolidate_from close_group cards
consolidate_from-eq-cards out none [] = sym (append-nil out)
consolidate_from-eq-cards out (some g) [] = refl
consolidate_from-eq-cards out g (m ∷ ms) = elim (Bool-cases (dropped m)) [
  | inl d ↦
      rw (consolidate_one-state, d, cards-dropped g m ms d) (consolidate_from-eq-cards out g ms)
  | inr d ↦ elim (Bool-cases (joins m)) [
    | inl j ↦
        rw (consolidate_one-state, d, j, cards-joins g m ms d j)
          (consolidate_from-eq-cards out (some (extended g m)) ms)
    | inr j ↦
        rw (consolidate_one-state, d, j, cards_apart g m ms d j)
          (consolidate_from-eq-cards ((out ++ closed g) ++ m ∷ []) none ms ∙ simp append_assoc)
  ]
]

pub consolidate_messages-eq-cards : (ms : List Message) → consolidate_messages ms ≡ cards none ms
unfolding consolidate_messages
consolidate_messages-eq-cards ms = consolidate_from-eq-cards [] none ms
