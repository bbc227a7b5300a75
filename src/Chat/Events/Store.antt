-- ===== src/Chat/Events/Store.antt =====
-- Finding and storing the message of a run among the messages of the chat.
use webbuilder.Base.{
  ◌≡◌, refl, String, Option, none, some, List, [], ◌∷◌, ◌++◌, find, arith, eq_iff,
}
use webbuilder.Chat.Types.{Message}
use webbuilder.Chat.Events.{has_id, replace, store}

pub find-has_id :
    (id : String) (ms : List Message) {m : Message} → find (has_id id) ms ≡ some m → m.id ≡ id
find-has_id id [] h = cc
find-has_id id (x ∷ ms) {m} h = ground (arith, eq_iff x.id id, find-has_id id ms {m = m})

pub find-replace :
    (id : String) (m old : Message) (ms : List Message)
    → m.id ≡ id
    → find (has_id id) ms ≡ some old
    → find (has_id id) (replace id m ms) ≡ some m
unfolding replace
find-replace id m old [] e h = cc
find-replace id m old (x ∷ ms) e h = ground (arith, eq_iff m.id id, find-replace id m old ms)

pub replace_idempotent :
    (id : String) (m : Message) (ms : List Message)
    → m.id ≡ id
    → replace id m (replace id m ms) ≡ replace id m ms
unfolding replace
replace_idempotent id m [] e = refl
replace_idempotent id m (x ∷ ms) e =
    ground (arith, eq_iff m.id id, eq_iff x.id id, replace_idempotent id m ms e)

pub find-append_self :
    (id : String) (m : Message) (ms : List Message)
    → m.id ≡ id
    → find (has_id id) ms ≡ none
    → find (has_id id) (ms ++ m ∷ []) ≡ some m
find-append_self id m [] e h = ground (arith, eq_iff m.id id)
find-append_self id m (x ∷ ms) e h = ground (arith, find-append_self id m ms e)

pub replace-append_self :
    (id : String) (m : Message) (ms : List Message)
    → m.id ≡ id
    → find (has_id id) ms ≡ none
    → replace id m (ms ++ m ∷ []) ≡ ms ++ m ∷ []
unfolding replace
replace-append_self id m [] e h = ground (arith, eq_iff m.id id)
replace-append_self id m (x ∷ ms) e h = ground (arith, replace-append_self id m ms e)

module _ (id : String) (m : Message) (ms : List Message) (own : m.id ≡ id) where
  -- What was stored is what is found.
  pub find-store :
      (existing : Option Message)
      → find (has_id id) ms ≡ existing
      → find (has_id id) (store id existing m ms) ≡ some m
  unfolding store
  find-store none h = find-append_self id m ms own h
  find-store (some old) h = find-replace id m old ms own h

  -- Storing the message again changes nothing.
  pub store-store :
      (existing : Option Message)
      → find (has_id id) ms ≡ existing
      → store id (some m) m (store id existing m ms) ≡ store id existing m ms
  unfolding store
  store-store none h = replace-append_self id m ms own h
  store-store (some old) h = replace_idempotent id m ms own
