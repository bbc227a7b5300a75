-- ===== src/Chat/Events/Calls.antt =====
-- The list of tool calls of a run's message under `applyRunEvent`.
use webbuilder.Base.{
  ℕ, zero, suc, ◌≡◌, refl, ap, Bool, true, Option, none, some, List, [], ◌∷◌, ◌++◌, map, find_index,
  set, any, is_some, arith, String, eq_refl, Option-cases, inl, inr,
}
use webbuilder.Chat.Types.{ToolCall, ActivityItem, RunEvent}
use webbuilder.Chat.Events.{
  put_call, has_call_id, settle, is_activity, seen_in, activity_id, item_of,
}

module _ {ℓ} {A : Type ℓ} (p : A → Bool) where
  pub find_index-append_self :
      (xs : List A) (v : A) → p v ≡ true → is_some (find_index p (xs ++ v ∷ [])) ≡ true
  find_index-append_self [] v h = rw h
  find_index-append_self (x ∷ xs) v h = ground (arith, find_index-append_self xs v h)

  pub set-find_index-append :
      (xs : List A) (v : A)
      → p v ≡ true
      → find_index p xs ≡ none
      → (i : ℕ) × (find_index p (xs ++ v ∷ []) ≡ some i) × (set (xs ++ v ∷ []) i v ≡ xs ++ v ∷ [])
  set-find_index-append [] v h n = (0, rw h, refl)
  set-find_index-append (x ∷ xs) v h n =
      let (i, e, s) = set-find_index-append xs v h (ground arith) in
      (suc i, ground arith, ap (◌∷◌ x) s)

  pub find_index-set :
      (xs : List A) (i : ℕ) (v : A)
      → p v ≡ true
      → find_index p xs ≡ some i
      → find_index p (set xs i v) ≡ some i
  find_index-set [] i v h e = e
  find_index-set (x ∷ xs) zero v h e = rw h
  find_index-set (x ∷ xs) (suc i) v h e = ground (arith, find_index-set xs i v h)

  pub set-set : (xs : List A) (i : ℕ) (v : A) → set (set xs i v) i v ≡ set xs i v
  set-set [] i v = refl
  set-set (x ∷ xs) zero v = refl
  set-set (x ∷ xs) (suc i) v = ap (◌∷◌ x) (set-set xs i v)

-- Writing a call twice under its own key is writing it once.
pub put_call_idempotent :
    (p : ToolCall → Bool) (call : ToolCall) (calls : List ToolCall)
    → p call ≡ true
    → let once = put_call (find_index p calls) call calls in
      put_call (find_index p once) call once ≡ once
unfolding put_call
put_call_idempotent p call calls h = elim (Option-cases (find_index p calls)) [
  | inl e ↦ let (i, found, same) = set-find_index-append p calls call h e in rw (e, found, same)
  | inr (i, e) ↦ rw (e, find_index-set p calls i call h e) (set-set p calls i call)
]

pub has_call_id_self :
    (call_id : Option String) (call : ToolCall)
    → call.id ≡ call_id
    → has_call_id call_id call ≡ true
has_call_id_self none call h = rw h
has_call_id_self (some c) call h = rw h (eq_refl c)

pub settle_idempotent : (call : ToolCall) → settle (settle call) ≡ settle call
unfolding settle
settle_idempotent call = ground arith

pub map-settle_idempotent :
    (calls : List ToolCall) → map settle (map settle calls) ≡ map settle calls
map-settle_idempotent [] = refl
map-settle_idempotent (c ∷ calls) = rw (settle_idempotent c, map-settle_idempotent calls)

pub any-append_self {ℓ} :
    {A : Type ℓ} (p : A → Bool) (xs : List A) (v : A) → p v ≡ true → any p (xs ++ v ∷ []) ≡ true
any-append_self p [] v h = rw h
any-append_self p (x ∷ xs) v h = ground (arith, any-append_self p xs v h)

seen_in-append_self :
    (id : String) (items : List ActivityItem) (item : ActivityItem)
    → item.id ≡ id
    → seen_in (some id) (items ++ item ∷ []) ≡ true
unfolding seen_in
seen_in-append_self id items item h = any-append_self _ items item (rw h (eq_refl id))

pub activity_id-item_of :
    (event : RunEvent) → is_activity event.e ≡ true → activity_id event ≡ some (item_of event).id
unfolding activity_id item_of
activity_id-item_of event h = ground arith

-- A recorded stage or verification item is seen.
pub seen_in-append :
    (event : RunEvent) (items : List ActivityItem)
    → is_activity event.e ≡ true
    → seen_in (activity_id event) (items ++ item_of event ∷ []) ≡ true
seen_in-append event items h =
    rw (activity_id-item_of event h) (seen_in-append_self _ items (item_of event) refl)

-- A call that was written is found under its key.
pub find_index-put_call :
    (p : ToolCall → Bool) (call : ToolCall) (calls : List ToolCall)
    → p call ≡ true
    → is_some (find_index p (put_call (find_index p calls) call calls)) ≡ true
unfolding put_call
find_index-put_call p call calls h = elim (Option-cases (find_index p calls)) [
  | inl e ↦ rw e (find_index-append_self p calls call h)
  | inr (i, e) ↦ rw (e, find_index-set p calls i call h e)
]
