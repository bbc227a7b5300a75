-- ===== src/Chat/Restore/Sorted.antt =====
-- The order of the restored messages.
use mathlib.Core.List.Perm
use mathlib.Core.List.{Perm, perm_middle}
use webbuilder.Base.{
  ◌≡◌, ℕ, ◌≤◌, ltb, String, Option, some, List, [], ◌∷◌, ◌++◌, append-nil, arith, Bool-cases, inl,
  inr, All,
}
use webbuilder.Chat.Types.{Message, RunSnapshot}
use webbuilder.Chat.Restore.{
  is_later, insert_by_time, sort_from, sort_by_time, restore_all, restore_runs,
}

module _ (parse_date : String → Option ℕ) where
  insert_by_time-perm :
      (m : Message) (ms : List Message) → Perm (insert_by_time parse_date m ms) (m ∷ ms)
  unfolding insert_by_time
  insert_by_time-perm m [] = Perm.refl _
  insert_by_time-perm m (x ∷ xs) = elim (Bool-cases (is_later parse_date x m)) [
    | inl late ↦ rw late (Perm.refl _)
    | inr early ↦ rw early (Perm.trans (Perm.cons x (insert_by_time-perm m xs)) (Perm.swap m x xs))
  ]

  sort_from-perm : (sorted ms : List Message) → Perm (sort_from parse_date sorted ms) (sorted ++ ms)
  unfolding sort_from
  sort_from-perm sorted [] = rw append-nil (Perm.refl sorted)
  sort_from-perm sorted (m ∷ ms) =
      Perm.trans (sort_from-perm (insert_by_time parse_date m sorted) ms) (
        Perm.trans (Perm.append_right ms (insert_by_time-perm m sorted))
          (Perm.symm (perm_middle sorted ms)))

  -- Restoring keeps every message that the runs gave, as often, whatever the dates are.
  pub restore_runs-perm :
      (messages : List Message) (runs : List RunSnapshot)
      → Perm (restore_runs parse_date messages runs) (restore_all messages runs)
  unfolding restore_runs sort_by_time
  restore_runs-perm messages runs = sort_from-perm [] (restore_all messages runs)

  -- the time of a message that has a date that can be read
  abbrev pub IsAt : ℕ → Message → Type 0
  IsAt t m = parse_date m.created_at ≡ some t

  abbrev pub IsDated : Message → Type 0
  IsDated m = (t : ℕ) × IsAt t m

  -- Every message has a readable date, and none stands before an earlier one.
  abbrev pub IsChronological : List Message → Type 0
  IsChronological [] = Unit
  IsChronological (m ∷ ms) =
      ((t : ℕ) × IsAt t m × All (λ n. (u : ℕ) × IsAt u n × (t ≤ u)) ms) × IsChronological ms

  not_earlier :
      (t : ℕ) (m : Message) (ms : List Message)
      → (u : ℕ) → IsAt u m
      → t ≤ u
      → All (λ n. (u : ℕ) × IsAt u n × (t ≤ u)) ms
      → All (λ n. (u : ℕ) × IsAt u n × (t ≤ u)) (insert_by_time parse_date m ms)
  unfolding insert_by_time
  not_earlier t m [] u at le h = ((u, at, le), tt)
  not_earlier t m (x ∷ xs) u at le (h, hs) = elim (Bool-cases (is_later parse_date x m)) [
    | inl late ↦ rw late ((u, at, le), (h, hs))
    | inr early ↦ rw early (h, not_earlier t m xs u at le hs)
  ]

  weaken :
      (s t : ℕ) (ms : List Message)
      → s ≤ t
      → All (λ n. (u : ℕ) × IsAt u n × (t ≤ u)) ms
      → All (λ n. (u : ℕ) × IsAt u n × (s ≤ u)) ms
  weaken s t [] le h = tt
  weaken s t (x ∷ xs) le ((u, at, k), hs) = ((u, at, omega arith), weaken s t xs le hs)

  is_later-IsAt :
      (x m : Message) (t u : ℕ) → IsAt t x → IsAt u m → is_later parse_date x m ≡ ltb u t
  unfolding is_later
  is_later-IsAt x m t u p q = ground arith

  insert_by_time-IsChronological :
      (m : Message) (ms : List Message)
      → IsDated m
      → IsChronological ms
      → IsChronological (insert_by_time parse_date m ms)
  unfolding insert_by_time
  insert_by_time-IsChronological m [] (u, at) h = ((u, at, tt), tt)
  insert_by_time-IsChronological m (x ∷ xs) (u, at) ((t, x_at, after), h) =
      let later = is_later-IsAt x m t u x_at at in
      elim (Bool-cases (is_later parse_date x m)) [
        | inl late ↦
            let lt : u ≤ t = ground arith in
            rw late ((u, at, ((t, x_at, lt), weaken u t xs lt after)), ((t, x_at, after), h))
        | inr early ↦
            let le : t ≤ u = ground arith in
            rw early (
              (t, x_at, not_earlier t m xs u at le after),
              insert_by_time-IsChronological m xs (u, at) h,
            )
      ]

  sort_from-IsChronological :
      (sorted ms : List Message)
      → IsChronological sorted
      → All IsDated ms
      → IsChronological (sort_from parse_date sorted ms)
  unfolding sort_from
  sort_from-IsChronological sorted [] h d = h
  sort_from-IsChronological sorted (m ∷ ms) h (d, ds) =
      sort_from-IsChronological (insert_by_time parse_date m sorted) ms
        (insert_by_time-IsChronological m sorted d h) ds

  -- If every message has a readable date, the restored messages stand in the order of their times.
  pub restore_runs-IsChronological :
      (messages : List Message) (runs : List RunSnapshot)
      → All IsDated (restore_all messages runs)
      → IsChronological (restore_runs parse_date messages runs)
  unfolding restore_runs sort_by_time
  restore_runs-IsChronological messages runs d =
      sort_from-IsChronological [] (restore_all messages runs) tt d
