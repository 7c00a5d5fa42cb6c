-- ===== src/State/Events/Sort.antt =====
-- The two sorts of `get_events` sort, and keep what holds of every event.
use asc_orchestrator_v.Base.{
  ℕ, zero, suc, ◌≤◌, List, [], ◌∷◌, inl, inr, arith, All, Bool-cases, ltb,
}
use asc_orchestrator_v.State.{EventRow}
use asc_orchestrator_v.State.Missions.{limit_to}
use asc_orchestrator_v.State.Events.{insert_desc, sort_desc, insert_asc, sort_asc}

abbrev pub IsBefore : EventRow → EventRow → Type 0
IsBefore e f = e.timestamp ≤ f.timestamp

-- Times rise along the list.
abbrev pub IsChronological : List EventRow → Type 0
IsChronological [] = Unit
IsChronological (e ∷ es) = All (IsBefore e) es × IsChronological es

abbrev pub IsFalling : List EventRow → Type 0
IsFalling [] = Unit
IsFalling (e ∷ es) = All (λ f. IsBefore f e) es × IsFalling es

module _ (P : EventRow → Type 0) where
  pub All-insert_desc :
      (e : EventRow) (es : List EventRow) → P e → All P es → All P (insert_desc e es)
  unfolding insert_desc
  All-insert_desc e [] p h = (p, tt)
  All-insert_desc e (f ∷ fs) p h = elim (Bool-cases (ltb e.timestamp f.timestamp)) [
    | inl q ↦ rw q (h.0, All-insert_desc e fs p h.1)
    | inr q ↦ rw q (p, h)
  ]

  pub All-insert_asc :
      (e : EventRow) (es : List EventRow) → P e → All P es → All P (insert_asc e es)
  unfolding insert_asc
  All-insert_asc e [] p h = (p, tt)
  All-insert_asc e (f ∷ fs) p h = elim (Bool-cases (ltb f.timestamp e.timestamp)) [
    | inl q ↦ rw q (h.0, All-insert_asc e fs p h.1)
    | inr q ↦ rw q (p, h)
  ]

  pub All-sort_desc : (es : List EventRow) → All P es → All P (sort_desc es)
  unfolding sort_desc
  All-sort_desc [] h = tt
  All-sort_desc (e ∷ es) h = All-insert_desc e (sort_desc es) h.0 (All-sort_desc es h.1)

  pub All-sort_asc : (es : List EventRow) → All P es → All P (sort_asc es)
  unfolding sort_asc
  All-sort_asc [] h = tt
  All-sort_asc (e ∷ es) h = All-insert_asc e (sort_asc es) h.0 (All-sort_asc es h.1)

  pub All-limit_to : (n : ℕ) (es : List EventRow) → All P es → All P (limit_to n es)
  All-limit_to zero es h = tt
  All-limit_to (suc n) [] h = tt
  All-limit_to (suc n) (e ∷ es) h = (h.0, All-limit_to n es h.1)

pub All-weaken :
    (P Q : EventRow → Type 0)
    → ((e : EventRow) → P e → Q e)
    → (es : List EventRow) → All P es
    → All Q es
All-weaken P Q f [] h = tt
All-weaken P Q f (e ∷ es) h = (f e h.0, All-weaken P Q f es h.1)

insert_desc-IsFalling :
    (e : EventRow) (es : List EventRow) → IsFalling es → IsFalling (insert_desc e es)
unfolding insert_desc
insert_desc-IsFalling e [] h = (tt, tt)
insert_desc-IsFalling e (f ∷ fs) h = elim (Bool-cases (ltb e.timestamp f.timestamp)) [
  | inl q ↦
      rw q (
        All-insert_desc (λ g. IsBefore g f) e fs (ground arith) h.0,
        insert_desc-IsFalling e fs h.1,
      )
  | inr q ↦
      let le : f.timestamp ≤ e.timestamp = ground arith in
      rw q ((le, All-weaken (λ g. IsBefore g f) (λ g. IsBefore g e) (λ g p. omega arith) fs h.0), h)
]

insert_asc-IsChronological :
    (e : EventRow) (es : List EventRow) → IsChronological es → IsChronological (insert_asc e es)
unfolding insert_asc
insert_asc-IsChronological e [] h = (tt, tt)
insert_asc-IsChronological e (f ∷ fs) h = elim (Bool-cases (ltb f.timestamp e.timestamp)) [
  | inl q ↦
      rw q
        (All-insert_asc (IsBefore f) e fs (ground arith) h.0, insert_asc-IsChronological e fs h.1)
  | inr q ↦
      let le : e.timestamp ≤ f.timestamp = ground arith in
      rw q ((le, All-weaken (IsBefore f) (IsBefore e) (λ g p. omega arith) fs h.0), h)
]

pub sort_desc-IsFalling : (es : List EventRow) → IsFalling (sort_desc es)
unfolding sort_desc
sort_desc-IsFalling [] = tt
sort_desc-IsFalling (e ∷ es) = insert_desc-IsFalling e (sort_desc es) (sort_desc-IsFalling es)

pub sort_asc-IsChronological : (es : List EventRow) → IsChronological (sort_asc es)
unfolding sort_asc
sort_asc-IsChronological [] = tt
sort_asc-IsChronological (e ∷ es) =
    insert_asc-IsChronological e (sort_asc es) (sort_asc-IsChronological es)
