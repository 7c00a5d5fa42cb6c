-- ===== src/State/Events/Newest.antt =====
-- `get_events` returns the newest events in chronological order.
use Prim.Native.Nat.{min}
use asc_orchestrator_v.Base.{
  ℕ, zero, suc, ◌≤◌, String, ◌≡◌, refl, subst, true, Option, List, [], ◌∷◌, ◌⊎◌, inl, inr, arith,
  All, Member, length, select, Bool-cases, ltb, Bool, ◌∙◌, ap, count_if,
}
use asc_orchestrator_v.Base.Select.{select-Member}
use asc_orchestrator_v.State.{Db, EventRow}
use asc_orchestrator_v.State.Missions.{limit_to}
use asc_orchestrator_v.State.Events.{
  wanted, insert_desc, sort_desc, insert_asc, sort_asc, get_events,
}
use asc_orchestrator_v.State.Events.Sort.{
  IsBefore, IsChronological, IsFalling, All-sort_asc, sort_desc-IsFalling, sort_asc-IsChronological,
}

Member-insert_desc :
    (e f : EventRow) (es : List EventRow) → Member e (f ∷ es) → Member e (insert_desc f es)
unfolding insert_desc
Member-insert_desc e f [] m = m
Member-insert_desc e f (g ∷ gs) m = elim (Bool-cases (ltb f.timestamp g.timestamp)) [
  | inl q ↦ rw q (swap m (Member-insert_desc e f gs))
  | inr q ↦ rw q m
]
  where
    swap :
        Member e (f ∷ g ∷ gs)
        → (Member e (f ∷ gs) → Member e (insert_desc f gs))
        → Member e (g ∷ insert_desc f gs)
    swap (inl p) rest = inr (rest (inl p))
    swap (inr (inl p)) rest = inl p
    swap (inr (inr n)) rest = inr (rest (inr n))

Member-sort_desc : (e : EventRow) (es : List EventRow) → Member e es → Member e (sort_desc es)
unfolding sort_desc
Member-sort_desc e [] m = m
Member-sort_desc e (f ∷ fs) (inl p) = Member-insert_desc e f (sort_desc fs) (inl p)
Member-sort_desc e (f ∷ fs) (inr m) =
    Member-insert_desc e f (sort_desc fs) (inr (Member-sort_desc e fs m))

Member-insert_asc :
    (e f : EventRow) (es : List EventRow) → Member e (f ∷ es) → Member e (insert_asc f es)
unfolding insert_asc
Member-insert_asc e f [] m = m
Member-insert_asc e f (g ∷ gs) m = elim (Bool-cases (ltb g.timestamp f.timestamp)) [
  | inl q ↦ rw q (swap m (Member-insert_asc e f gs))
  | inr q ↦ rw q m
]
  where
    swap :
        Member e (f ∷ g ∷ gs)
        → (Member e (f ∷ gs) → Member e (insert_asc f gs))
        → Member e (g ∷ insert_asc f gs)
    swap (inl p) rest = inr (rest (inl p))
    swap (inr (inl p)) rest = inl p
    swap (inr (inr n)) rest = inr (rest (inr n))

Member-sort_asc : (e : EventRow) (es : List EventRow) → Member e es → Member e (sort_asc es)
unfolding sort_asc
Member-sort_asc e [] m = m
Member-sort_asc e (f ∷ fs) (inl p) = Member-insert_asc e f (sort_asc fs) (inl p)
Member-sort_asc e (f ∷ fs) (inr m) =
    Member-insert_asc e f (sort_asc fs) (inr (Member-sort_asc e fs m))

All_Member :
    (P : EventRow → Type 0) (e : EventRow) (es : List EventRow) → All P es → Member e es → P e
All_Member P e [] h m = absurd m
All_Member P e (f ∷ fs) h (inl p) = subst P p h.0
All_Member P e (f ∷ fs) h (inr m) = All_Member P e fs h.1 m

-- Of a falling list the first `n` are no older than any other.
limit_to-newest :
    (n : ℕ) (e : EventRow) (es : List EventRow)
    → IsFalling es
    → Member e es
    → Member e (limit_to n es) ⊎ All (IsBefore e) (limit_to n es)
limit_to-newest zero e es h m = inr tt
limit_to-newest (suc n) e [] h m = absurd m
limit_to-newest (suc n) e (f ∷ fs) h (inl p) = inl (inl p)
limit_to-newest (suc n) e (f ∷ fs) h (inr m) = elim (limit_to-newest n e fs h.1 m) [
  | inl k ↦ inl (inr k)
  | inr a ↦ inr (All_Member (λ g. IsBefore g f) e fs h.0 m, a)
]

-- The first `n` are `n`, or all where there are fewer.
length-limit_to : (n : ℕ) (es : List EventRow) → length (limit_to n es) ≡ min n (length es)
length-limit_to zero es = ground arith
length-limit_to (suc n) [] = ground arith
length-limit_to (suc n) (e ∷ es) = ground (arith, length-limit_to n es)

-- What passes a test stays as often, through the sorts and at most as often in the first `n`.
module _ (p : EventRow → Bool) where
  count_if-insert_desc :
      (f : EventRow) (es : List EventRow) → count_if p (insert_desc f es) ≡ count_if p (f ∷ es)
  unfolding insert_desc
  count_if-insert_desc f [] = refl
  count_if-insert_desc f (g ∷ gs) = ground (arith, count_if-insert_desc f gs)

  count_if-sort_desc : (es : List EventRow) → count_if p (sort_desc es) ≡ count_if p es
  unfolding sort_desc
  count_if-sort_desc [] = refl
  count_if-sort_desc (e ∷ es) =
      ground (arith, count_if-insert_desc e (sort_desc es), count_if-sort_desc es)

  count_if-insert_asc :
      (f : EventRow) (es : List EventRow) → count_if p (insert_asc f es) ≡ count_if p (f ∷ es)
  unfolding insert_asc
  count_if-insert_asc f [] = refl
  count_if-insert_asc f (g ∷ gs) = ground (arith, count_if-insert_asc f gs)

  count_if-sort_asc : (es : List EventRow) → count_if p (sort_asc es) ≡ count_if p es
  unfolding sort_asc
  count_if-sort_asc [] = refl
  count_if-sort_asc (e ∷ es) =
      ground (arith, count_if-insert_asc e (sort_asc es), count_if-sort_asc es)

  count_if-limit_to : (n : ℕ) (es : List EventRow) → count_if p (limit_to n es) ≤ count_if p es
  count_if-limit_to zero es = omega arith
  count_if-limit_to (suc n) [] = omega arith
  count_if-limit_to (suc n) (e ∷ es) = ground (arith, count_if-limit_to n es)

length-sort_desc : (es : List EventRow) → length (sort_desc es) ≡ length es
unfolding sort_desc insert_desc
length-sort_desc [] = refl
length-sort_desc (e ∷ es) = omega (arith, length-insert_desc e (sort_desc es), length-sort_desc es)
  where
    length-insert_desc :
        (f : EventRow) (fs : List EventRow) → length (insert_desc f fs) ≡ suc (length fs)
    length-insert_desc f [] = refl
    length-insert_desc f (g ∷ gs) = ground (arith, length-insert_desc f gs)

length-sort_asc : (es : List EventRow) → length (sort_asc es) ≡ length es
unfolding sort_asc insert_asc
length-sort_asc [] = refl
length-sort_asc (e ∷ es) = omega (arith, length-insert_asc e (sort_asc es), length-sort_asc es)
  where
    length-insert_asc :
        (f : EventRow) (fs : List EventRow) → length (insert_asc f fs) ≡ suc (length fs)
    length-insert_asc f [] = refl
    length-insert_asc f (g ∷ gs) = ground (arith, length-insert_asc f gs)

-- `get_events` returns as many events as `limit` says, or all that its mission and task ask for
-- where they are fewer; in chronological order; none more often than the table has it among those
-- asked for, whatever test `p` tells events apart; and no event that it leaves out, of those asked
-- for, is newer than one that it returns.
pub get_events_newest :
    (mission_id task_id : Option String) (limit : ℕ) (db : Db)
    → let events = get_events mission_id task_id limit db in
      let asked = select (wanted mission_id task_id) db.events in
      (length events ≡ min limit (length asked))
      × IsChronological events
      × ((p : EventRow → Bool) → count_if p events ≤ count_if p asked)
      × ((e : EventRow)
          → Member e db.events
          → wanted mission_id task_id e ≡ true
          → Member e events ⊎ All (IsBefore e) events)
unfolding get_events
get_events_newest mission_id task_id limit db =
    let asked = select (wanted mission_id task_id) db.events in
    let chosen = sort_desc asked in
    (
      length-sort_asc (limit_to limit chosen)
          ∙ (length-limit_to limit chosen ∙ ap (min limit) (length-sort_desc asked)),
      sort_asc-IsChronological (limit_to limit chosen),
      λ p. omega (
        arith,
        count_if-sort_asc p (limit_to limit chosen),
        count_if-limit_to p limit chosen,
        count_if-sort_desc p asked,
      ),
      λ e m w.
          elim (limit_to-newest limit e chosen (sort_desc-IsFalling _)
            (Member-sort_desc e _ (select-Member (wanted mission_id task_id) e db.events m w))) [
              | inl k ↦ inl (Member-sort_asc e _ k)
              | inr a ↦ inr (All-sort_asc (IsBefore e) _ a)
            ],
    )
