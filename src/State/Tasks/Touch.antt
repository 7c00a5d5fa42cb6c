-- ===== src/State/Tasks/Touch.antt =====
-- Changes of the table of tasks that touch the rows of one key only, and keep every key.
use asc_orchestrator_v.Base.{
  ℕ, ◌≤◌, ◌<◌, String, ◌≡◌, refl, ◌∙◌, ap, Bool, true, false, ◌&&◌, ◌==◌, some, List, [], ◌∷◌,
  arith, All, Any, inl, inr, Bool-cases, count_if,
}
use asc_orchestrator_v.Base.Truthy.{truthy}
use asc_orchestrator_v.Models.{TaskStatus, is_waiting}
use asc_orchestrator_v.State.{TaskRow, Db, update_where}
use asc_orchestrator_v.State.Tasks.{has_key}
use asc_orchestrator_v.State.Tasks.Status.{
  StatusTarget, target_id, target_status, StatusFields, set_status, update_task_status, bump,
  increment_attempt_count,
}

abbrev pub SameKey : TaskRow → TaskRow → Type 0
SameKey r s = (s.mission_id ≡ r.mission_id) × (s.id ≡ r.id)

-- The rows of the key (m, i) may differ, but for their key; the others are the same.
abbrev pub Touch : String → String → List TaskRow → List TaskRow → Type 0
Touch m i [] [] = Unit
Touch m i [] (s ∷ ss) = ⊥
Touch m i (r ∷ rs) [] = ⊥
Touch m i (r ∷ rs) (s ∷ ss) = SameKey r s × (has_key m i r ≡ false → s ≡ r) × Touch m i rs ss

module _ (m i : String) where
  pub Touch-refl : (rs : List TaskRow) → Touch m i rs rs
  Touch-refl [] = tt
  Touch-refl (r ∷ rs) = ((refl, refl), λ h. refl, Touch-refl rs)

  SameKey-has_key : (r s : TaskRow) → SameKey r s → has_key m i s ≡ has_key m i r
  SameKey-has_key r s (a, b) = rw (a, b)

  pub Touch-trans : (rs ss ts : List TaskRow) → Touch m i rs ss → Touch m i ss ts → Touch m i rs ts
  Touch-trans [] [] [] p q = tt
  Touch-trans [] [] (t ∷ ts) p q = q
  Touch-trans [] (s ∷ ss) ts p q = absurd p
  Touch-trans (r ∷ rs) [] ts p q = absurd p
  Touch-trans (r ∷ rs) (s ∷ ss) [] p q = absurd q
  Touch-trans (r ∷ rs) (s ∷ ss) (t ∷ ts) p q = (
    (q.0.0 ∙ p.0.0, q.0.1 ∙ p.0.1),
    λ h. q.1 (SameKey-has_key r s p.0 ∙ h) ∙ p.1 h,
    Touch-trans rs ss ts p.2 q.2,
  )

  pub update_where-Touch :
      (f : TaskRow → TaskRow) (rs : List TaskRow)
      → ((r : TaskRow) → SameKey r (f r))
      → Touch m i rs (update_where (has_key m i) f rs)
  unfolding update_where
  update_where-Touch f [] keep = tt
  update_where-Touch f (r ∷ rs) keep = elim (Bool-cases (has_key m i r)) [
    | inl e ↦ rw e (keep r, λ h. cc, update_where-Touch f rs keep)
    | inr e ↦ rw e ((refl, refl), λ h. refl, update_where-Touch f rs keep)
  ]

-- Every row of the key has this status.
abbrev pub HasStatus : String → String → TaskStatus → List TaskRow → Type 0
HasStatus m i status rows = All (λ r. has_key m i r ≡ true → r.status ≡ status) rows

pub set_status-HasStatus :
    (m i : String) (now : ℕ) (status : TaskStatus) (fields : StatusFields) (rs : List TaskRow)
    → HasStatus m i status (update_where (has_key m i) (set_status now status fields) rs)
unfolding update_where
set_status-HasStatus m i now status fields [] = tt
set_status-HasStatus m i now status fields (r ∷ rs) = elim (Bool-cases (has_key m i r)) [
  | inl e ↦ rw e (λ h. unfold set_status in refl, set_status-HasStatus m i now status fields rs)
  | inr e ↦ rw e (λ h. cc, set_status-HasStatus m i now status fields rs)
]

module _ (m i : String) (now : ℕ) (text : truthy (some m) ≡ true) where
  pub update_task_status-Touch :
      (target : StatusTarget) (fields : StatusFields) (db : Db)
      → Touch m (target_id target) db.tasks (update_task_status now target fields (some m) db).tasks
  unfolding update_task_status set_status
  update_task_status-Touch target fields db =
      rw text (update_where-Touch m (target_id target) _ db.tasks (λ r. (refl, refl)))

  pub update_task_status-HasStatus :
      (target : StatusTarget) (fields : StatusFields) (db : Db)
      → HasStatus m
          (target_id target)
          (target_status target)
          (update_task_status now target fields (some m) db).tasks
  unfolding update_task_status
  update_task_status-HasStatus target fields db =
      rw text (set_status-HasStatus m (target_id target) now (target_status target) fields db.tasks)

  pub increment_attempt_count-Touch :
      (db : Db) → Touch m i db.tasks (increment_attempt_count i (some m) db).1.tasks
  unfolding increment_attempt_count bump
  increment_attempt_count-Touch db =
      rw text (update_where-Touch m i bump db.tasks (λ r. (refl, refl)))

-- A row of the mission that waits to run.
abbrev pub waits : String → TaskRow → Bool
waits m r = (r.mission_id == m) && is_waiting r.status

-- One key's rows have left the waiting statuses: no more rows wait than before, and fewer if one
-- of the key's rows waited.
pub waiting-Touch :
    (m i : String) (status : TaskStatus) (rs ss : List TaskRow)
    → is_waiting status ≡ false
    → Touch m i rs ss
    → HasStatus m i status ss
    → (count_if (waits m) ss ≤ count_if (waits m) rs)
      × (Any (λ r. (has_key m i r ≡ true) × (is_waiting r.status ≡ true)) rs
          → count_if (waits m) ss < count_if (waits m) rs)
waiting-Touch m i status [] [] done touch has = (omega arith, λ h. absurd h)
waiting-Touch m i status [] (s ∷ ss) done touch has = absurd touch
waiting-Touch m i status (r ∷ rs) [] done touch has = absurd touch
waiting-Touch m i status (r ∷ rs) (s ∷ ss) done touch has =
    let (le, lt) = waiting-Touch m i status rs ss done touch.2 has.1 in
    elim (Bool-cases (has_key m i r)) [
      | inr e ↦
          let same : s ≡ r = touch.1 e in
          rw same (omega (arith, le), λ h. elim h [ inl (k, w) ↦ cc | inr a ↦ omega (arith, lt a) ])
      | inl e ↦
          let left : is_waiting s.status ≡ false =
            ap is_waiting (has.0 (SameKey-has_key m i r s touch.0 ∙ e)) ∙ done in
          let gone : waits m s ≡ false = ground (arith, left) in
          rw gone (
            omega (arith, le),
            λ h. elim h [
              | inl (k, w) ↦
                  let here : waits m r ≡ true = ground (arith, k, w, e) in
                  rw here (omega (arith, le))
              | inr a ↦ omega (arith, lt a)
            ],
          )
    ]
