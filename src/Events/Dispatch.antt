-- ===== src/Events/Dispatch.antt =====
-- The listeners of an emitter.
use asc_orchestrator_v.Base.{
  ℕ, ◌≡◌, refl, true, false, List, [], ◌∷◌, ◌++◌, arith, nat_eq, if◌then◌else◌, Bool-cases, inl,
  inr,
}
use asc_orchestrator_v.Events.{listens, subscribe, unsubscribe, remove}

-- No listener is registered twice.
abbrev pub IsDistinct : List ℕ → Type 0
IsDistinct [] = Unit
IsDistinct (l ∷ ls) = (listens l ls ≡ false) × IsDistinct ls

listens-append :
    (l m : ℕ) (ls : List ℕ) → listens l (ls ++ m ∷ []) ≡ (if listens l ls then true else nat_eq m l)
listens-append l m [] = ground arith
listens-append l m (k ∷ ks) = ground (arith, listens-append l m ks)

append-IsDistinct :
    (l : ℕ) (ls : List ℕ) → listens l ls ≡ false → IsDistinct ls → IsDistinct (ls ++ l ∷ [])
append-IsDistinct l [] h d = (refl, tt)
append-IsDistinct l (k ∷ ks) h d =
    (ground (arith, listens-append k l ks), append-IsDistinct l ks (ground arith) d.1)

known :
    (l m : ℕ) (ls : List ℕ)
    → listens l ls ≡ true
    → listens m ls ≡ (if nat_eq l m then true else listens m ls)
known l m ls e = elim (Bool-cases (nat_eq l m)) [
  | inl q ↦ let same : l ≡ m = ground arith in rw (q, ← same) e
  | inr q ↦ rw q
]

listens-remove :
    (l m : ℕ) (ls : List ℕ)
    → IsDistinct ls
    → listens m (remove l ls) ≡ (if nat_eq l m then false else listens m ls)
unfolding remove
listens-remove l m [] d = ground arith
listens-remove l m (k ∷ ks) d = elim (Bool-cases (nat_eq k l)) [
  | inl e ↦ rw (e, remove) (first (ground arith))
  | inr e ↦ rw (e, remove) (ground (arith, listens-remove l m ks d.1))
]
  where
    first : k ≡ l → listens m ks ≡ (if nat_eq l m then false else listens m (k ∷ ks))
    first e = elim (Bool-cases (nat_eq l m)) [
      | inl q ↦ let same : k ≡ m = ground arith in rw (q, ← same) (d.0)
      | inr q ↦ ground arith
    ]

-- Subscribing keeps the listeners distinct, registers the listener, and registers no other.
pub subscribe_outcome :
    (l m : ℕ) (ls : List ℕ)
    → IsDistinct ls
    → IsDistinct (subscribe l ls)
      × (listens m (subscribe l ls) ≡ (if nat_eq l m then true else listens m ls))
unfolding subscribe
subscribe_outcome l m ls d = elim (Bool-cases (listens l ls)) [
  | inl e ↦ rw e (d, known l m ls e)
  | inr e ↦ rw e (append-IsDistinct l ls e d, ground (arith, listens-append m l ls))
]

-- Unsubscribing from distinct listeners takes the listener away and leaves every other.
pub unsubscribe_outcome :
    (l m : ℕ) (ls : List ℕ)
    → IsDistinct ls
    → listens m (unsubscribe l ls) ≡ (if nat_eq l m then false else listens m ls)
unfolding unsubscribe
unsubscribe_outcome l m ls d = elim (Bool-cases (listens l ls)) [
  | inl e ↦ rw e (listens-remove l m ls d)
  | inr e ↦ rw e (elim (Bool-cases (nat_eq l m)) [
    | inl q ↦ let same : l ≡ m = ground arith in rw (q, ← same) e
    | inr q ↦ rw q
  ])
]
