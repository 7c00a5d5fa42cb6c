-- ===== src/Journal/Numbers.antt =====
-- Recording an execution event: the chain goes on, and so do the numbers.
use asc_orchestrator_v.Base.{
  ℕ, ◌+◌, ◌≡◌, sym, ◌∙◌, ap, subst, inl, inr, String, true, Option, none, some, List, [], ◌∷◌, ◌++◌,
  contains, length, arith, Bool-cases, Option-cases,
}
use asc_orchestrator_v.Journal.Chain.{Entry, verify_from, last_or_hash, verify_snoc}
use asc_orchestrator_v.Journal.Audit.{
  Line, blank, bad_json, entry, ok, audit_error, last_line, hash_of_line, last_hash, has_length,
}
use asc_orchestrator_v.Journal.Append.{Result-cases}
use asc_orchestrator_v.Journal.Events.{
  Event, Given, fails, chain_broken, undecodable, invalid_sequence, invalid_final_entry,
  invalid_event_type, done, event_types, events, next_after, next_sequence, event_link, event_of,
  sealed_event, record_after, record_event,
}

module _ (digest : Event → String) where
  -- The events have consecutive numbers from the given one on.
  abbrev pub IsNumbered : ℕ → List (Entry Event) → Type 0
  IsNumbered n [] = Unit
  IsNumbered n (e ∷ es) = (e.body.sequence ≡ some n) × IsNumbered (n + 1) es

  numbered_next :
      (k : ℕ) (es : List (Entry Event))
      → IsNumbered k es
      → next_sequence (some k) es ≡ some (k + length es)
  unfolding next_sequence
  numbered_next k [] t = ap some (omega arith)
  numbered_next k (e ∷ es) (s, t) =
      ap (λ o. next_sequence (next_after o) es) s
      ∙ (numbered_next (k + 1) es t ∙ ap some (omega arith))

  IsNumbered-snoc :
      (k : ℕ) (es : List (Entry Event)) (e : Entry Event)
      → IsNumbered k es
      → e.body.sequence ≡ some (k + length es)
      → IsNumbered k (es ++ (e ∷ []))
  IsNumbered-snoc k [] e t s = (s ∙ ap some (omega arith), tt)
  IsNumbered-snoc k (f ∷ es) e (r, t) s =
      (r, IsNumbered-snoc (k + 1) es e t (s ∙ ap some (omega arith)))

  events_snoc :
      (lines : List (Line Event)) (es : List (Entry Event)) (e : Entry Event)
      → events lines ≡ some es
      → events (lines ++ (entry e ∷ [])) ≡ some (es ++ (e ∷ []))
  unfolding events
  events_snoc [] es e h = let is : [] ≡ es = cc in ap (λ xs. some (xs ++ (e ∷ []))) is
  events_snoc (blank ∷ lines) es e h = events_snoc lines es e h
  events_snoc (bad_json ∷ lines) es e h = cc
  events_snoc (entry f ∷ lines) es e h = elim (Option-cases (events lines)) [
    | inl n ↦ let clash : none ≡ some es = rw n at h in cc
    | inr (fs, m) ↦
        let is : f ∷ fs ≡ es = let same : some (f ∷ fs) ≡ some es = rw m at h in cc in
        rw (events_snoc lines fs e m) (ap (λ xs. some (xs ++ (e ∷ []))) is)
  ]

  -- The last line that is not blank is the last event.
  hash_read :
      (e : Entry Event) (h : Option String) → hash_of_line (some (entry e)) ≡ ok h → e.own_hash ≡ h
  hash_read e h k = elim (Option-cases e.own_hash) [
    | inl n ↦ let clash : audit_error ≡ ok h = rw n at k in cc
    | inr (s, n) ↦ elim (Bool-cases (has_length 64 s)) [
      | inl b ↦ let same : ok (some s) ≡ ok h = rw (n, b) at k in cc
      | inr b ↦ let clash : audit_error ≡ ok h = rw (n, b) at k in cc
    ]
  ]

  hash_after_lines :
      (last : Option (Line Event)) (p : Option String) (lines : List (Line Event))
      (es : List (Entry Event)) (h : Option String)
      → (hash_of_line last ≡ ok h → p ≡ h)
      → events lines ≡ some es
      → hash_of_line (last_line last lines) ≡ ok h
      → last_or_hash event_link digest p es ≡ h
  unfolding events
  hash_after_lines last p [] es h start m k =
      let is : [] ≡ es = cc in subst (λ xs. last_or_hash event_link digest p xs ≡ h) is (start k)
  hash_after_lines last p (blank ∷ lines) es h start m k =
      hash_after_lines last p lines es h start m k
  hash_after_lines last p (bad_json ∷ lines) es h start m k = cc
  hash_after_lines last p (entry f ∷ lines) es h start m k = elim (Option-cases (events lines)) [
    | inl n ↦ let clash : none ≡ some es = rw n at m in cc
    | inr (fs, n) ↦
        let is : f ∷ fs ≡ es = let same : some (f ∷ fs) ≡ some es = rw n at m in cc in
        subst (λ xs. last_or_hash event_link digest p xs ≡ h) is
          (hash_after_lines (some (entry f)) f.own_hash lines fs h (hash_read f h) n k)
  ]

  -- What recording an event leaves: the events before, chained, and the new one behind them,
  -- chained again, with the next number.
  pub record Continued (g : Given) (before after : List (Line Event)) : Type 0 where
    pub old : List (Entry Event)
    pub number : ℕ
    pub previous : Option String
    pub old_is : events before ≡ some old
    pub old_chained : verify_from event_link digest none old ≡ true
    pub new_is :
        events after ≡ some (old ++ (sealed_event digest (event_of g number previous) ∷ []))
    pub new_chained :
        verify_from event_link digest none
          (old ++ (sealed_event digest (event_of g number previous) ∷ []))
        ≡ true
    pub numbered :
        IsNumbered 1 old
        → IsNumbered 1 (old ++ (sealed_event digest (event_of g number previous) ∷ []))

  continue :
      (g : Given) (lines after : List (Line Event)) (es : List (Entry Event))
      → events lines ≡ some es
      → verify_from event_link digest none es ≡ true
      → record_after digest g lines (next_sequence (some 1) es) (last_hash lines) ≡ done after
      → Continued g lines after
  unfolding last_hash
  continue g lines after es m v h = elim (Option-cases (next_sequence (some 1) es)) [
    | inl e ↦ let clash : fails invalid_sequence ≡ done after = rw e at h in cc
    | inr (n, e) ↦ elim (Result-cases (last_hash lines)) [
      | inr f ↦ let clash : fails invalid_final_entry ≡ done after = rw (e, f) at h in cc
      | inl (previous, f) ↦
          let new = sealed_event digest (event_of g n previous) in
          let written : done (lines ++ (entry new ∷ [])) ≡ done after = rw (e, f) at h in
          let is : lines ++ (entry new ∷ []) ≡ after = cc in
          let hash = hash_after_lines none none lines es previous (λ k. cc) m f in
          record {
            old = es;
            number = n;
            previous = previous;
            old_is = m;
            old_chained = v;
            new_is = ap events (sym is) ∙ events_snoc lines es new m;
            new_chained =
                verify_snoc event_link digest none es (event_of g n previous) v (sym hash);
            numbered = λ t. IsNumbered-snoc 1 es new t (sym e ∙ numbered_next 1 es t);
          }
    ]
  ]

  -- When an event is recorded, the events before were one chain, and they are one chain with the
  -- new event behind them; if they were numbered from 1 on, all of them are.
  pub record_event-Continued :
      (g : Given) (lines after : List (Line Event))
      → record_event digest g lines ≡ done after
      → Continued g lines after
  unfolding record_event
  record_event-Continued g lines after h = elim (Bool-cases (contains g.event_type event_types)) [
    | inr t ↦ let clash : fails invalid_event_type ≡ done after = rw (t, record_event) at h in cc
    | inl t ↦ elim (Option-cases (events lines)) [
      | inl e ↦ let clash : fails undecodable ≡ done after = rw (t, record_event, e) at h in cc
      | inr (es, e) ↦ elim (Bool-cases (verify_from event_link digest none es)) [
        | inr v ↦
            let clash : fails chain_broken ≡ done after = rw (t, record_event, e, v) at h in cc
        | inl v ↦ continue g lines after es e v (rw (t, record_event, e, v) at h)
      ]
    ]
  ]
