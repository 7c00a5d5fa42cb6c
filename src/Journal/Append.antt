-- ===== src/Journal/Append.antt =====
-- Appending to the audit journal: what is written, and what an intact journal cannot hide.
use asc_orchestrator_v.Base.{
  ◌≡◌, refl, sym, ◌∙◌, ap, ◌⊎◌, inl, inr, String, true, false, ◌||◌, Option, none, some, List, [],
  ◌∷◌, ◌++◌, Member, length, map, ◌==◌, Bool-cases, Option-cases,
}
use asc_orchestrator_v.Journal.Chain.{
  Entry, same_hash, same_hash_refl, verify_from, verify_parts, last_or_hash, verify_snoc,
  chains_agree,
}
use asc_orchestrator_v.Journal.Audit.{
  Body, Line, blank, bad_json, entry, Result, ok, audit_error, has_length, last_line, hash_of_line,
  last_hash, verify_lines, sealed, append_after, append,
}

abbrev pub link : Body → Option String
link b = b.previous_hash

pub Result-cases : {A : Type 0} (r : Result A) → ((a : A) × (r ≡ ok a)) ⊎ (r ≡ audit_error)
Result-cases (ok a) = inl (a, refl)
Result-cases audit_error = inr refl

module _ (digest : Body → String) where
  -- A journal whose lines are the entries of one chain.
  pub record IsIntact (lines : List (Line Body)) (es : List (Entry Body)) : Type 0 where
    pub lines_are : lines ≡ map entry es
    pub chained : verify_from link digest none es ≡ true

  -- `verify_chain` is true of a chain's lines, and of no other lines.
  lines_chain :
      (previous : Option String) (lines : List (Line Body))
      → verify_lines digest previous lines ≡ ok true
      → (es : List (Entry Body)) × (lines ≡ map entry es)
        × (verify_from link digest previous es ≡ true)
  unfolding verify_lines verify_from
  lines_chain previous [] h = ([], refl, refl)
  lines_chain previous (blank ∷ lines) h = cc
  lines_chain previous (bad_json ∷ lines) h = cc
  lines_chain previous (entry e ∷ lines) h =
      elim (Bool-cases (same_hash e.body.previous_hash previous)) [
        | inr l ↦ let clash : ok false ≡ ok true = rw l at h in cc
        | inl l ↦ elim (Bool-cases (same_hash e.own_hash (some (digest e.body)))) [
          | inr o ↦ let clash : ok false ≡ ok true = rw (l, o) at h in cc
          | inl o ↦
              let (es, same, good) = lines_chain (some (digest e.body)) lines (rw (l, o) at h) in
              (e ∷ es, ap (λ xs. entry e ∷ xs) same, rw (l, o, good) refl)
        ]
      ]

  chain_lines :
      (previous : Option String) (es : List (Entry Body))
      → verify_from link digest previous es ≡ true
      → verify_lines digest previous (map entry es) ≡ ok true
  unfolding verify_lines verify_from
  chain_lines previous [] h = refl
  chain_lines previous (e ∷ es) h =
      let (l, o, rest) = verify_parts link digest previous e es h in
      let more = chain_lines (some (digest e.body)) es rest in
      let linked : same_hash e.body.previous_hash previous ≡ true =
        ap (λ h. same_hash h previous) l ∙ same_hash_refl previous in
      let hashed : same_hash e.own_hash (some (digest e.body)) ≡ true =
        ap (λ h. same_hash h (some (digest e.body))) o ∙ same_hash_refl (some (digest e.body)) in
      rw (linked, hashed, more) refl

  -- The hash that is read back from the last line.
  hash_is :
      (e : Entry Body) (h : Option String) → hash_of_line (some (entry e)) ≡ ok h → e.own_hash ≡ h
  hash_is e h k = elim (Option-cases e.own_hash) [
    | inl n ↦ let clash : audit_error ≡ ok h = rw n at k in cc
    | inr (s, n) ↦ elim (Bool-cases (has_length 64 s)) [
      | inl b ↦ let same : ok (some s) ≡ ok h = rw (n, b) at k in cc
      | inr b ↦ let clash : audit_error ≡ ok h = rw (n, b) at k in cc
    ]
  ]

  last_hash_after :
      (e : Entry Body) (es : List (Entry Body)) (h : Option String)
      → hash_of_line (last_line (some (entry e)) (map entry es)) ≡ ok h
      → last_or_hash link digest e.own_hash es ≡ h
  last_hash_after e [] h k = hash_is e h k
  last_hash_after e (f ∷ es) h k = last_hash_after f es h k

  last_hash_chain :
      (es : List (Entry Body)) (h : Option String)
      → last_hash (map entry es) ≡ ok h
      → last_or_hash link digest none es ≡ h
  unfolding last_hash
  last_hash_chain [] h k = cc
  last_hash_chain (e ∷ es) h k = last_hash_after e es h k

  map_snoc :
      (es : List (Entry Body)) (e : Entry Body)
      → map entry es ++ (entry e ∷ []) ≡ map entry (es ++ (e ∷ []))
  map_snoc [] e = refl
  map_snoc (f ∷ es) e = ap (λ xs. entry f ∷ xs) (map_snoc es e)

  -- The lines of an intact journal and one entry more, with what was asked to be recorded.
  pub record Extended (direction message status : String) (before after : List (Line Body))
      : Type 0 where
    pub old : List (Entry Body)
    pub body : Body
    pub was_intact : IsIntact before old
    pub is_intact : IsIntact after (old ++ (sealed digest body ∷ []))
    pub direction_is : body.direction ≡ direction
    pub message_is : body.message ≡ message
    pub status_is : body.verification_status ≡ status

  append_after-Extended :
      (timestamp direction message status : String) (lines after : List (Line Body))
      (es : List (Entry Body))
      → IsIntact lines es
      → append_after digest timestamp direction message status lines (last_hash lines) ≡ ok after
      → Extended direction message status lines after
  append_after-Extended timestamp direction message status lines after es i h =
      elim (Result-cases (last_hash lines)) [
        | inr e ↦ let clash : audit_error ≡ ok after = rw e at h in cc
        | inl (previous, e) ↦
            let body : Body = record {
              timestamp = timestamp;
              direction = direction;
              message = message;
              verification_status = status;
              previous_hash = previous;
            } in
            let written : ok (lines ++ (entry (sealed digest body) ∷ [])) ≡ ok after = rw e at h in
            let is : lines ++ (entry (sealed digest body) ∷ []) ≡ after = cc in
            let hash = last_hash_chain es previous (ap last_hash (sym i.lines_are) ∙ e) in
            record {
              old = es;
              body = body;
              was_intact = i;
              is_intact = record {
                lines_are =
                    sym is
                    ∙ (ap (λ ls. ls ++ (entry (sealed digest body) ∷ [])) i.lines_are
                        ∙ map_snoc es (sealed digest body));
                chained = verify_snoc link digest none es body i.chained (sym hash);
              };
              direction_is = refl;
              message_is = refl;
              status_is = refl;
            }
      ]

  -- When a message is recorded, the journal was intact, and it is the old journal and one entry
  -- with the direction, the message and the status, and intact again.
  pub append-Extended :
      (timestamp direction message status : String) (lines after : List (Line Body))
      → append digest timestamp direction message status lines ≡ ok after
      → Extended direction message status lines after
  unfolding append
  append-Extended timestamp direction message status lines after h =
      elim (Bool-cases (direction == "IN" || direction == "OUT")) [
        | inr d ↦ let clash : audit_error ≡ ok after = rw (d, append) at h in cc
        | inl d ↦ elim (Bool-cases (status == "")) [
          | inl s ↦ let clash : audit_error ≡ ok after = rw (d, append, s) at h in cc
          | inr s ↦ elim (Result-cases (verify_lines digest none lines)) [
            | inr v ↦ let clash : audit_error ≡ ok after = rw (d, append, s, v) at h in cc
            | inl (b, v) ↦ elim (Bool-cases b) [
              | inr f ↦
                  let clash : audit_error ≡ ok after = rw (d, append, s, v ∙ ap ok f) at h in cc
              | inl t ↦
                  let (es, same, good) = lines_chain none lines (v ∙ ap ok t) in
                  append_after-Extended timestamp direction message status lines after es
                    (record { lines_are = same; chained = good })
                    (rw (d, append, s, v ∙ ap ok t) at h)
            ]
          ]
        ]
      ]

  module _ (long : (b : Body) → has_length 64 (digest b) ≡ true) where
    hash_exists :
        (e : Entry Body) (es : List (Entry Body))
        → e.own_hash ≡ some (digest e.body)
        → verify_from link digest (some (digest e.body)) es ≡ true
        → (h : Option String) × (hash_of_line (last_line (some (entry e)) (map entry es)) ≡ ok h)
    hash_exists e [] o v = (some (digest e.body), rw (o, long e.body) refl)
    hash_exists e (f ∷ es) o v =
        let (l, p, rest) = verify_parts link digest (some (digest e.body)) f es v in
        hash_exists f es p rest

    last_hash_exists :
        (es : List (Entry Body))
        → verify_from link digest none es ≡ true
        → (h : Option String) × (last_hash (map entry es) ≡ ok h)
    unfolding last_hash
    last_hash_exists [] v = (none, refl)
    last_hash_exists (e ∷ es) v =
        let (l, o, rest) = verify_parts link digest none e es v in hash_exists e es o rest

    -- Where hashes have 64 characters, a message with a direction of IN or OUT and a status that is
    -- not empty is recorded in every intact journal.
    pub append_ends :
        (timestamp direction message status : String) (lines : List (Line Body))
        (es : List (Entry Body))
        → IsIntact lines es
        → (direction == "IN" || direction == "OUT") ≡ true
        → (status == "") ≡ false
        → (after : List (Line Body)) × (append digest timestamp direction message status lines
            ≡ ok after)
    unfolding append
    append_ends timestamp direction message status lines es i d s =
        let (h, last) = last_hash_exists es i.chained in
        let read : last_hash lines ≡ ok h = ap last_hash i.lines_are ∙ last in
        let good : verify_lines digest none lines ≡ ok true =
          ap (verify_lines digest none) i.lines_are ∙ chain_lines none es i.chained in
        let body : Body = record {
          timestamp = timestamp;
          direction = direction;
          message = message;
          verification_status = status;
          previous_hash = h;
        } in
        (lines ++ (entry (sealed digest body) ∷ []), rw (d, append, s, good, read) refl)

  -- Two intact journals with as many entries and the same last hash, where no two bodies of them
  -- that differ have the same hash, are the same.
  pub intact_agree :
      (xs ys : List (Line Body)) (es fs : List (Entry Body))
      → IsIntact xs es
      → IsIntact ys fs
      → length es ≡ length fs
      → last_or_hash link digest none es ≡ last_or_hash link digest none fs
      → ((a b : Entry Body)
          → Member a es
          → Member b fs
          → digest a.body ≡ digest b.body
          → a.body ≡ b.body)
      → xs ≡ ys
  intact_agree xs ys es fs i j n l free =
      let (same, start) = chains_agree link digest none none es fs i.chained j.chained n l free in
      i.lines_are ∙ (ap (map entry) same ∙ sym j.lines_are)
