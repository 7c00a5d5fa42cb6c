-- ===== src/Pese/Chain.antt =====
-- A history that is one chain, stated without the loop of `validate`, and that the loop accepts
-- it and nothing else.
use asc_orchestrator_v.Base.{
  ℕ, ◌+◌, ◌≡◌, refl, sym, ◌∙◌, ap, ◌⊎◌, inl, inr, String, true, Option, none, some, List, [], ◌∷◌,
  ◌++◌, eq_iff, arith, Bool-cases, Option-cases,
}
use asc_orchestrator_v.Pese.Types.{
  state_chain_invalid, Envelope, File, missing, unreadable, readable, Finding, bad_envelope, Rules,
}
use asc_orchestrator_v.Pese.Validate.{
  readable_records, bad_files, Walk, validate_envelope, continues, visit, walk,
}

-- The last envelope of a history, or what was there before it.
abbrev pub last_or :
    {S : Type 0} → Option (Envelope S) → List (ℕ × File (Envelope S)) → Option (Envelope S)
last_or o [] = o
last_or o ((n, missing) ∷ files) = last_or o files
last_or o ((n, unreadable) ∷ files) = last_or o files
last_or o ((n, readable e) ∷ files) = last_or (some e) files

module _ {S X : Type 0} (rules : Rules S X) where
  -- An envelope that has the given number and follows the envelope with the given hash.
  pub record IsLink (next : ℕ) (previous : String) (e : Envelope S) : Type 0 where
    pub number : e.content.revision ≡ next
    pub parent : e.content.previous_revision + 1 ≡ next
    pub linked : e.content.previous_state_sha256 ≡ previous
    pub accepted : validate_envelope rules e ≡ none

  -- Every file is readable, has the next number and is linked to the one before.
  abbrev pub IsChain : ℕ → String → List (ℕ × File (Envelope S)) → Type 0
  IsChain next previous [] = Unit
  IsChain next previous ((n, missing) ∷ files) = ⊥
  IsChain next previous ((n, unreadable) ∷ files) = ⊥
  IsChain next previous ((n, readable e) ∷ files) =
      (n ≡ next) × IsLink next previous e × IsChain (next + 1) e.content.state_sha256 files

  pub bad_files_none :
      (next : ℕ) (previous : String) (files : List (ℕ × File (Envelope S)))
      → IsChain next previous files
      → bad_files files ≡ []
  unfolding bad_files
  bad_files_none next previous [] c = refl
  bad_files_none next previous ((n, missing) ∷ files) c = absurd c
  bad_files_none next previous ((n, unreadable) ∷ files) c = absurd c
  bad_files_none next previous ((n, readable e) ∷ files) (k, l, c) =
      bad_files_none (next + 1) e.content.state_sha256 files c

  visit_link :
      (next n : ℕ) (e : Envelope S) (w : Walk S)
      → n ≡ next
      → IsLink next w.previous e
      → visit rules next n e w ≡ record w { previous = e.content.state_sha256; last = some e }
  unfolding visit continues
  visit_link next n e w k l =
      let here : continues rules next n w.previous e ≡ true =
        ground (arith, k, l.number, l.parent, eq_iff e.content.previous_state_sha256 w.previous) in
      rw (l.accepted, visit, here) refl

  visit_cases :
      (next n : ℕ) (e : Envelope S) (w : Walk S)
      → ((n ≡ next) × IsLink next w.previous e)
        ⊎ ((f : Finding) × ((visit rules next n e w).findings ≡ w.findings ++ (f ∷ [])))
  unfolding visit continues
  visit_cases next n e w = elim (Option-cases (validate_envelope rules e)) [
    | inr (code, bad) ↦ inr (bad_envelope n code, rw (bad, visit) refl)
    | inl good ↦ elim (Bool-cases (continues rules next n w.previous e)) [
      | inr off ↦ inr (bad_envelope n state_chain_invalid, rw (good, visit, off) refl)
      | inl on ↦ inl (
        ground arith,
        record {
          number = ground arith;
          parent = ground arith;
          linked = ground (arith, eq_iff e.content.previous_state_sha256 w.previous);
          accepted = good;
        },
      )
    ]
  ]

  -- The loop accepts a chain, and ends at its last envelope.
  pub walk_chain :
      (next : ℕ) (files : List (ℕ × File (Envelope S))) (w : Walk S)
      → IsChain next w.previous files
      → ((walk rules next (readable_records files) w).findings ≡ w.findings)
        × ((walk rules next (readable_records files) w).last ≡ last_or w.last files)
  unfolding walk readable_records
  walk_chain next [] w c = (refl, refl)
  walk_chain next ((n, missing) ∷ files) w c = absurd c
  walk_chain next ((n, unreadable) ∷ files) w c = absurd c
  walk_chain next ((n, readable e) ∷ files) w (k, l, c) =
      rw (walk, visit_link next n e w k l)
        (walk_chain (next + 1) files (record w { previous = e.content.state_sha256; last = some e })
          c)

  snoc_nonempty : {A : Type 0} (xs : List A) (x : A) → ¬ (xs ++ (x ∷ []) ≡ [])
  snoc_nonempty [] x = λ h. cc
  snoc_nonempty (y ∷ ys) x = λ h. cc

  -- The loop never takes a finding back.
  walk_keeps :
      (next : ℕ) (records : List (ℕ × Envelope S)) (w : Walk S)
      → (walk rules next records w).findings ≡ []
      → w.findings ≡ []
  unfolding walk
  walk_keeps next [] w h = h
  walk_keeps next ((n, e) ∷ records) w h =
      let before = walk_keeps (next + 1) records (visit rules next n e w) h in
      elim (visit_cases next n e w) [
        | inl (k, l) ↦ ap (λ v. v.findings) (sym (visit_link next n e w k l)) ∙ before
        | inr (f, more) ↦ absurd (snoc_nonempty w.findings f (sym more ∙ before))
      ]

  -- The loop accepts nothing but a chain.
  pub chain_walk :
      (next : ℕ) (files : List (ℕ × File (Envelope S))) (w : Walk S)
      → bad_files files ≡ []
      → (walk rules next (readable_records files) w).findings ≡ []
      → IsChain next w.previous files
  unfolding walk readable_records bad_files
  chain_walk next [] w b h = tt
  chain_walk next ((n, missing) ∷ files) w b h = cc
  chain_walk next ((n, unreadable) ∷ files) w b h = cc
  chain_walk next ((n, readable e) ∷ files) w b h = elim (visit_cases next n e w) [
    | inl (k, l) ↦ (
      k,
      l,
      chain_walk (next + 1) files (record w { previous = e.content.state_sha256; last = some e }) b
          (rw (walk, visit_link next n e w k l) at h),
    )
    | inr (f, more) ↦ absurd (
        snoc_nonempty w.findings f
          (sym more ∙ walk_keeps (next + 1) (readable_records files) (visit rules next n e w) h))
  ]
