-- ===== src/Pese/Valid.antt =====
-- The stores that `validate` finds nothing wrong with.
use asc_orchestrator_v.Base.{
  ℕ, ◌≡◌, refl, sym, ◌∙◌, ap, ◌↔◌, inl, inr, String, Bool, none, some, List, [], ◌∷◌, ◌++◌, map,
  ◌==◌, str_eq_refl, str_eq→eq, if◌then◌else◌, Bool-cases,
}
use asc_orchestrator_v.Pese.Types.{
  Envelope, File, missing, unreadable, readable, LockFile, Finding, live_differs, side_finding,
  Disk, Rules,
}
use asc_orchestrator_v.Pese.Validate.{
  zero_hash, validate_lock, readable_records, bad_files, history_empty, Walk, walk, check_live,
  check_last, validate,
}
use asc_orchestrator_v.Pese.Chain.{last_or, IsChain, bad_files_none, walk_chain, chain_walk}

append_none : {A : Type 0} (xs ys : List A) → xs ++ ys ≡ [] → (xs ≡ []) × (ys ≡ [])
append_none [] ys h = (refl, h)
append_none (x ∷ xs) ys h = cc

map_none : (xs : List String) → map side_finding xs ≡ [] → xs ≡ []
map_none [] h = refl
map_none (x ∷ xs) h = cc

module _ {S X : Type 0} (rules : Rules S X) where
  -- A history in order, with a last envelope that live.json holds. What `validate` asks of the
  -- lock and of the other files stands apart, in `lock_findings` and `IsClean`.
  pub record IsValid (d : Disk S X) : Type 0 where
    pub chain : IsChain rules 1 zero_hash d.history
    pub top : Envelope S
    pub ends : last_or none d.history ≡ some top
    pub live_is : d.live ≡ readable top

  -- The other files are as the checks want them, for the envelope on top.
  abbrev pub IsClean : Bool → Disk S X → Envelope S → Type 0
  IsClean migrations d top = rules.side_findings migrations d.side top ≡ []

  -- live.json and the last file are equal when their canonical texts are.
  abbrev pub JsonInjective : Disk S X → Type 0
  JsonInjective d =
      (a b : Envelope S)
      → d.live ≡ readable a
      → last_or none d.history ≡ some b
      → rules.canonical_json a ≡ rules.canonical_json b
      → a ≡ b

  pub history_nonempty :
      (files : List (ℕ × File (Envelope S))) (top : Envelope S)
      → last_or none files ≡ some top
      → history_empty (readable_records files) ≡ []
  unfolding readable_records
  history_nonempty [] top h = cc
  history_nonempty ((n, missing) ∷ files) top h = history_nonempty files top h
  history_nonempty ((n, unreadable) ∷ files) top h = history_nonempty files top h
  history_nonempty ((n, readable e) ∷ files) top h = refl

  last_exists :
      (e : Envelope S) (files : List (ℕ × File (Envelope S)))
      → (top : Envelope S) × (last_or (some e) files ≡ some top)
  last_exists e [] = (e, refl)
  last_exists e ((n, missing) ∷ files) = last_exists e files
  last_exists e ((n, unreadable) ∷ files) = last_exists e files
  last_exists e ((n, readable f) ∷ files) = last_exists f files

  nonempty_last :
      (files : List (ℕ × File (Envelope S)))
      → history_empty (readable_records files) ≡ []
      → (top : Envelope S) × (last_or none files ≡ some top)
  unfolding readable_records
  nonempty_last [] h = cc
  nonempty_last ((n, missing) ∷ files) h = nonempty_last files h
  nonempty_last ((n, unreadable) ∷ files) h = nonempty_last files h
  nonempty_last ((n, readable e) ∷ files) h = last_exists e files

  check_live_same : (top : Envelope S) → check_live rules (readable top) top ≡ []
  unfolding check_live
  check_live_same top = rw (str_eq_refl (rules.canonical_json top)) refl

  live_same :
      (live : File (Envelope S)) (top : Envelope S)
      → ((a : Envelope S)
          → live ≡ readable a
          → rules.canonical_json a ≡ rules.canonical_json top
          → a ≡ top)
      → check_live rules live top ≡ []
      → live ≡ readable top
  unfolding check_live
  live_same missing top inj h = cc
  live_same unreadable top inj h = cc
  live_same (readable live) top inj h =
      elim (Bool-cases (rules.canonical_json live == rules.canonical_json top)) [
        | inl same ↦
            ap readable (
              inj live refl (str_eq→eq (rules.canonical_json live) (rules.canonical_json top) same))
        | inr differ ↦ let clash : live_differs ∷ [] ≡ [] = rw (differ, check_live) at h in cc
      ]

  abbrev pub start : Walk S
  start = record { previous = zero_hash; last = none; findings = [] }

  abbrev pub lock_findings : Bool → ℕ → File LockFile → List Finding
  lock_findings check_lock now lock = if check_lock then validate_lock now lock else []

  -- A valid store with clean other files and no fault of the lock has no findings.
  pub validate_valid :
      (check_lock migrations : Bool) (now : ℕ) (d : Disk S X)
      → lock_findings check_lock now d.lock ≡ []
      → (v : IsValid d) → IsClean migrations d v.top
      → validate rules check_lock migrations now d ≡ []
  unfolding validate
  validate_valid check_lock migrations now d l v clean =
      let (f, last) = walk_chain rules 1 d.history start v.chain in
      let live_ok : check_live rules d.live v.top ≡ [] =
        ap (λ file. check_live rules file v.top) v.live_is ∙ check_live_same v.top in
      rw
        (
          l,
          bad_files_none rules 1 zero_hash d.history v.chain,
          history_nonempty d.history v.top v.ends,
          f,
          last,
          v.ends,
          live_ok,
          clean,
        )
        refl

  pub valid_validate :
      (check_lock migrations : Bool) (now : ℕ) (d : Disk S X) (inj : JsonInjective d)
      → validate rules check_lock migrations now d ≡ []
      → (lock_findings check_lock now d.lock ≡ []) × ((v : IsValid d) × IsClean migrations d v.top)
  unfolding validate
  valid_validate check_lock migrations now d inj h =
      let records = readable_records d.history in
      let w = walk rules 1 records start in
      let (l, h₁) =
        append_none (lock_findings check_lock now d.lock)
          (bad_files d.history
            ++ (history_empty records ++ (w.findings ++ check_last rules migrations d w.last)))
          h in
      let (b, h₂) =
        append_none (bad_files d.history)
          (history_empty records ++ (w.findings ++ check_last rules migrations d w.last)) h₁ in
      let (e, h₃) =
        append_none (history_empty records) (w.findings ++ check_last rules migrations d w.last)
          h₂ in
      let (f, h₄) = append_none w.findings (check_last rules migrations d w.last) h₃ in
      let chain = chain_walk rules 1 d.history start b f in
      let (top, ends) = nonempty_last d.history e in
      let (same, last) = walk_chain rules 1 d.history start chain in
      let checked : check_live rules d.live top
            ++ map side_finding (rules.side_findings migrations d.side top)
          ≡ [] =
        ap (check_last rules migrations d) (sym (last ∙ ends)) ∙ h₄ in
      let (live_ok, clean) =
        append_none (check_live rules d.live top)
          (map side_finding (rules.side_findings migrations d.side top)) checked in
      (
        l,
        (
          record {
            chain = chain;
            top = top;
            ends = ends;
            live_is = live_same d.live top (λ a l. inj a top l ends) live_ok;
          },
          map_none (rules.side_findings migrations d.side top) clean,
        ),
      )

  -- Where live.json and the last file are equal when their canonical texts are, `validate` finds
  -- nothing exactly when the lock, if it is looked at, is in order, the history is one chain whose last envelope live.json
  -- holds, and the checks of the other files find nothing.
  pub validate_iff :
      (check_lock migrations : Bool) (now : ℕ) (d : Disk S X) (inj : JsonInjective d)
      → (validate rules check_lock migrations now d ≡ []) ↔ (
          (lock_findings check_lock now d.lock ≡ [])
          × ((v : IsValid d) × IsClean migrations d v.top))
  validate_iff check_lock migrations now d inj = (
    valid_validate check_lock migrations now d inj,
    λ (l, (v, clean)). validate_valid check_lock migrations now d l v clean,
  )
