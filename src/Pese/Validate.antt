-- ===== src/Pese/Validate.antt =====
-- src/asc_orchestrator/pese.py: `_validate_envelope` and `validate`.
use asc_orchestrator_v.Base.{
  ℕ, ◌+◌, String, Bool, ◌&&◌, Option, none, some, List, [], ◌∷◌, ◌++◌, map, nat_eq, ltb, leb, ◌==◌,
  if◌then◌else◌,
}
use asc_orchestrator_v.Pese.Types.{
  Code, schema_invalid, state_chain_invalid, other_code, other_code, Envelope, File, missing,
  unreadable, readable, LockFile, Finding, no_history, live_differs, live_unreadable, lock_invalid,
  unverified_stale_lock, bad_history, bad_envelope, side_finding, Disk, Rules,
}

-- `ZERO_HASH`
abbrev pub zero_hash : String
zero_hash = "0000000000000000000000000000000000000000000000000000000000000000"

-- `_validate_lock`
unfoldable pub validate_lock : ℕ → File LockFile → List Finding
validate_lock now missing = []
validate_lock now unreadable = lock_invalid ∷ []
validate_lock now (readable l) =
    if ltb l.lease_expires_at now then unverified_stale_lock ∷ [] else []

-- The files of the history that can be read, and a finding for each other.
unfoldable pub readable_records :
    {S : Type 0} → List (ℕ × File (Envelope S)) → List (ℕ × Envelope S)
readable_records [] = []
readable_records ((n, readable e) ∷ files) = (n, e) ∷ readable_records files
readable_records ((n, missing) ∷ files) = readable_records files
readable_records ((n, unreadable) ∷ files) = readable_records files

unfoldable pub bad_files : {S : Type 0} → List (ℕ × File (Envelope S)) → List Finding
bad_files [] = []
bad_files ((n, readable e) ∷ files) = bad_files files
bad_files ((n, missing) ∷ files) = bad_history n ∷ bad_files files
bad_files ((n, unreadable) ∷ files) = bad_history n ∷ bad_files files

abbrev pub history_empty : {S : Type 0} → List (ℕ × Envelope S) → List Finding
history_empty [] = no_history ∷ []
history_empty (r ∷ records) = []

-- What a check raises.
abbrev pub raised_by : Option String → Option Code
raised_by none = none
raised_by (some code) = some (other_code code)

-- What one turn of the loop over the records carries on: the hash and the record before.
pub record Walk (S : Type 0) : Type 0 where
  pub previous : String
  pub last : Option (Envelope S)
  pub findings : List Finding

module _ {S X : Type 0} (rules : Rules S X) where
  -- `_validate_envelope`, by what it raises.
  unfoldable pub validate_envelope : Envelope S → Option Code
  validate_envelope e =
      let c = e.content in
      if leb 1 c.revision && (rules.is_hash c.state_sha256 && rules.is_hash e.file_sha256)
      then (if (c.state_sha256 == rules.state_hash c.state) && (e.file_sha256 == rules.file_hash c)
          then raised_by (rules.check_shape c.state)
          else some state_chain_invalid)
      else some schema_invalid

  -- `revision != expected or envelope["revision"] != revision or …`, negated.
  unfoldable pub continues : ℕ → ℕ → String → Envelope S → Bool
  continues expected revision previous e =
      nat_eq revision expected
      && (nat_eq e.content.revision revision
          && (nat_eq (e.content.previous_revision + 1) revision
              && (e.content.previous_state_sha256 == previous)))

  -- The body of the loop over the records, for one of them.
  unfoldable pub visit : ℕ → ℕ → Envelope S → Walk S → Walk S
  unfolding validate_envelope continues
  visit expected revision e w = elim (validate_envelope e) [
    | some code ↦ record w { findings = w.findings ++ (bad_envelope revision code ∷ []) }
    | none ↦
        if continues expected revision w.previous e
        then record w { previous = e.content.state_sha256; last = some e }
        else record w { findings = w.findings ++ (bad_envelope revision state_chain_invalid ∷ []) }
  ]

  -- `for expected, (revision, file, envelope) in enumerate(records, 1)`
  unfoldable pub walk : ℕ → List (ℕ × Envelope S) → Walk S → Walk S
  unfolding visit
  walk expected [] w = w
  walk expected ((revision, e) ∷ records) w =
      walk (expected + 1) records (visit expected revision e w)

  -- live.json against the last record.
  unfoldable pub check_live : File (Envelope S) → Envelope S → List Finding
  check_live missing last = live_differs ∷ []
  check_live unreadable last = live_unreadable ∷ []
  check_live (readable live) last =
      if rules.canonical_json live == rules.canonical_json last then [] else live_differs ∷ []

  abbrev pub check_last : Bool → Disk S X → Option (Envelope S) → List Finding
  check_last migrations d none = []
  check_last migrations d (some last) =
      check_live d.live last ++ map side_finding (rules.side_findings migrations d.side last)

  -- `validate(check_repository=False)`: the findings, for a history that is
  -- listed in the order of its numbers. `now` is the instant of the lock's check.
  unfoldable pub validate : Bool → Bool → ℕ → Disk S X → List Finding
  unfolding validate_lock readable_records bad_files walk check_live
  validate check_lock check_migrations now d =
      let records = readable_records d.history in
      let w = walk 1 records (record { previous = zero_hash; last = none; findings = [] }) in
      (if check_lock then validate_lock now d.lock else [])
      ++ (bad_files d.history
          ++ (history_empty records ++ (w.findings ++ check_last check_migrations d w.last)))
