-- ===== src/Journal/Audit.antt =====
-- src/asc_orchestrator/audit.py: the audit journal of messages.
use asc_orchestrator_v.Base.{
  ℕ, zero, suc, String, Bool, true, false, not, ◌||◌, Option, none, some, List, [], ◌∷◌, ◌++◌, ◌==◌,
  if◌then◌else◌,
}
use asc_orchestrator_v.Journal.Chain.{Entry, same_hash}

-- The object of an entry without `entry_hash`.
pub record Body : Type 0 where
  pub timestamp : String
  pub direction : String
  pub message : String
  pub verification_status : String
  pub previous_hash : Option String

-- A line of the file: blank, not a JSON object, or an entry.
pub data Line (B : Type 0) : Type 0 where
  blank bad_json : Line B
  entry : Entry B → Line B

-- A call returns, or raises `AuditError`.
pub data Result (A : Type 0) : Type 0 where
  ok : A → Result A
  audit_error : Result A

abbrev extend : {B : Type 0} → Entry B → Result (List (Entry B)) → Result (List (Entry B))
extend e (ok es) = ok (e ∷ es)
extend e audit_error = audit_error

-- `entries`, read to the end
unfoldable pub entries : {B : Type 0} → List (Line B) → Result (List (Entry B))
entries [] = ok []
entries (blank ∷ lines) = audit_error
entries (bad_json ∷ lines) = audit_error
entries (entry e ∷ lines) = extend e (entries lines)

-- The number of characters of a text is the given one.
abbrev pub has_length : ℕ → String → Bool
has_length zero String.[] = true
has_length zero (String.◌∷◌ c s) = false
has_length (suc n) String.[] = false
has_length (suc n) (String.◌∷◌ c s) = has_length n s

abbrev pub last_line : {B : Type 0} → Option (Line B) → List (Line B) → Option (Line B)
last_line last [] = last
last_line last (blank ∷ lines) = last_line last lines
last_line last (bad_json ∷ lines) = last_line (some bad_json) lines
last_line last (entry e ∷ lines) = last_line (some (entry e)) lines

abbrev pub hash_of_line : {B : Type 0} → Option (Line B) → Result (Option String)
hash_of_line none = ok none
hash_of_line (some blank) = ok none
hash_of_line (some bad_json) = audit_error
hash_of_line (some (entry e)) = elim e.own_hash [
  | none ↦ audit_error
  | some h ↦ if has_length 64 h then ok (some h) else audit_error
]

-- `_last_hash`: of the last line that is not blank.
unfoldable pub last_hash : {B : Type 0} → List (Line B) → Result (Option String)
last_hash lines = hash_of_line (last_line none lines)

-- `_entry_hash` is the SHA-256 of the canonical JSON of the body.
module _ (digest : Body → String) where
  -- `verify_chain`, whose loop stops at the first entry that is wrong.
  unfoldable pub verify_lines : Option String → List (Line Body) → Result Bool
  verify_lines previous [] = ok true
  verify_lines previous (blank ∷ lines) = audit_error
  verify_lines previous (bad_json ∷ lines) = audit_error
  verify_lines previous (entry e ∷ lines) =
      let rest = verify_lines (some (digest e.body)) lines in
      if not (same_hash e.body.previous_hash previous)
      then ok false
      else if not (same_hash e.own_hash (some (digest e.body)))
      then ok false
      else rest

  abbrev pub sealed : Body → Entry Body
  sealed body = record { body = body; own_hash = some (digest body) }

  abbrev pub append_after :
      String
      → String
      → String
      → String
      → List (Line Body)
      → Result (Option String)
      → Result (List (Line Body))
  append_after timestamp direction message status lines audit_error = audit_error
  append_after timestamp direction message status lines (ok previous) = ok (
      lines
      ++ (entry (
            sealed (record {
              timestamp = timestamp;
              direction = direction;
              message = message;
              verification_status = status;
              previous_hash = previous;
            }))
          ∷ []))

  abbrev pub append_verified :
      String → String → String → String → List (Line Body) → Result Bool → Result (List (Line Body))
  append_verified timestamp direction message status lines audit_error = audit_error
  append_verified timestamp direction message status lines (ok false) = audit_error
  append_verified timestamp direction message status lines (ok true) =
      append_after timestamp direction message status lines (last_hash lines)

  -- `append` of a message that is text.
  unfoldable pub append :
      String → String → String → String → List (Line Body) → Result (List (Line Body))
  unfolding verify_lines last_hash
  append timestamp direction message status lines =
      if not (direction == "IN" || direction == "OUT")
      then audit_error
      else if status == ""
      then audit_error
      else append_verified timestamp direction message status lines (verify_lines none lines)
