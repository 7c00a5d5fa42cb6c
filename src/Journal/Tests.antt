-- ===== src/Journal/Tests.antt =====
-- The audit journal at concrete inputs.
use asc_orchestrator_v.Base.{◌≡◌, refl, inl, inr, true, String, none, some, List, [], ◌∷◌}
use asc_orchestrator_v.Journal.Chain.{verify_from}
use asc_orchestrator_v.Journal.Audit.{Body, Line, entry, ok, sealed, append}
use asc_orchestrator_v.Journal.Events.{Event, Given, done, event_of, sealed_event, record_event}
use asc_orchestrator_v.Journal.Numbers.{Continued, record_event-Continued}
use asc_orchestrator_v.Journal.Append.{
  link, IsIntact, Extended, append-Extended, append_ends, intact_agree,
}

abbrev digest : Body → String
digest b = "0123456789012345678901234567890123456789012345678901234567890123"

abbrev first_body : Body
first_body = record {
  timestamp = "t";
  direction = "IN";
  message = "hello";
  verification_status = "VERIFIED";
  previous_hash = none;
}

abbrev first_line : List (Line Body)
first_line = entry (sealed digest first_body) ∷ []

abbrev second_body : Body
second_body = record first_body {
  direction = "OUT";
  previous_hash = some "0123456789012345678901234567890123456789012345678901234567890123";
}

abbrev two_lines : List (Line Body)
two_lines = entry (sealed digest first_body) ∷ entry (sealed digest second_body) ∷ []

appended : append digest "t" "OUT" "hello" "VERIFIED" first_line ≡ ok two_lines
unfolding append
appended = refl

append-Extended_example : Extended digest "OUT" "hello" "VERIFIED" first_line two_lines
append-Extended_example =
    append-Extended digest "t" "OUT" "hello" "VERIFIED" first_line two_lines appended

first_chained : verify_from link digest none (sealed digest first_body ∷ []) ≡ true
unfolding verify_from
first_chained = refl

abbrev first_intact : IsIntact digest first_line (sealed digest first_body ∷ [])
first_intact = record { lines_are = refl; chained = first_chained }

append_ends_example :
    (after : List (Line Body)) × (append digest "t" "OUT" "hello" "VERIFIED" first_line ≡ ok after)
append_ends_example =
    append_ends digest (λ b. refl) "t" "OUT" "hello" "VERIFIED" first_line
      (sealed digest first_body ∷ []) first_intact refl refl

intact_agree_example : first_line ≡ first_line
intact_agree_example =
    intact_agree digest first_line first_line (sealed digest first_body ∷ [])
      (sealed digest first_body ∷ []) first_intact first_intact refl refl
      (λ a b i j h. elim i [
        | inl p ↦ (elim j [ inl q ↦ cc | inr q ↦ absurd q ])
        | inr p ↦ absurd p
      ])

abbrev event_digest : Event → String
event_digest e = "0123456789012345678901234567890123456789012345678901234567890123"

abbrev started : Given
started = record {
  occurred_at = "t";
  event_type = "SESSION_STARTED";
  mission_id = "MISSION:1";
  assignment_id = none;
  actor_agent_id = "AGENT:a";
  pese_revision = some 1;
  pese_state_sha256 = none;
  detail = "{}";
}

abbrev one_event : List (Line Event)
one_event = entry (sealed_event event_digest (event_of started 1 none)) ∷ []

abbrev two_events : List (Line Event)
two_events =
    entry (sealed_event event_digest (event_of started 1 none))
    ∷ entry (
        sealed_event event_digest (
          event_of started 2
            (some "0123456789012345678901234567890123456789012345678901234567890123")))
    ∷ []

event_recorded : record_event event_digest started one_event ≡ done two_events
unfolding record_event
event_recorded = refl

record_event-Continued_example : Continued event_digest started one_event two_events
record_event-Continued_example =
    record_event-Continued event_digest started one_event two_events event_recorded
