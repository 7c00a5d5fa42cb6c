-- ===== src/Agent/Reads.antt =====
-- src/asc_orchestrator/agent.py: the methods that only read, on the agents of a loaded state.
use asc_orchestrator_v.Base.{
  ℕ, ◌+◌, ◌≡◌, refl, inl, inr, String, Bool, true, ◌&&◌, Option, none, some, List, [], ◌∷◌, length,
  count_if, arith, ◌==◌, eq_iff, if◌then◌else◌, Bool-cases,
}
use asc_orchestrator_v.Base.Dict.{Dict, lookup, insert, lookup-insert, values}
use asc_orchestrator_v.Agent.Types.{AgentStatus, Agent, same_status, status_text}

-- `agent.get("status") != status`, where a status is wanted
abbrev has_status : Option AgentStatus → Agent → Bool
has_status none a = true
has_status (some s) a = same_status a.status s

-- `a_mission is not None and a_mission != mission_id`, where a mission is wanted, negated
abbrev on_mission : Option String → Option String → Bool
on_mission none m = true
on_mission (some wanted) none = true
on_mission (some wanted) (some m) = m == wanted

-- The loop of `list`, before the sort.
unfoldable pub listed : Option AgentStatus → Option String → Dict Agent → List Agent
listed status mission [] = []
listed status mission ((k, a) ∷ agents) =
    let rest = listed status mission agents in
    if has_status status a && on_mission mission a.mission_id then a ∷ rest else rest

-- `counts.get(s, 0)`
abbrev or_zero : Option ℕ → ℕ
or_zero none = 0
or_zero (some n) = n

abbrev pub count_of : String → Dict ℕ → ℕ
count_of s counts = or_zero (lookup s counts)

-- The loop of `report`: `counts[s] = counts.get(s, 0) + 1`.
unfoldable pub tally : Dict Agent → Dict ℕ → Dict ℕ
tally [] counts = counts
tally ((k, a) ∷ agents) counts =
    let s = status_text a.status in tally agents (insert s (count_of s counts + 1) counts)

-- `sum(counts.values())`
abbrev pub sum_of : List ℕ → ℕ
sum_of [] = 0
sum_of (n ∷ ns) = n + sum_of ns

count_cons :
    (s k : String) (n : ℕ) (counts : Dict ℕ)
    → count_of s ((k, n) ∷ counts) ≡ (if k == s then n else count_of s counts)
count_cons s k n counts = elim (Bool-cases (k == s)) [
  | inl e ↦ rw (e, or_zero) refl
  | inr e ↦ rw (e, or_zero) refl
]

sum_cons :
    (s k : String) (n v : ℕ) (counts : Dict ℕ)
    → sum_of (values (insert s v ((k, n) ∷ counts)))
      ≡ (if k == s then v + sum_of (values counts) else n + sum_of (values (insert s v counts)))
sum_cons s k n v counts = elim (Bool-cases (k == s)) [ inl e ↦ rw e refl | inr e ↦ rw e refl ]

-- Setting a count adds what it has over the old one.
sum_set :
    (s : String) (v : ℕ) (counts : Dict ℕ)
    → sum_of (values (insert s v counts)) + count_of s counts ≡ sum_of (values counts) + v
sum_set s v [] = omega arith
sum_set s v ((k, n) ∷ counts) =
    ground (arith, sum_set s v counts, count_cons s k n counts, sum_cons s k n v counts)

sum-insert :
    (s : String) (counts : Dict ℕ)
    → sum_of (values (insert s (count_of s counts + 1) counts)) ≡ sum_of (values counts) + 1
sum-insert s counts = omega (arith, sum_set s (count_of s counts + 1) counts)

-- The total of a report is the number of agents, and a status is counted once for each agent of it.
pub sum-tally :
    (agents : Dict Agent) (counts : Dict ℕ)
    → sum_of (values (tally agents counts)) ≡ length agents + sum_of (values counts)
unfolding tally
sum-tally [] counts = omega arith
sum-tally ((k, a) ∷ agents) counts =
    let s = status_text a.status in
    omega (arith, sum-tally agents (insert s (count_of s counts + 1) counts), sum-insert s counts)

count-insert :
    (s t : String) (counts : Dict ℕ)
    → count_of t (insert s (count_of s counts + 1) counts)
      ≡ (if s == t then count_of t counts + 1 else count_of t counts)
count-insert s t counts =
    ground (arith, eq_iff s t, lookup-insert s t (count_of s counts + 1) counts)

pub count-tally :
    (t : String) (agents : Dict Agent) (counts : Dict ℕ)
    → count_of t (tally agents counts)
      ≡ count_if (λ r. status_text r.1.status == t) agents + count_of t counts
unfolding tally
count-tally t [] counts = omega arith
count-tally t ((k, a) ∷ agents) counts =
    let s = status_text a.status in
    ground (
      arith,
      count-tally t agents (insert s (count_of s counts + 1) counts),
      count-insert s t counts,
    )
