-- ===== src/Fulfillment/Accepted.antt =====
-- What comes of a call of `accept` of src/sarmady/context/fulfillment.py.
use sarmady.Prelude.{ℕ, ℤ, ltb_ℤ, ◌≡◌, true, Option, some}
use sarmady.Outcome.{Outcome, err, value_error, ◌>>=◌}
use sarmady.Host.{Host}
use sarmady.Context.{ContextRequest, first_some}
use sarmady.Cognition.{ContextNeedDecision}
use sarmady.Store.{Db}
use sarmady.Store.ContextNeed.{parent_latency}
use sarmady.Fulfillment.{ContextNeedLineage, given_or, latency_within, child_of, Verdict, accepting}
use sarmady.Fulfillment.Outcomes.{AcceptOutcome}

abbrev Above : Option ℤ → Option ℤ → Type 0
Above bound latency =
    (b : ℤ) × (c : ℤ) × (bound ≡ some b)
    × (latency ≡ some c)
    × (ltb_ℤ b c ≡ true)
    × (latency_within bound latency
        ≡ err (value_error "child latency_budget_ms cannot exceed parent latency budget"))

module _ (host : Host) (artifact_id : ℕ) (v : Verdict) (tokens latency : Option ℤ) (child_id : ℕ)
    (db : Db) (lineage : ContextNeedLineage) where
  abbrev parent_request : ContextRequest
  parent_request = lineage.parent_request

  abbrev given_tokens : ℤ
  given_tokens = given_or tokens parent_request.token_budget

  abbrev given_latency : Option ℤ
  given_latency = first_some latency (parent_latency parent_request)

  abbrev asked_child : ContextRequest
  asked_child = child_of lineage child_id given_tokens given_latency

  abbrev asked_decision : ContextNeedDecision
  asked_decision = accepting v artifact_id lineage child_id

  abbrev Result : Outcome (Db × ContextNeedDecision × ContextRequest) → Type 0
  Result m = AcceptOutcome host artifact_id v tokens latency child_id db lineage m
