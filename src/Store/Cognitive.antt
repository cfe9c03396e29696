-- ===== src/Store/Cognitive.antt =====
-- src/sarmady/storage/sqlite/cognitive_store.py: cognitive requests, and the invocations of models.
pub mod Invocations
pub mod Terminal
use sarmady.Prelude.{
  ℕ, String, Bool, true, false, not, Option, none, some, List, [], ◌∷◌, ◌++◌, map, ◌==◌, ◌&&◌, ◌||◌,
  is_some, any_of, find, elem, nat_eq, string_eq, if◌then◌else◌,
}
use sarmady.Outcome.{
  Outcome, ok, err, value_error, integrity_error, key_error, raise_if, or_raise, ◌>>=◌, ◌>>◌,
}
use sarmady.Time.{DateTime, before, require_comparable}
use sarmady.Host.{Host}
use sarmady.Context.{is_blank}
use sarmady.Cognition.{CognitiveRequest, ModelInvocation, GeneratedArtifact}
use sarmady.Store.{Db, ProjectionRow, projection_by_id, agent_by_id}
use sarmady.Store.Reasoning.{reasoning_policy}

abbrev pub invocation_by_id : List ModelInvocation → ℕ → Option ModelInvocation
invocation_by_id rows i = find (λ v. v.id == i) rows

abbrev pub artifact_by_id : List GeneratedArtifact → ℕ → Option GeneratedArtifact
artifact_by_id rows i = find (λ a. a.id == i) rows

abbrev pub cognitive_request_by_id : List CognitiveRequest → ℕ → Option CognitiveRequest
cognitive_request_by_id rows i = find (λ r. r.id == i) rows

unfoldable pub projection_is_stale : Db → ℕ → Outcome Bool
projection_is_stale db i = do
  row ←
      or_raise (projection_by_id db.context_projections i) (key_error "unknown context projection")
  ok row.stale

-- The reading of the policy verifies its fingerprint, and may raise for it.
unfoldable pub require_policy : Host → Option String → Db → Outcome (Unit {0})
require_policy host none db = ok tt
require_policy host (some id) db = do
  policy ← reasoning_policy host db id
  raise_if (not (is_some policy)) (value_error "unknown reasoning policy")

unfoldable pub insert_cognitive_request : CognitiveRequest → Db → Outcome Db
insert_cognitive_request r db = do
  raise_if (is_some (cognitive_request_by_id db.cognitive_requests r.id))
      (integrity_error "UNIQUE constraint failed: cognitive_requests.id")
  ok (record db { cognitive_requests = db.cognitive_requests ++ r ∷ [] })

-- The second test of staleness runs under the write lock, on the database as it is then: `later`.
unfoldable pub create_cognitive_request : Host → CognitiveRequest → Db → Db → Outcome Db
create_cognitive_request host r db later = do
  raise_if (not (is_some (agent_by_id db.agents r.agent_id))) (value_error "unknown agent")
  raise_if (not (is_some (projection_by_id db.context_projections r.context_projection_id)))
      (value_error "unknown context projection")
  stale ← projection_is_stale db r.context_projection_id
  raise_if stale (value_error "cannot invoke cognition from a stale context projection")
  stale' ← projection_is_stale later r.context_projection_id
  raise_if stale' (value_error "cannot invoke cognition from a stale context projection")
  require_policy host r.reasoning_policy_id later
  insert_cognitive_request r later

abbrev pub begun : ModelInvocation → ModelInvocation
begun i = record i { completed_at = none; error_code = none }

unfoldable pub insert_invocation : ModelInvocation → Db → Outcome Db
insert_invocation i db = do
  raise_if (is_some (invocation_by_id db.model_invocations i.id))
      (integrity_error "UNIQUE constraint failed: model_invocations.id")
  ok (record db { model_invocations = db.model_invocations ++ begun i ∷ [] })

unfoldable pub start_model_invocation : ModelInvocation → Db → Outcome Db
start_model_invocation i db = do
  raise_if (is_some i.completed_at || is_some i.error_code)
      (value_error "a new invocation must begin incomplete and error-free")
  request ←
      or_raise (cognitive_request_by_id db.cognitive_requests i.cognitive_request_id)
        (value_error "unknown cognitive request")
  stale ← projection_is_stale db request.context_projection_id
  raise_if stale (value_error "cannot start model invocation from a stale context projection")
  insert_invocation i db

-- `UPDATE model_invocations SET completed_at = ?, error_code = ? WHERE id = ?`
abbrev pub finish : ℕ → DateTime → Option String → ModelInvocation → ModelInvocation
finish id completed_at error_code i =
    if i.id == id then record i { completed_at = some completed_at; error_code = error_code } else i

abbrev pub finished : ℕ → DateTime → Option String → Db → Db
finished id completed_at error_code db = record db {
  model_invocations = map (finish id completed_at error_code) db.model_invocations;
}

-- The row of an invocation that is still open, and has begun by the time.
unfoldable pub open_invocation : ℕ → DateTime → Db → Outcome ModelInvocation
open_invocation id completed_at db = do
  i ← or_raise (invocation_by_id db.model_invocations id) (value_error "unknown invocation")
  raise_if (is_some i.completed_at) (value_error "model invocation is already terminal")
  require_comparable completed_at i.started_at
  raise_if (before completed_at i.started_at) (value_error "completed_at cannot precede started_at")
  ok i

unfoldable pub insert_artifact : GeneratedArtifact → Db → Outcome Db
insert_artifact a db = do
  raise_if (is_some (artifact_by_id db.generated_artifacts a.id))
      (integrity_error "UNIQUE constraint failed: generated_artifacts.id")
  ok (record db { generated_artifacts = db.generated_artifacts ++ a ∷ [] })

-- The time of the artifact compares with the end when it does with the start.
unfoldable pub complete_model_invocation :
    ℕ → GeneratedArtifact → DateTime → Db → Outcome (Db × ModelInvocation)
complete_model_invocation id artifact completed_at db = do
  raise_if (not (artifact.invocation_id == id))
      (value_error "artifact must reference the completed invocation")
  i ← open_invocation id completed_at db
  require_comparable artifact.created_at i.started_at
  raise_if (before artifact.created_at i.started_at || before completed_at artifact.created_at)
      (value_error "artifact creation time must fall within the invocation interval")
  db' ← insert_artifact artifact (finished id completed_at none db)
  ok (db', record i { completed_at = some completed_at; error_code = none })

unfoldable pub fail_model_invocation :
    Host → ℕ → DateTime → String → Db → Outcome (Db × ModelInvocation)
fail_model_invocation host id completed_at error_code db = do
  raise_if (is_blank host error_code) (value_error "error_code is required")
  i ← open_invocation id completed_at db
  ok (
    finished id completed_at (some error_code) db,
    record i { completed_at = some completed_at; error_code = some error_code },
  )
