-- ===== src/Tests/PolicyTest.antt =====
-- Registration of a reasoning policy with a digest in upper case.
use sarmady.Prelude.{String, ◌≡◌, refl, true, some, [], ◌∷◌}
use sarmady.Outcome.{ok}
use sarmady.Host.{Host}
use sarmady.Cognition.{ReasoningPolicy, compact}
use sarmady.Store.{Db, empty_db}
use sarmady.Store.Reasoning.{
  check_requirements, register_reasoning_policy, reasoning_policy, equivalent_modulo_digest_case,
}
use sarmady.Store.Reasoning.Registration.{
  with_policy, register_reasoning_policy-read, register_reasoning_policy-again,
}
use sarmady.Tests.Samples.{at}
use sarmady.Tests.Workspace

abbrev digest : String
digest = "aaaaaaaaaaaaaaaaaaaaaaaaaaaaaaaaaaaaaaaaaaaaaaaaaaaaaaaaaaaaaaaa"

abbrev upper_digest : String
upper_digest = "AAAAAAAAAAAAAAAAAAAAAAAAAAAAAAAAAAAAAAAAAAAAAAAAAAAAAAAAAAAAAAAA"

-- Every text in lower case is the one digest.
abbrev host : Host
host = record Workspace.host { lower = λ s. digest }

abbrev policy : ReasoningPolicy
policy = record {
  id = "brief";
  version = "1";
  mode = compact;
  stages = "read" ∷ "answer" ∷ [];
  requirements = record { key = "cite"; description = "cite the evidence" } ∷ [];
  source_ref = "docs";
  source_sha256 = some upper_digest;
}

abbrev stored : ReasoningPolicy
stored = record policy { source_sha256 = some digest }

abbrev registered : Db
registered = with_policy host stored (at 1) empty_db

accepts : check_requirements host policy.requirements ≡ ok policy.requirements
unfolding check_requirements sarmady.Cognition.Reasoning.check_reasoning_requirement
accepts = refl

registers : register_reasoning_policy host policy (at 1) empty_db ≡ ok (registered, stored)
unfolding register_reasoning_policy sarmady.Store.Reasoning.canonical_policy
    sarmady.Cognition.Reasoning.check_policy sarmady.Cognition.Reasoning.check_digest
    sarmady.Store.Reasoning.register_canonical sarmady.Store.Reasoning.insert_policy
registers = refl

register_reasoning_policy-read_example :
    (reasoning_policy host registered "brief" ≡ ok (some stored))
    × (equivalent_modulo_digest_case host stored policy ≡ true)
register_reasoning_policy-read_example =
    register_reasoning_policy-read host policy stored (at 1) empty_db registered accepts registers

register_reasoning_policy-again_example :
    register_reasoning_policy host policy (at 7) registered ≡ ok (registered, stored)
register_reasoning_policy-again_example =
    register_reasoning_policy-again host policy stored (at 1) (at 7) empty_db registered accepts
      refl registers
