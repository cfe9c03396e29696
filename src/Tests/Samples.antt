-- ===== src/Tests/Samples.antt =====
-- Values that the tests share.
use Prim.Native.String.{◌++◌ as append}
use sarmady.Prelude.{ℕ, zero, suc, String, Option, none, some, List, [], ◌∷◌}
use sarmady.Time.{DateTime}
use sarmady.Values.{str, mapping, end}
use sarmady.Memory.{semantic, active, archive, MemoryLifecycleEvent, MemoryLifecycleEventKind}
use sarmady.Epistemic.{ClaimRelation, ClaimRelationKind, supersedes, contradicts}
use sarmady.Store.Epistemic.Checks.{Bundle}
use sarmady.Store.History.{Operation, commit, memory_event}

abbrev pub at : ℕ → DateTime
at n = record { instant = n; offset = some 0 }

-- a text for each identifier
abbrev pub id_text : ℕ → String
id_text zero = ""
id_text (suc n) = append "i" (id_text n)

-- A bundle whose objects have identifiers from `n` on.
abbrev pub bundle : ℕ → String → Option ClaimRelation → Bundle
bundle n value relation = record {
  event = record {
    id = n;
    kind = "OBSERVATION";
    occurred_at = at n;
    recorded_at = at n;
    payload = mapping end;
  };
  evidence = record {
    id = n;
    event_id = n;
    source_ref = "test";
    captured_at = at n;
    digest = none;
  };
  claim = record {
    id = n;
    subject = "server";
    predicate = "region";
    value = str value;
    recorded_at = at n;
    evidence_refs = n ∷ [];
    valid_from = none;
    valid_to = none;
    derivation_ref = none;
  };
  memory = record {
    id = n;
    target_type = "Claim";
    target_id = n;
    kind = semantic;
    created_at = at n;
    lifecycle = active;
  };
  relation = relation;
}

abbrev pub relation : ClaimRelationKind → ℕ → ℕ → ClaimRelation
relation kind source target = record {
  id = source;
  source_claim_id = source;
  target_claim_id = target;
  kind = kind;
  recorded_at = at source;
}

abbrev pub lifecycle_event : ℕ → MemoryLifecycleEventKind → ℕ → MemoryLifecycleEvent
lifecycle_event id kind entry = record {
  id = id;
  memory_entry_id = entry;
  event_kind = kind;
  occurred_at = at id;
  source = "test";
  reason = none;
}

-- A claim, its revision, a contradiction, a bundle that is refused, and an archived memory.
abbrev pub history : List Operation
history =
    commit 1 (bundle 1 "eu" none)
    ∷ commit 2 (bundle 2 "us" (some (relation supersedes 2 1)))
    ∷ commit 3 (bundle 3 "ap" (some (relation contradicts 3 2)))
    ∷ commit 4 (bundle 4 "xx" none)
    ∷ memory_event (lifecycle_event 5 archive 2)
    ∷ []
