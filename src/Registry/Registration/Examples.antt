-- ===== src/Registry/Registration/Examples.antt =====
-- The versioning theorems at a concrete metric, and a registration in the sample registry
-- (src/airi/registry/service.py, src/airi/registry/versioning.py).
use airi.Prelude.{
  List, String, ◌≡◌, refl, false, Option, none, some, ok, err, Ensures, meets, str_eq, opt_eq,
  contains, sorted, truthy, sorted_set,
}
use airi.Registry.Models.{MetricDefinition}
use airi.Registry.Session.{definition}
use airi.Registry.Queries.{versions}
use airi.Registry.Queries.Soundness.{Lists, versions-Lists}
use airi.Core.{Version, same_version, version_lt}
use airi.MetricIr.Equality.{
  function_eq, list_eq, bool_eq, unit_eq, timezone_eq, join_eq, condition_eq, comparison_eq,
}
use airi.Registry.Writes.{log_event}
use airi.MetricIr.Models.{MetricIr, WindowUnit, Timezone}
use airi.Registry.Models.{VersionChangeKind, MetricVersion}
use airi.Registry.Store.{Store, get, put}
use airi.Registry.Session.{
  Outcome, find_by_key, find_version, verify_version, same_version_status,
  metric_version_content_hash,
}
use airi.Registry.Versioning.{semantic_diff, classify, has_leaf, get_leaf, leaf_eq, plan}
use airi.Registry.Versioning.Patches.{SameMeaning, patch-SameMeaning}
use airi.Registry.Family.{derive}
use airi.Registry.Registration.{
  PromotionDecision, RefinementEvidence, ResearchChain, promotion_lineage, create_version,
}
use airi.Registry.Integrity.Registration.{
  IsVerified, promotion_lineage-IsVerified, IsNewest, create_version-IsNewest,
}
use airi.Registry.Sample.{digest, orders, approved_store}

-- The same metric under another description.
abbrev described : MetricIr
described = record orders { description = "the orders of each customer" }

described-patch : classify (semantic_diff orders described).0 ≡ VersionChangeKind.patch
unfolding semantic_diff classify meets has_leaf str_eq leaf_eq get_leaf opt_eq contains function_eq
    list_eq sorted bool_eq
described-patch = refl

patch-SameMeaning_example : SameMeaning orders described
patch-SameMeaning_example = patch-SameMeaning orders described described-patch

-- The orders of the last thirty days belong to the family of `orders`.
abbrev windowed : MetricIr
windowed = record orders {
  name = "orders_30d";
  window = some (record {
    size = 30;
    unit = WindowUnit.day;
    time_field = "created_at";
    timezone = Timezone.utc;
  });
}

abbrev orders_key : String
orders_key = "orders"

windowed-family : derive windowed.name ≡ orders_key
unfolding derive truthy
windowed-family = refl

abbrev refinement_evidence : RefinementEvidence
refinement_evidence = record {
  digest = "fd";
  experiment_run_id = some "e";
  candidate_artifact_id = "a";
  candidate_content_hash = "ah";
  metric_ir_hash = "orders_30d";
}

abbrev chain : ResearchChain
chain = record {
  review = λ id. ok (record {
    promotion_review_id = id;
    temporal_validation_run_id = "t";
    decision = PromotionDecision.approved_for_versioning;
    evidence_hash = "eh";
    evidence_digest = "eh";
    temporal_report_hash = "td";
    refinement_report_hash = "fd";
    refinement = refinement_evidence;
    test_report_digest = "te";
  });
  temporal_report = λ id.
      ok
        (record { digest = "td"; temporal_validation_run_id = id; source_refinement_run_id = "f" });
  extract = λ id. ok (record {
    metric_ir = some windowed;
    metric_ir_hash = "orders_30d";
    artifact_id = "a";
    artifact_hash = "ah";
    experiment_report_hash = "ex";
    synthetic_data = false;
  });
}

abbrev registration : Outcome (Store × MetricVersion)
registration = create_version digest chain 9 "v4" "d2" approved_store "p2"

abbrev registered_version : Outcome (Store × MetricVersion) → Option Version
registered_version (ok (st, v)) = some v.version
registered_version (err e) = none

registration-version :
    registered_version registration ≡ some (record { major = 3; minor = 0; patch = 0 })
unfolding create_version plan semantic_diff classify meets has_leaf str_eq leaf_eq get_leaf opt_eq
    contains function_eq list_eq sorted bool_eq derive truthy find_by_key find_version get
    verify_version unit_eq timezone_eq same_version same_version_status version_lt sorted_set
    join_eq condition_eq comparison_eq log_event put metric_version_content_hash
registration-version = refl

promotion_lineage-IsVerified_example :
    Ensures (IsVerified digest) (promotion_lineage digest chain "p2")
promotion_lineage-IsVerified_example = promotion_lineage-IsVerified digest chain "p2"

create_version-IsNewest_example :
    Ensures (λ (x : Store × MetricVersion). IsNewest digest approved_store x.1) registration
create_version-IsNewest_example =
    create_version-IsNewest digest chain 9 "v4" "d2" approved_store "p2"

abbrev metric_key : String
metric_key = "orders"

-- The versions of the sample metric, read before the registration.
versions-Lists_example :
    Ensures
      (λ (vs : List MetricVersion).
        (d : MetricDefinition) × (definition approved_store metric_key ≡ ok d)
        × Lists digest approved_store d.metric_definition_id vs)
      (versions digest approved_store metric_key)
versions-Lists_example = versions-Lists digest approved_store metric_key
