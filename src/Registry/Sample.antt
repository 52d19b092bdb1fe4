-- ===== src/Registry/Sample.antt =====
-- A small registry for the examples (src/airi/registry/models.py): one metric with three versions,
-- a release of the newest and a rollback under review.
use airi.Prelude.{String, refl, false, Option, none, some, [], ◌∷◌}
use airi.Core.{Version}
use airi.MetricIr.Models.{MetricIr, Function}
use airi.Registry.Models.{
  MetricVersionStatus, VersionChangeKind, ReleaseStatus, TargetEnvironment, RollbackDecision,
  MetricDefinition, Provenance, MetricVersion, MetricRelease, RollbackReview, Document,
  default_release_policy,
}
use airi.Registry.Store.{get, VersionRow, RollbackReviewRow, Store}
use airi.Registry.Releases.{release_row}
use airi.Registry.Integrity.{IsConsistent}

-- A digest that tells the documents below apart.
abbrev pub digest : Document → String
digest (Document.metric_ir m) = m.name
digest (Document.version_content c) = c.artifact_hash
digest (Document.validation_report r) = r.release_id
digest (Document.release_review r) = r.release_review_id
digest (Document.rollback_review r) = r.rollback_review_id

abbrev pub orders : MetricIr
orders = record {
  schema_version = "1.0.0";
  name = "orders";
  display_name = none;
  description = "orders per customer";
  entity_type = some "customer";
  entity_key = "customer_id";
  partition_field = none;
  source = record { catalog = none; database = "sales"; table = "orders" };
  aggregation = record { function = Function.count; field = none };
  dimensions = [];
  filters = [];
  window = none;
  source_alias = none;
  aggregation_alias = none;
  joins = [];
  column_filters = [];
}

abbrev pub lineage : Provenance
lineage = record {
  promotion_review_id = "p";
  promotion_evidence_hash = "pe";
  temporal_validation_run_id = "t";
  temporal_report_hash = "tr";
  refinement_run_id = "f";
  refinement_report_hash = "fr";
  test_report_hash = "te";
  experiment_report_hash = "ex";
}

abbrev pub version_of : String → Version → MetricVersionStatus → MetricVersion
version_of id v status = record {
  metric_version_id = id;
  metric_definition_id = "d";
  metric_key = "orders";
  version = v;
  status = status;
  metric_name = "orders";
  display_name = none;
  metric_ir = orders;
  metric_ir_hash = "orders";
  artifact_id = id;
  artifact_hash = id;
  source_refinement_run_id = "f";
  source_temporal_validation_run_id = "t";
  source_promotion_review_id = "p";
  version_change = record {
    kind = VersionChangeKind.minor;
    previous_version = none;
    changed_fields = [];
  };
  provenance = lineage;
  content_hash = id;
  synthetic_data = false;
  created_at = 1;
}

abbrev pub version_row : MetricVersion → VersionRow
version_row v = record {
  metric_definition_id = "d";
  version = v.version;
  status = v.status;
  metric_name = v.metric_name;
  metric_ir_hash = v.metric_ir_hash;
  artifact_id = v.artifact_id;
  artifact_hash = v.artifact_hash;
  source_promotion_review_id = "p";
  content_hash = v.content_hash;
  version_json = v;
  created_at = 1;
}

abbrev pub v1_0 : Version
v1_0 = record { major = 1; minor = 0; patch = 0 }

abbrev pub v1_1 : Version
v1_1 = record { major = 1; minor = 1; patch = 0 }

abbrev pub v2_0 : Version
v2_0 = record { major = 2; minor = 0; patch = 0 }

abbrev pub sample_definition : MetricDefinition
sample_definition = record {
  metric_definition_id = "d";
  metric_key = "orders";
  display_name = "orders";
  member_metric_names = "orders" ∷ [];
  active_version_id = some "v2";
  created_at = 1;
  updated_at = 1;
}

abbrev pub release_of : String → ReleaseStatus → Option String → MetricRelease
release_of version_id status expected = record {
  release_id = "r";
  metric_definition_id = "d";
  metric_version_id = version_id;
  metric_key = "orders";
  version = v2_0;
  target_environment = TargetEnvironment.staging;
  status = status;
  expected_active_version_id = expected;
  release_policy = default_release_policy;
  release_provenance = record {
    metric_version_content_hash = version_id;
    metric_ir_hash = "orders";
    candidate_artifact_hash = version_id;
    promotion_review_id = "p";
    temporal_validation_run_id = "t";
    refinement_run_id = "f";
    temporal_report_hash = "tr";
    promotion_evidence_hash = "pe";
  };
  validation_report_hash = none;
  created_at = 2;
  validated_at = none;
  activated_at = none;
}

abbrev pub requested_rollback : RollbackReview
requested_rollback = record {
  rollback_review_id = "b";
  metric_definition_id = "d";
  metric_key = "orders";
  from_version_id = some "v2";
  from_version = some v1_1;
  to_version_id = "v1";
  to_version = v1_0;
  reason = "wrong totals";
  decision = RollbackDecision.pending;
  reviewer = none;
  comment = none;
  created_at = 3;
  reviewed_at = none;
}

abbrev pub sample_rollback_row : RollbackReviewRow
sample_rollback_row = record {
  metric_definition_id = "d";
  from_version_id = some "v2";
  to_version_id = "v1";
  decision = RollbackDecision.pending;
  reviewer = none;
  comment = none;
  review_json = requested_rollback;
  review_hash = "b";
  created_at = 3;
  reviewed_at = none;
}

-- `v2` is active; the release of `v3` has a status of its own and expects some predecessor.
abbrev pub store_with : ReleaseStatus → Option String → Store
store_with status expected = record {
  definitions =
      (
        "d",
        record {
          metric_key = "orders";
          display_name = "orders";
          member_metric_names = "orders" ∷ [];
          active_version_id = some "v2";
          definition_json = sample_definition;
          created_at = 1;
          updated_at = 1;
        },
      )
      ∷ [];
  versions =
      ("v1", version_row (version_of "v1" v1_0 MetricVersionStatus.retired))
      ∷ ("v2", version_row (version_of "v2" v1_1 MetricVersionStatus.active))
      ∷ ("v3", version_row (version_of "v3" v2_0 MetricVersionStatus.release_candidate))
      ∷ [];
  releases = ("r", release_row (release_of "v3" status expected) 2) ∷ [];
  validations = [];
  reviews = [];
  rollbacks = ("b", sample_rollback_row) ∷ [];
  events = [];
}

pub store_with-IsConsistent :
    (status : ReleaseStatus) (expected : Option String)
    → IsConsistent digest (store_with status expected)
unfolding get
store_with-IsConsistent status expected = record {
  definitions = ((refl, refl), tt);
  versions = (
    (refl, refl, refl, refl, refl),
    ((refl, refl, refl, refl, refl), ((refl, refl, refl, refl, refl), tt)),
  );
  releases = ((refl, refl, refl, refl, refl, refl), tt);
  validations = tt;
  reviews = tt;
  rollbacks = ((refl, refl), tt);
  distinct = (refl, tt);
}

-- The release of `v3` is approved and was created while `v2` was active.
abbrev pub approved_store : Store
approved_store = store_with ReleaseStatus.approved (some "v2")

pub approved_store-IsConsistent : IsConsistent digest approved_store
approved_store-IsConsistent = store_with-IsConsistent ReleaseStatus.approved (some "v2")
