-- ===== src/Registry/Registration.antt =====
-- The registration of a version (`create_version` of src/airi/registry/service.py). The research
-- chain is an interface: its documents appear by the identifiers that are read and by the digests
-- that are compared.
pub mod Order
mod Examples
use airi.Prelude.{
  ℕ, String, Bool, true, false, not, ◌&&◌, ◌||◌, Option, none, some, List, [], ◌∷◌, ◌++◌,
  if◌then◌else◌, is_some, str_eq, sorted_set, Result, ok, err, ◌>>=◌, ◌>>◌, raise_if,
}
use airi.Core.{Version, version_lt}
use airi.MetricIr.Models.{MetricIr}
use airi.Registry.Models.{
  MetricVersionStatus, ReleaseEventType, MetricDefinition, MetricVersion, VersionChange, Provenance,
  Document, content_of,
}
use airi.Registry.Store.{Table, get, put, DefinitionRow, VersionRow, Store}
use airi.Registry.Session.{
  Outcome, find_by_key, find_version, verify_version, metric_version_content_hash,
  metric_version_already_registered, metric_version_not_authorized, promotion_evidence_changed,
  metric_version_lineage_changed, metric_version_not_supported,
}
use airi.Registry.Writes.{log_event}
use airi.Registry.Versioning.{VersionPlan, plan}
use airi.Registry.Family.{derive, display_name, stripped}

-- the decisions of a `PromotionReview`
pub data PromotionDecision : Type 0 where
  pending approved_for_versioning rejected need_more_evidence : PromotionDecision

abbrev pub is_approved : PromotionDecision → Bool
is_approved PromotionDecision.approved_for_versioning = true
is_approved _ = false

-- the refinement report within the evidence of a promotion review
pub record RefinementEvidence : Type 0 where
  pub digest : String
  pub experiment_run_id : Option String
  pub candidate_artifact_id : String
  pub candidate_content_hash : String
  pub metric_ir_hash : String

pub record PromotionReview : Type 0 where
  pub promotion_review_id : String
  pub temporal_validation_run_id : String
  pub decision : PromotionDecision
  pub evidence_hash : String
  pub evidence_digest : String
  pub temporal_report_hash : String
  pub refinement_report_hash : String
  pub refinement : RefinementEvidence
  pub test_report_digest : String

pub record TemporalReport : Type 0 where
  pub digest : String
  pub temporal_validation_run_id : String
  pub source_refinement_run_id : String

-- what the evidence extractor returns; `metric_ir` is none for another kind of metric
pub record Extracted : Type 0 where
  pub metric_ir : Option MetricIr
  pub metric_ir_hash : String
  pub artifact_id : String
  pub artifact_hash : String
  pub experiment_report_hash : String
  pub synthetic_data : Bool

-- The reads of the research chain that `create_version` makes.
pub record ResearchChain : Type 0 where
  pub review : String → Outcome PromotionReview
  pub temporal_report : String → Outcome TemporalReport
  pub extract : String → Outcome Extracted

-- what `promotion_lineage` returns
pub record Lineage : Type 0 where
  pub review : PromotionReview
  pub report : TemporalReport
  pub extracted : Extracted
  pub metric_ir : MetricIr

-- `if not candidate_experiment.get("experiment_run_id"): raise`
abbrev pub required : Option String → Outcome String
required none = err metric_version_lineage_changed
required (some id) = if str_eq id "" then err metric_version_lineage_changed else ok id

abbrev pub supported : Option MetricIr → Outcome MetricIr
supported none = err metric_version_not_supported
supported (some metric) = ok metric

-- `max(versions, key=version_key)`: the first of the greatest
unfoldable pub newest : MetricVersion → List MetricVersion → MetricVersion
newest best [] = best
newest best (v ∷ vs) = newest (if version_lt best.version v.version then v else best) vs

unfoldable pub latest : List MetricVersion → Option MetricVersion
unfolding newest
latest [] = none
latest (v ∷ vs) = some (newest v vs)

-- whether a version of this promotion review is there
unfoldable pub is_registered : String → Table VersionRow → Bool
is_registered review_id [] = false
is_registered review_id ((key, row) ∷ t) =
    str_eq row.source_promotion_review_id review_id || is_registered review_id t

abbrev pub provenance_of : Lineage → Provenance
provenance_of l = record {
  promotion_review_id = l.review.promotion_review_id;
  promotion_evidence_hash = l.review.evidence_hash;
  temporal_validation_run_id = l.report.temporal_validation_run_id;
  temporal_report_hash = l.review.temporal_report_hash;
  refinement_run_id = l.report.source_refinement_run_id;
  refinement_report_hash = l.review.refinement_report_hash;
  test_report_hash = l.review.test_report_digest;
  experiment_report_hash = l.extracted.experiment_report_hash;
}

-- whether the commit breaks a primary key or a unique constraint
abbrev pub collides : Store → String → String → String → String → Version → Bool
collides st version_id definition_id key family_id v =
    is_some (get version_id st.versions)
    || is_some (find_version family_id v st.versions)
    || not (is_some (find_by_key key st.definitions)) && is_some (get definition_id st.definitions)

-- the row of a new family
abbrev pub family_row : String → String → ℕ → DefinitionRow
family_row id key now = record {
  metric_key = key;
  display_name = stripped (display_name key);
  member_metric_names = [];
  active_version_id = none;
  definition_json = record {
    metric_definition_id = id;
    metric_key = key;
    display_name = stripped (display_name key);
    member_metric_names = [];
    active_version_id = none;
    created_at = now;
    updated_at = now;
  };
  created_at = now;
  updated_at = now;
}

abbrev pub chosen :
    Option (String × DefinitionRow) → String × DefinitionRow → String × DefinitionRow
chosen none fresh = fresh
chosen (some found) fresh = found

-- the row of the family, with its key: the one there is, or a new one
abbrev pub family_of : Store → String → String → ℕ → String × DefinitionRow
family_of st id key now = chosen (find_by_key key st.definitions) (id, family_row id key now)

-- the version before its content hash is known
abbrev pub provisional :
    String
    → MetricDefinition
    → String
    → Lineage
    → VersionPlan
    → Option MetricVersion
    → ℕ
    → MetricVersion
provisional id d key l p previous now = record {
  metric_version_id = id;
  metric_definition_id = d.metric_definition_id;
  metric_key = key;
  version = p.version;
  status = MetricVersionStatus.registered;
  metric_name = l.metric_ir.name;
  display_name = l.metric_ir.display_name;
  metric_ir = l.metric_ir;
  metric_ir_hash = l.extracted.metric_ir_hash;
  artifact_id = l.extracted.artifact_id;
  artifact_hash = l.extracted.artifact_hash;
  source_refinement_run_id = l.report.source_refinement_run_id;
  source_temporal_validation_run_id = l.report.temporal_validation_run_id;
  source_promotion_review_id = l.review.promotion_review_id;
  version_change = record {
    kind = p.kind;
    previous_version = elim previous [ none ↦ none | some v ↦ some v.version ];
    changed_fields = p.changed_fields;
  };
  provenance = provenance_of l;
  content_hash = "0000000000000000000000000000000000000000000000000000000000000000";
  synthetic_data = l.extracted.synthetic_data;
  created_at = now;
}

abbrev pub registered_row : MetricDefinition → MetricVersion → ℕ → VersionRow
registered_row d v now = record {
  metric_definition_id = d.metric_definition_id;
  version = v.version;
  status = v.status;
  metric_name = v.metric_name;
  metric_ir_hash = v.metric_ir_hash;
  artifact_id = v.artifact_id;
  artifact_hash = v.artifact_hash;
  source_promotion_review_id = v.source_promotion_review_id;
  content_hash = v.content_hash;
  version_json = v;
  created_at = now;
}

-- the family's row with its new member
abbrev pub joined_row : DefinitionRow → MetricVersion → ℕ → DefinitionRow
joined_row row v now =
    let document = row.definition_json in
    let members = sorted_set (document.member_metric_names ++ (v.metric_name ∷ [])) in
    record row {
      member_metric_names = members;
      updated_at = now;
      definition_json = record document { member_metric_names = members; updated_at = now };
    }

module _ (canonical_hash : Document → String) where
  -- `promotion_lineage`
  unfoldable pub promotion_lineage : ResearchChain → String → Outcome Lineage
  promotion_lineage chain promotion_review_id = do
    review ← chain.review promotion_review_id
    raise_if (not (is_approved review.decision)) metric_version_not_authorized
    raise_if (not (str_eq review.evidence_digest review.evidence_hash)) promotion_evidence_changed
    report ← chain.temporal_report review.temporal_validation_run_id
    raise_if (not (str_eq report.digest review.temporal_report_hash)) promotion_evidence_changed
    raise_if (not (str_eq review.refinement.digest review.refinement_report_hash))
        promotion_evidence_changed
    run ← required review.refinement.experiment_run_id
    extracted ← chain.extract run
    metric ← supported extracted.metric_ir
    raise_if
        (not (str_eq extracted.artifact_id review.refinement.candidate_artifact_id)
          || not (str_eq extracted.artifact_hash review.refinement.candidate_content_hash)
          || not (str_eq extracted.metric_ir_hash review.refinement.metric_ir_hash)
          || not (str_eq (canonical_hash (Document.metric_ir metric)) extracted.metric_ir_hash))
        metric_version_lineage_changed
    ok (record { review = review; report = report; extracted = extracted; metric_ir = metric })

  -- `_versions_for`, less its sort
  unfoldable pub versions_of : String → Table VersionRow → Outcome (List MetricVersion)
  versions_of id [] = ok []
  versions_of id ((key, row) ∷ t) =
      let rest = versions_of id t in
      if str_eq row.metric_definition_id id
      then (do v ← verify_version canonical_hash row; vs ← rest; ok (v ∷ vs))
      else rest

  abbrev pub sealed : MetricVersion → MetricVersion
  sealed v = record v { content_hash = metric_version_content_hash canonical_hash v }

  -- `create_version` after the lineage is verified; a broken constraint of the tables is the
  -- `IntegrityError` of its commit
  unfoldable pub register : ℕ → String → String → Store → Lineage → Outcome (Store × MetricVersion)
  unfolding is_registered versions_of latest
  register now version_id definition_id st l = do
    raise_if (is_registered l.review.promotion_review_id st.versions)
        metric_version_already_registered
    let key = derive l.metric_ir.name
    let family = family_of st definition_id key now
    let d = family.1.definition_json
    versions ← versions_of d.metric_definition_id st.versions
    let previous = latest versions
    let v = sealed (provisional version_id d key l (plan l.metric_ir previous) previous now)
    raise_if (collides st version_id definition_id key d.metric_definition_id v.version)
        metric_version_already_registered
    ok (
      log_event now
          (record st {
            definitions = put family.0 (joined_row family.1 v now) st.definitions;
            versions = put version_id (registered_row d v now) st.versions;
          })
          d.metric_definition_id ReleaseEventType.version_registered "registry-service"
          (some version_id) none,
      v,
    )

  -- `create_version`
  unfoldable pub create_version :
      ResearchChain → ℕ → String → String → Store → String → Outcome (Store × MetricVersion)
  unfolding promotion_lineage register
  create_version chain now version_id definition_id st promotion_review_id = do
    l ← promotion_lineage chain promotion_review_id
    register now version_id definition_id st l
