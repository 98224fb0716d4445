-- ===== src/Execution/Call/Results.antt =====
-- What is answered for a result of a tool's handler: the metadata that goes with it, and the visible note.
use aws_mcp_gateway.Base.{
  ◌≡◌, ◌≢◌, ◌⊎◌, ◌↔◌, refl, subst, true, ◌&&◌, Option, none, some, String, List, [], ◌∷◌, ◌<>◌, inl,
  inr, if◌then◌else◌, is_empty, is_empty_iff, string_eq_iff, Bool-cases, and_iff, or_iff, not_iff,
  arith,
}
use aws_mcp_gateway.Errors.{ok, ◌>>=◌, >>=-ok, ok-injective, thrown_ne_ok}
use aws_mcp_gateway.Js.{Fields, end, field}
use aws_mcp_gateway.Manifest.{
  ToolManifest, ToolCostControl, CostControlClass, free, low, paid, volume_sensitive,
  fanout_sensitive, is_aws_backed_manifest,
}
use aws_mcp_gateway.Telemetry.{ExecutionCollector, RecordedAwsRequest, snapshot}
use aws_mcp_gateway.Execution.{ToolExecutionMetadata, ExecutionRuntimeFacts, build_runtime_facts}
use aws_mcp_gateway.Execution.Metadata.{build_aws_execution_metadata}
use aws_mcp_gateway.Execution.Metadata.Charge.{IsBilled, build_aws_execution_metadata-IsBilled}
use aws_mcp_gateway.Execution.Call.{
  McpSuccessResult, has_key, is_reported, append_note, format_visible_billing_note, is_paid,
  has_paid_class, should_append_note, facts_of, metadata_from, with_metadata, with_execution,
}

-- Fields that have one of a name.
abbrev pub HasField : String → Fields → Type 0
HasField name end = ⊥
HasField name (field k v fs) = (k ≡ name) ⊎ HasField name fs

has_key_iff : (name : String) (fs : Fields) → (has_key name fs ≡ true) ↔ HasField name fs
unfolding has_key
has_key_iff name end = (λ h. absurd (cc h), λ h. absurd h)
has_key_iff name (field k v fs) = or_iff _ _ (string_eq_iff k name) (has_key_iff name fs)

-- Structured content that is given and reports no error.
abbrev pub IsReport : Option Fields → Type 0
IsReport none = ⊥
IsReport (some fs) = ¬ HasField "error" fs

is_reported_iff : (o : Option Fields) → (is_reported o ≡ true) ↔ IsReport o
unfolding is_reported
is_reported_iff none = (λ h. absurd (cc h), λ h. absurd h)
is_reported_iff (some fs) = not_iff _ (has_key_iff "error" fs)

-- Metadata goes with results of tools that call AWS, unless they report an error.
abbrev pub IsDescribed : ToolManifest → McpSuccessResult → Type 0
IsDescribed manifest before =
    (is_aws_backed_manifest manifest ≡ true) × IsReport before.structured_content

attaches_iff :
    (manifest : ToolManifest) (before : McpSuccessResult)
    → (is_aws_backed_manifest manifest && is_reported before.structured_content ≡ true)
      ↔ IsDescribed manifest before
attaches_iff manifest before =
    and_iff _ _ (λ h. h, λ h. h) (is_reported_iff before.structured_content)

-- The texts with a note behind the first one, unless that is empty.
abbrev pub IsNoted : Option String → List String → List String → Type 0
IsNoted none before after = after ≡ before
IsNoted (some note) [] after = after ≡ []
IsNoted (some note) (first ∷ rest) after =
    ((first ≡ "") × (after ≡ first ∷ rest))
    ⊎ ((first ≢ "") × (after ≡ (first <> "\n\n" <> note) ∷ rest))

append_note-IsNoted :
    (note : Option String) (content : List String) → IsNoted note content (append_note note content)
unfolding append_note
append_note-IsNoted none content = refl
append_note-IsNoted (some note) [] = refl
append_note-IsNoted (some note) (first ∷ rest) = elim (Bool-cases (is_empty first)) [
  | inl e ↦ rw e (inl ((is_empty_iff first).0 e, refl))
  | inr e ↦ rw e (inr (λ h. absurd (cc (e, (is_empty_iff first).1 h)), refl))
]

-- A tool of the class `paid`.
abbrev pub IsPaid : Option ToolCostControl → Type 0
IsPaid none = ⊥
IsPaid (some control) = control.class ≡ some paid

class_iff : (class : Option CostControlClass) → (is_paid class ≡ true) ↔ (class ≡ some paid)
unfolding is_paid
class_iff none = (λ h. absurd (cc h), λ h. absurd (cc h))
class_iff (some paid) = (λ h. refl, λ h. refl)
class_iff (some free) = (λ h. absurd (cc h), λ h. ground arith)
class_iff (some low) = (λ h. absurd (cc h), λ h. ground arith)
class_iff (some volume_sensitive) = (λ h. absurd (cc h), λ h. ground arith)
class_iff (some fanout_sensitive) = (λ h. absurd (cc h), λ h. ground arith)

has_paid_class_iff :
    (control : Option ToolCostControl) → (has_paid_class control ≡ true) ↔ IsPaid control
unfolding has_paid_class
has_paid_class_iff none = (λ h. absurd (cc h), λ h. absurd h)
has_paid_class_iff (some control) = class_iff control.class

-- The texts that are answered: the handler's, with the visible note of the call if the tool is paid.
abbrev pub IsContentOf : ToolManifest → ToolExecutionMetadata → List String → List String → Type 0
IsContentOf manifest m before after =
    (IsPaid manifest.cost_control × IsNoted (format_visible_billing_note m) before after)
    ⊎ ((¬ IsPaid manifest.cost_control) × (after ≡ before))

content-IsContentOf :
    (manifest : ToolManifest) (m : ToolExecutionMetadata) (before : List String)
    → IsContentOf manifest m before (
        if should_append_note manifest
        then append_note (format_visible_billing_note m) before
        else before)
unfolding should_append_note
content-IsContentOf manifest m before = elim (Bool-cases (has_paid_class manifest.cost_control)) [
  | inl e ↦
      rw e (inl ((has_paid_class_iff manifest.cost_control).0 e, append_note-IsNoted _ before))
  | inr e ↦ rw e (inr (λ h. absurd (cc (e, (has_paid_class_iff manifest.cost_control).1 h)), refl))
]

-- The metadata of what a collector has met.
abbrev pub IsMetadataOf : ToolManifest → ExecutionCollector → ToolExecutionMetadata → Type 0
IsMetadataOf manifest collector m =
    (recorded : List RecordedAwsRequest) × ((facts : ExecutionRuntimeFacts) × ((snapshot collector
          ≡ some recorded)
        × ((build_runtime_facts manifest.capabilities collector.cache_statuses recorded
              ≡ some facts)
            × ((build_aws_execution_metadata manifest facts ≡ ok m) × IsBilled facts m))))

metadata_from-IsMetadataOf :
    (manifest : ToolManifest) (collector : ExecutionCollector) (m : ToolExecutionMetadata)
    (s : Option (List RecordedAwsRequest)) (o : Option ExecutionRuntimeFacts)
    → snapshot collector ≡ s
    → facts_of manifest collector.cache_statuses s ≡ o
    → metadata_from manifest o ≡ ok m
    → IsMetadataOf manifest collector m
unfolding metadata_from facts_of
metadata_from-IsMetadataOf manifest collector m s none e f h = absurd (thrown_ne_ok h)
metadata_from-IsMetadataOf manifest collector m none (some facts) e f h = absurd (cc f)
metadata_from-IsMetadataOf manifest collector m (some recorded) (some facts) e f h =
    (recorded, (facts, (e, (f, (h, build_aws_execution_metadata-IsBilled manifest facts m h)))))

-- What is answered for a result of the handler: the result as it is, where no metadata goes with it, and
-- else the same structured content with the metadata of the call and the content that goes with it.
abbrev pub IsResultOf :
    ToolManifest → ExecutionCollector → McpSuccessResult → McpSuccessResult → Type 0
IsResultOf manifest collector before after =
    ((¬ IsDescribed manifest before) × (after ≡ before))
    ⊎ (IsDescribed manifest before
        × ((m : ToolExecutionMetadata) × ((after.execution ≡ some m)
              × (IsMetadataOf manifest collector m
                  × ((after.structured_content ≡ before.structured_content)
                      × IsContentOf manifest m before.content after.content)))))

with_metadata-IsResultOf :
    (manifest : ToolManifest) (collector : ExecutionCollector) (before after : McpSuccessResult)
    → IsDescribed manifest before
    → (metadata_from manifest (facts_of manifest collector.cache_statuses (snapshot collector))
        >>= λ m. ok (with_metadata manifest before m))
      ≡ ok after
    → IsResultOf manifest collector before after
unfolding with_metadata
with_metadata-IsResultOf manifest collector before after d h =
    let (m, (made, h1)) = >>=-ok (metadata_from manifest _) _ after h in
    subst (IsResultOf manifest collector before) (ok-injective h1) (
      inr (
        d,
        (
          m,
          (
            refl,
            (
              metadata_from-IsMetadataOf manifest collector m _ _ refl refl made,
              (refl, content-IsContentOf manifest m before.content),
            ),
          ),
        ),
      ))

pub with_execution-IsResultOf :
    (manifest : ToolManifest) (collector : ExecutionCollector) (before after : McpSuccessResult)
    → with_execution manifest collector before ≡ ok after
    → IsResultOf manifest collector before after
unfolding with_execution
with_execution-IsResultOf manifest collector before after h =
    elim (Bool-cases (is_aws_backed_manifest manifest && is_reported before.structured_content)) [
      | inl e ↦
          with_metadata-IsResultOf manifest collector before after
            ((attaches_iff manifest before).0 e) (rw e at h)
      | inr e ↦
          subst (IsResultOf manifest collector before) (ok-injective (rw e at h))
            (inl (λ d. absurd (cc (e, (attaches_iff manifest before).1 d)), refl))
    ]
