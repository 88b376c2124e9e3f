-- ===== src/Agent/Safety.antt =====
-- crates/mentat-analysis: the agent loop over the repository tools, to the answer that it emits.
use code_mentat.Base.{
  ℕ, Bool, false, some, List, [], Text, FilePath, All, All-map, All-mem, ◌≡◌, sym, ap, subst, ◌∙◌,
}
use code_mentat.Core.Error.{Result, ok}
use code_mentat.Core.Models.{EvidenceRef, RepositorySnapshot, FileRecord}
use code_mentat.Core.Tools.{SourceRef, RepositoryToolCall, RepositoryToolResult}
use code_mentat.Inference.Types.{
  AgentRequest, completed_markdown, validated_audit_bundle, AgentEvent, started, thinking_delta,
  text_delta, tool_progress, usage_update, completed, cancelled, failed,
}
use code_mentat.Egress.Filename.{is_sensitive_filename}
use code_mentat.Gateway.Types.{Services}
use code_mentat.Gateway.Execute.{execute, new}
use code_mentat.Gateway.Reading.{sources_not_sensitive}
use code_mentat.Audit.Evidence.{IsSource}
use code_mentat.Agent.State.{AgentLoop}
use code_mentat.Agent.Loop.{run_bounded}
use code_mentat.Agent.Sources.{Answers, run_bounded-Sourced}

-- The evidence that an event shows.
abbrev pub evidence_of : {F : Type 0} → AgentEvent F → List EvidenceRef
evidence_of (completed (validated_audit_bundle bundle) trace_id) = bundle.evidence_map
evidence_of (completed (completed_markdown text) trace_id) = []
evidence_of (cancelled payload) = []
evidence_of (failed error_code safe_message) = []
evidence_of (started id) = []
evidence_of (thinking_delta delta) = []
evidence_of (text_delta delta) = []
evidence_of (tool_progress round done total) = []
evidence_of (usage_update prompt completion) = []

module _ {F : Type 0} (a : AgentLoop F) (w : Services) (request : AgentRequest) where
  abbrev IsPublic : FilePath → Type 0
  IsPublic path = is_sensitive_filename w.to_lowercase path ≡ false

  Backed-IsPublic :
      (e : EvidenceRef) (sources : List SourceRef)
      → All (λ (source : SourceRef). IsPublic source.relative_path) sources
      → IsSource sources e
      → IsPublic e.relative_path
  Backed-IsPublic e sources h s =
      subst IsPublic (sym s.same_path) (All-mem _ sources s.source h s.known)

  Answers-IsPublic :
      (event : AgentEvent F)
      → Answers a request.request_id (λ (source : SourceRef). IsPublic source.relative_path) event
      → All (λ (e : EvidenceRef). IsPublic e.relative_path) (evidence_of event)
  Answers-IsPublic (completed (validated_audit_bundle bundle) trace_id) b =
      All-map _ _ bundle.evidence_map (λ e s. Backed-IsPublic e b.trace.source_refs b.sources s)
        b.audited.evidence_known
  Answers-IsPublic (completed (completed_markdown text) trace_id) b = tt
  Answers-IsPublic (cancelled payload) b = tt
  Answers-IsPublic (failed error_code safe_message) b = tt
  Answers-IsPublic (started id) b = tt
  Answers-IsPublic (thinking_delta delta) b = tt
  Answers-IsPublic (text_delta delta) b = tt
  Answers-IsPublic (tool_progress round done total) b = tt
  Answers-IsPublic (usage_update prompt completion) b = tt

-- Whatever the backend answers, and whatever calls it asks for, no evidence that a run emits in a
-- validated answer lies in a file whose name is sensitive, when the tools are those of a gateway that
-- `new` made of any files.
pub run_bounded_public :
    {F : Type 0} (a : AgentLoop F) (request : AgentRequest) (w : Services)
    (parse_path : Text → FilePath) (snapshot : RepositorySnapshot) (files : List FileRecord)
    (polls : ℕ → ℕ → Bool)
    → a.gateway
      ≡ some (λ n call. execute w parse_path (new w.to_lowercase snapshot files) (polls n) call)
    → All
        (λ (event : AgentEvent F).
          All
            (λ (e : EvidenceRef). is_sensitive_filename w.to_lowercase e.relative_path ≡ false)
            (evidence_of event))
        (run_bounded a request).0.events
run_bounded_public a request w parse_path snapshot files polls tools =
    let sourced =
      run_bounded-Sourced a request
        (λ source. is_sensitive_filename w.to_lowercase source.relative_path ≡ false)
        (λ made e n call r h. public_sources made (cc (tools, e)) n call r h) in
    All-map _ _ _ (Answers-IsPublic a w request) sourced.answers
  where
    public_sources :
        (made : ℕ → RepositoryToolCall → Result RepositoryToolResult)
        → (λ n call. execute w parse_path (new w.to_lowercase snapshot files) (polls n) call) ≡ made
        → (n : ℕ) (call : RepositoryToolCall) (r : RepositoryToolResult) → made n call ≡ ok r
        → All
            (λ source. is_sensitive_filename w.to_lowercase source.relative_path ≡ false)
            r.source_refs
    public_sources made same n call r h =
        sources_not_sensitive w parse_path snapshot files (polls n) call r
          (ap (λ f. f n call) same ∙ h)
