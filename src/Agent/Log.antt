-- ===== src/Agent/Log.antt =====
-- crates/mentat-analysis/src/agent_loop.rs: the events of a run, read as a log.
use mathlib.Core.List.{append-nil, append_assoc}
use code_mentat.Base.{
  Bool, true, false, Option, none, some, List, [], ◌∷◌, ◌++◌, Text, All, All-append, ◌≡◌, refl, sym,
  ap, subst, ◌∙◌, list_eq, nat_eq,
}
use code_mentat.Core.Models.{Uuid}
use code_mentat.Core.Conversation.{ResponseContract, advisor_markdown, audit_answer_bundle}
use code_mentat.Inference.Types.{
  advisor_partial_markdown, audit_no_content, AgentEvent, started, thinking_delta, text_delta,
  tool_progress, usage_update, completed, cancelled, failed,
}
use code_mentat.Agent.Loop.{completion}

abbrev pub is_terminal : {F : Type 0} → AgentEvent F → Bool
is_terminal (completed payload trace_id) = true
is_terminal (cancelled payload) = true
is_terminal (failed error_code safe_message) = true
is_terminal (started id) = false
is_terminal (thinking_delta delta) = false
is_terminal (text_delta delta) = false
is_terminal (tool_progress round done total) = false
is_terminal (usage_update prompt completion) = false

abbrev pub Quiet : {F : Type 0} → AgentEvent F → Type 0
Quiet e = is_terminal e ≡ false

-- The text that a reader of the events has seen.
abbrev pub text_of : {F : Type 0} → AgentEvent F → Text
text_of (text_delta delta) = delta
text_of (completed payload trace_id) = []
text_of (cancelled payload) = []
text_of (failed error_code safe_message) = []
text_of (started id) = []
text_of (thinking_delta delta) = []
text_of (tool_progress round done total) = []
text_of (usage_update prompt completion) = []

abbrev pub seen_text : {F : Type 0} → List (AgentEvent F) → Text
seen_text [] = []
seen_text (e ∷ es) = text_of e ++ seen_text es

abbrev pub first_event : {F : Type 0} → List (AgentEvent F) → Option (AgentEvent F)
first_event [] = none
first_event (e ∷ es) = some e

abbrev pub visible : ResponseContract → Text → Text
visible advisor_markdown text = text
visible (audit_answer_bundle version) text = []

-- Events that begin with `Started`, hold no terminal event and have shown a text.
pub record Log {F : Type 0} (id : Uuid) (text : Text) (events : List (AgentEvent F)) : Type 0 where
  pub begins : first_event events ≡ some (started id)
  pub quiet : All Quiet events
  pub seen : seen_text events ≡ text

-- A terminal event that cancels an advisor's answer gives the text that was seen, and one that cancels
-- an audit has no content.
abbrev pub Honest : {F : Type 0} → ResponseContract → Text → AgentEvent F → Type 0
Honest advisor_markdown text (cancelled payload) = payload ≡ advisor_partial_markdown text
Honest (audit_answer_bundle version) text (cancelled payload) = payload ≡ audit_no_content
Honest contract text (completed payload trace_id) = Unit
Honest contract text (failed error_code safe_message) = Unit
Honest contract text (started id) = Unit
Honest contract text (thinking_delta delta) = Unit
Honest contract text (text_delta delta) = Unit
Honest contract text (tool_progress round done total) = Unit
Honest contract text (usage_update prompt completion) = Unit

pub record Closed {F : Type 0} (contract : ResponseContract) (id : Uuid)
    (events : List (AgentEvent F)) : Type 0 where
  pub before : List (AgentEvent F)
  pub last : AgentEvent F
  pub text : Text
  pub split : events ≡ before ++ (last ∷ [])
  pub log : Log id (visible contract text) before
  pub ends : is_terminal last ≡ true
  pub honest : Honest contract text last

module _ {F : Type 0} where
  first_event-append :
      (es ys : List (AgentEvent F)) (e : AgentEvent F)
      → first_event es ≡ some e
      → first_event (es ++ ys) ≡ some e
  first_event-append [] ys e h = cc
  first_event-append (x ∷ es) ys e h = h

  seen_text-append :
      (es ys : List (AgentEvent F)) → seen_text (es ++ ys) ≡ seen_text es ++ seen_text ys
  seen_text-append [] ys = refl
  seen_text-append (e ∷ es) ys =
      ap (λ t. text_of e ++ t) (seen_text-append es ys)
      ∙ sym (append_assoc (text_of e) (seen_text es) (seen_text ys))

  pub Log-append :
      (id : Uuid) (text : Text) (es ys : List (AgentEvent F))
      → Log id text es
      → All Quiet ys
      → Log id (text ++ seen_text ys) (es ++ ys)
  Log-append id text es ys l q = record {
    begins = first_event-append es ys (started id) l.begins;
    quiet = All-append Quiet es ys l.quiet q;
    seen = seen_text-append es ys ∙ ap (λ t. t ++ seen_text ys) l.seen;
  }

  -- Events that show nothing leave the text.
  pub Log-silent :
      (id : Uuid) (text : Text) (es : List (AgentEvent F)) (e : AgentEvent F)
      → Log id text es
      → Quiet e
      → text_of e ≡ []
      → Log id text (es ++ (e ∷ []))
  Log-silent id text es e l q n =
      subst (λ t. Log id t (es ++ (e ∷ []))) (ap (λ t. text ++ (t ++ [])) n ∙ append-nil text)
        (Log-append id text es (e ∷ []) l (q, tt))
