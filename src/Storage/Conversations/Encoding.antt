-- ===== src/Storage/Conversations/Encoding.antt =====
-- crates/mentat-storage/src/conversation.rs: a message is read as it was written.
use code_mentat.Base.{
  false, not, ◌&&◌, Option, none, some, [], Text, list_beq, ltb, Option-cases, ◌≡◌, refl, ap, subst,
  inl, inr, list_eq, nat_eq,
}
use code_mentat.Core.Error.{MentatError, ok, storage_error, >>=-eq-ok, fail_if-eq-ok}
use code_mentat.Core.Tools.{GroundingFreshness}
use code_mentat.Core.Conversation.{
  ChatRole, user, assistant, MessageStatus, pending, streaming, completed, cancelled, failed,
  ChatMessage,
}
use code_mentat.Storage.Conversations.Rows.{MessageRow, Codec, i64_max, or_fail_some, optional}
use code_mentat.Storage.Conversations.Messages.{
  role_text, encode_message_status, parse_role, parse_status, is_failed, is_given, into_message,
  message_row,
}

parse_role-role_text : (role : ChatRole) → parse_role (role_text role) ≡ ok role
unfolding parse_role role_text list_beq
parse_role-role_text user = refl
parse_role-role_text assistant = refl

parse_status-encode :
    (status : MessageStatus)
    → parse_status (encode_message_status status).0 (encode_message_status status).1 ≡ ok status
unfolding parse_status encode_message_status list_beq
parse_status-encode pending = refl
parse_status-encode streaming = refl
parse_status-encode completed = refl
parse_status-encode cancelled = refl
parse_status-encode (failed error_code) = refl

-- Only a failed message has a code.
given-is_failed :
    (status : MessageStatus)
    → (not (is_failed status) && is_given (encode_message_status status).1) ≡ false
unfolding encode_message_status
given-is_failed pending = refl
given-is_failed streaming = refl
given-is_failed completed = refl
given-is_failed cancelled = refl
given-is_failed (failed error_code) = refl

-- A column that was written is read back.
optional_read :
    {A : Type 0} (e f : MentatError) (write : A → Option Text) (read : Text → Option A)
    → ((a : A) (x : Text) → write a ≡ some x → read x ≡ some a)
    → (o : Option A) (c : Option Text) → optional e write o ≡ ok c
    → optional f read c ≡ ok o
optional_read e f write read law none c h =
    let made : none ≡ c = cc h in subst (λ x. optional f read x ≡ ok none) made refl
optional_read e f write read law (some a) c h = elim (Option-cases (write a)) [
  | inl n ↦ absurd (none_written (write a) n h)
  | inr (x, k) ↦
      let made : some x ≡ c = cc (k, h) in
      subst (λ y. optional f read y ≡ ok (some a)) made (ap (or_fail_some f) (law a x k))
]
  where
    none_written : (w : Option Text) → w ≡ none → or_fail_some e w ≡ ok c → ⊥
    none_written none n h = cc h
    none_written (some x) n h = cc n

module _ {F : Type 0} (codec : Codec F) where
  -- When what is written of a freshness is read as that freshness, a message that is written as a row
  -- is read from it as it was, but for the ids of its sources, which the row does not hold.
  pub into_message-message_row :
      (message : ChatMessage) (row : MessageRow)
      → ((f : GroundingFreshness) (x : Text)
          → codec.encode_freshness f ≡ some x
          → codec.decode_freshness x ≡ some f)
      → message_row codec message ≡ ok row
      → into_message codec row ≡ ok (record message { source_ref_ids = [] })
  unfolding message_row into_message
  into_message-message_row message row law h =
      let a =
        >>=-eq-ok
          (optional (storage_error "GROUNDING_FRESHNESS_ENCODE_FAILED") codec.encode_freshness
            message.grounding_freshness)
          _ row h in
      let b = fail_if-eq-ok (ltb i64_max message.ordinal) _ _ row a.2 in
      let back =
        optional_read (storage_error "GROUNDING_FRESHNESS_ENCODE_FAILED")
          (storage_error "STORAGE_DECODE_GROUNDING") codec.encode_freshness codec.decode_freshness
          law message.grounding_freshness a.0 a.1 in
      let made : record {
        id = message.id;
        conversation_id = message.conversation_id;
        turn_id = message.turn_id;
        role = role_text message.role;
        ordinal = message.ordinal;
        markdown = message.markdown;
        status = (encode_message_status message.status).0;
        error_code = (encode_message_status message.status).1;
        grounding_trace_id = message.grounding_trace_id;
        grounding_freshness = a.0;
        created_at = message.created_at;
        updated_at = message.updated_at;
      }
          ≡ row =
        cc b.1 in
      subst (λ (r : MessageRow). into_message codec r ≡ ok (record message { source_ref_ids = [] }))
        made
        (rw
          (
            parse_role-role_text message.role,
            parse_status-encode message.status,
            given-is_failed message.status,
            back,
          )
          refl)
