-- ===== src/Storage/Conversations/Moves.antt =====
-- crates/mentat-storage/src/conversation.rs: what every operation leaves of the messages that are
-- over and of the turns that are finished.
use code_mentat.Base.{
  Text, Option, Bool, true, false, some, [], ◌∷◌, ◌++◌, any, find, ◌≡◌, refl, sym, ap, subst, ◌∙◌,
  inl, inr, Bool-cases, ==-sound, arith, list_eq, nat_eq, ◌==◌,
}
use code_mentat.Core.Error.{
  MentatError, Result, ok, err, Result-cases, storage_error, ◌>>=◌, ◌>>◌, fail_if, >>=-eq-ok,
  fail_if-eq-ok,
}
use code_mentat.Core.Models.{Uuid}
use code_mentat.Storage.Receipts.{Sqlite}
use code_mentat.Storage.Conversations.Rows.{
  TurnRow, MessageRow, Tables, update_where, count_where, has_turn, find_message,
}
use code_mentat.Storage.Conversations.Updates.{
  find-update_where_kept, find-append_kept, any-append_left, any-update_where,
  count_where-update_where_none, count_where-append,
}
use code_mentat.Storage.Conversations.Turns.{transaction, checked, settled, is_unfinished}
use code_mentat.Storage.Conversations.Deletion.{is_left_open}

-- A turn is there and none of its rows is unfinished.
pub record IsFinished (id : Uuid) (t : Tables) : Type 0 where
  pub there : has_turn id t ≡ true
  pub over : count_where (is_unfinished id) t.turns ≡ 0

-- A message has a row that is the given one but for the freshness of its sources.
abbrev pub KeepsRow : Uuid → MessageRow → Tables → Type 0
KeepsRow id row t =
    (freshness : Option Text) × (find_message id t
      ≡ some (record row { grounding_freshness = freshness }))

pub record Moves (t u : Tables) : Type 0 where
  pub messages_kept :
      (id : Uuid) (row : MessageRow)
      → find_message id t ≡ some row
      → is_left_open row ≡ false
      → KeepsRow id row u
  pub turns_kept : (id : Uuid) → has_turn id t ≡ true → has_turn id u ≡ true
  pub finished_kept : (id : Uuid) → IsFinished id t → count_where (is_unfinished id) u.turns ≡ 0

-- The messages and the turns decide.
pub Moves-same : (t u : Tables) → t.messages ≡ u.messages → t.turns ≡ u.turns → Moves t u
Moves-same t u m s = record {
  messages_kept = λ id row h k. (
    row.grounding_freshness,
    subst (λ rows. find (λ (r : MessageRow). r.id == id) rows ≡ some row) m h,
  );
  turns_kept = λ id h. subst (λ rows. any (λ (r : TurnRow). r.id == id) rows ≡ true) s h;
  finished_kept = λ id h. subst (λ rows. count_where (is_unfinished id) rows ≡ 0) s h.over;
}

pub Moves-trans : (t u v : Tables) → Moves t u → Moves u v → Moves t v
Moves-trans t u v m n = record {
  messages_kept = λ id row h k.
      let kept = m.messages_kept id row h k in
      n.messages_kept id (record row { grounding_freshness = kept.0 }) kept.1 k;
  turns_kept = λ id h. n.turns_kept id (m.turns_kept id h);
  finished_kept = λ id h.
      n.finished_kept id (record { there = m.turns_kept id h.there; over = m.finished_kept id h });
}

pub Moves-messages :
    (t : Tables) (test : MessageRow → Bool) (change : MessageRow → MessageRow)
    → ((id : Uuid) (y : MessageRow) → ((change y).id == id) ≡ (y.id == id))
    → ((y : MessageRow) → is_left_open y ≡ false → test y ≡ false)
    → Moves t (record t { messages = update_where test change t.messages })
Moves-messages t test change same closed = record {
  messages_kept = λ id row h k. (
    row.grounding_freshness,
    find-update_where_kept (λ (r : MessageRow). r.id == id) test change row t.messages (same id) h
        (closed row k),
  );
  turns_kept = λ id h. h;
  finished_kept = λ id h. h.over;
}

pub Moves-turns :
    (t : Tables) (test : TurnRow → Bool) (change : TurnRow → TurnRow)
    → ((id : Uuid) (y : TurnRow) → ((change y).id == id) ≡ (y.id == id))
    → ((id : Uuid) (y : TurnRow) → is_unfinished id y ≡ false → is_unfinished id (change y) ≡ false)
    → Moves t (record t { turns = update_where test change t.turns })
Moves-turns t test change same closed = record {
  messages_kept = λ id row h k. (row.grounding_freshness, h);
  turns_kept =
      λ id h. any-update_where (λ (r : TurnRow). r.id == id) test change t.turns (same id) ∙ h;
  finished_kept = λ id h.
      count_where-update_where_none (is_unfinished id) test change t.turns (closed id) h.over;
}

pub Moves-new_message :
    (t : Tables) (row : MessageRow) → Moves t (record t { messages = t.messages ++ (row ∷ []) })
Moves-new_message t row = record {
  messages_kept = λ id found h k. (
    found.grounding_freshness,
    find-append_kept (λ (r : MessageRow). r.id == id) found t.messages (row ∷ []) h,
  );
  turns_kept = λ id h. h;
  finished_kept = λ id h. h.over;
}

-- A turn whose id is not there yet.
new_turn-over :
    (id : Uuid) (t : Tables) (row : TurnRow)
    → has_turn row.id t ≡ false
    → has_turn id t ≡ true
    → is_unfinished id row ≡ false
unfolding is_unfinished
new_turn-over id t row new there = elim (Bool-cases (row.id == id)) [
  | inl e ↦
      let same : row.id ≡ id = ==-sound row.id id e in
      let twice : has_turn row.id t ≡ true = subst (λ i. has_turn i t ≡ true) (sym same) there in
      absurd (clash (sym new ∙ twice))
  | inr e ↦ rw e refl
]
  where
    clash : false ≡ true → ⊥
    clash h = cc

pub Moves-new_turn :
    (t : Tables) (row : TurnRow)
    → has_turn row.id t ≡ false
    → Moves t (record t { turns = t.turns ++ (row ∷ []) })
unfolding count_where
Moves-new_turn t row new = record {
  messages_kept = λ id found h k. (found.grounding_freshness, h);
  turns_kept = λ id h. any-append_left (λ (r : TurnRow). r.id == id) t.turns (row ∷ []) h;
  finished_kept = λ id h.
      let none_new = new_turn-over id t row new h.there in
      ground (arith, count_where-append (is_unfinished id) t.turns (row ∷ []), h.over, none_new);
}

-- A transaction moves as what it commits.
pub transaction-Moves :
    (io : Sqlite) (begin_error commit_error : MentatError) (body : Tables → Result Tables)
    (t : Tables)
    → ((u : Tables) → body t ≡ ok u → Moves t u)
    → Moves t (transaction io begin_error commit_error body t).0
unfolding transaction
transaction-Moves io begin_error commit_error body t moves =
    elim (Result-cases (
      fail_if io.lock_poisoned (storage_error "STORAGE_LOCK_POISONED")
      >> (fail_if io.begin_fails begin_error
          >> (body t >>= λ u. fail_if io.commit_fails commit_error >> ok u)))) [
            | inl (u, h) ↦
                let a = fail_if-eq-ok io.lock_poisoned _ _ u h in
                let b = fail_if-eq-ok io.begin_fails _ _ u a.1 in
                let c = >>=-eq-ok (body t) _ u b.1 in
                let d = fail_if-eq-ok io.commit_fails _ _ u c.2 in
                let same : c.0 ≡ u = cc d.1 in rw h (subst (Moves t) same (moves c.0 c.1))
            | inr (e, h) ↦ rw h (Moves-same t t refl refl)
          ]

settled-eq-ok :
    (io : Sqlite) (t u : Tables) (r : Result Tables) → settled io t r ≡ (u, ok tt) → r ≡ ok u
settled-eq-ok io t u (ok v) h = cc h
settled-eq-ok io t u (err e) h = cc h

-- What a transaction that succeeds has done, and what one that fails leaves.
pub transaction-eq-ok :
    (io : Sqlite) (begin_error commit_error : MentatError) (body : Tables → Result Tables)
    (t u : Tables)
    → transaction io begin_error commit_error body t ≡ (u, ok tt)
    → body t ≡ ok u
unfolding transaction
transaction-eq-ok io begin_error commit_error body t u h =
    let a = fail_if-eq-ok io.lock_poisoned _ _ u (settled-eq-ok io t u _ h) in
    let b = fail_if-eq-ok io.begin_fails _ _ u a.1 in
    let c = >>=-eq-ok (body t) _ u b.1 in
    let d = fail_if-eq-ok io.commit_fails _ _ u c.2 in c.1 ∙ d.1

settled-eq-err :
    (io : Sqlite) (t u : Tables) (e : MentatError) (r : Result Tables)
    → settled io t r ≡ (u, err e)
    → u ≡ t
settled-eq-err io t u e (ok v) h = cc h
settled-eq-err io t u e (err f) h = cc h

pub transaction-eq-err :
    (io : Sqlite) (begin_error commit_error : MentatError) (body : Tables → Result Tables)
    (t u : Tables) (e : MentatError)
    → transaction io begin_error commit_error body t ≡ (u, err e)
    → u ≡ t
unfolding transaction
transaction-eq-err io begin_error commit_error body t u e h =
    settled-eq-err io t u e
      (fail_if io.lock_poisoned (storage_error "STORAGE_LOCK_POISONED")
        >> (fail_if io.begin_fails begin_error
            >> (body t >>= λ v. fail_if io.commit_fails commit_error >> ok v)))
      h

-- A transaction whose body has no result fails and leaves the tables.
pub transaction_refused :
    (io : Sqlite) (begin_error commit_error : MentatError) (body : Tables → Result Tables)
    (t : Tables)
    → ((u : Tables) → body t ≡ ok u → ⊥)
    → (e : MentatError) × (transaction io begin_error commit_error body t ≡ (t, err e))
unfolding transaction
transaction_refused io begin_error commit_error body t never =
    let steps : Result Tables =
      fail_if io.lock_poisoned (storage_error "STORAGE_LOCK_POISONED")
      >> (fail_if io.begin_fails begin_error
          >> (body t >>= λ v. fail_if io.commit_fails commit_error >> ok v)) in
    elim (Result-cases steps) [
      | inl (u, h) ↦
          let a = fail_if-eq-ok io.lock_poisoned _ _ u h in
          let b = fail_if-eq-ok io.begin_fails _ _ u a.1 in
          let c = >>=-eq-ok (body t) _ u b.1 in absurd (never c.0 c.1)
      | inr (e, h) ↦ (e, ap (settled io t) h)
    ]

-- A checked transaction moves as its own; one that fails, at the check or later, leaves the tables.
pub checked-Moves :
    (t : Tables) (r : Result (Unit {0})) (rest : Tables × Result (Unit {0}))
    → Moves t rest.0
    → Moves t (checked t r rest).0
checked-Moves t (ok v) rest m = m
checked-Moves t (err e) rest m = Moves-same t t refl refl

pub checked-eq-ok :
    (t u : Tables) (r : Result (Unit {0})) (rest : Tables × Result (Unit {0}))
    → checked t r rest ≡ (u, ok tt)
    → (r ≡ ok tt) × (rest ≡ (u, ok tt))
checked-eq-ok t u (ok v) rest h = (refl, h)
checked-eq-ok t u (err e) rest h = cc h

pub checked-eq-err :
    (t u : Tables) (e : MentatError) (r : Result (Unit {0})) (rest : Tables × Result (Unit {0}))
    → (rest ≡ (u, err e) → u ≡ t)
    → checked t r rest ≡ (u, err e)
    → u ≡ t
checked-eq-err t u e (ok v) rest f h = f h
checked-eq-err t u e (err g) rest f h = cc h
