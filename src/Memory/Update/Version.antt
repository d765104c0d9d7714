-- ===== src/Memory/Update/Version.antt =====
-- The expected version of `update`: of two updates that expect the same one, the second is refused.
use lenko_bot.Prelude.{
  ◌+◌, true, ◌||◌, arith, ℕ, ◌≡◌, refl, List, [], ◌∷◌, false, ◌||◌, not, inl, inr, arith, Option,
  some, Outcome, ok, err, Error, >>=-elim, or_raise, raise_if-passed, key_error, runtime_error,
  integrity_error, Bool-cases, Outcome-cases, ◌==◌, any,
}
use lenko_bot.Prelude.Table.{find, update}
use lenko_bot.Text.{Text}
use lenko_bot.State.{
  State, transaction, reading, ◌>=>◌, insert_profile, MemoryRecord, MemoryCategory, Float,
}
use lenko_bot.State.Laws.{>=>-elim, transaction-eq-ok}
use lenko_bot.Memory.{select_memory, check_metadata, is_sql_blank}
use lenko_bot.Memory.Update.{
  Change, change_memory, has_version, insert_revision, update_body, or_current, change_of,
  update_memory,
}

-- No row has the version any more that an update has changed.
bumped :
    (id owner version : ℕ) (c : Change) (now : ℕ) (xs : List MemoryRecord)
    → any
        (has_version id owner version)
        (update (has_version id owner version) (change_memory c now) xs)
      ≡ false
unfolding update
bumped id owner version c now [] = refl
bumped id owner version c now (x ∷ xs) = elim (Bool-cases (has_version id owner version x)) [
  | inl e ↦ rw (e, bumped id owner version c now xs) (ground arith)
  | inr e ↦ rw (e, bumped id owner version c now xs) (ground (arith, e))
]

-- The row that an update has changed has the next version.
raised_version :
    (id owner version : ℕ) (c : Change) (now : ℕ) (xs : List MemoryRecord)
    → any (has_version id owner version) xs ≡ true
    → any
        (has_version id owner (version + 1))
        (update (has_version id owner version) (change_memory c now) xs)
      ≡ true
unfolding update
raised_version id owner version c now [] h = cc
raised_version id owner version c now (x ∷ xs) h =
    elim (Bool-cases (has_version id owner version x)) [
      | inl e ↦ rw e (ground (arith, e))
      | inr e ↦ rw (e, raised_version id owner version c now xs (rw (e, ◌||◌) at h)) (ground arith)
    ]

insert_profile-memories :
    (owner : ℕ) (st : State) → (insert_profile owner st).memories ≡ st.memories
unfolding insert_profile
insert_profile-memories owner st = ground arith

insert_revision-memories :
    (owner : ℕ) (row : MemoryRecord) (now : ℕ) (st after : State) (r : MemoryRecord)
    → insert_revision owner row now st ≡ ok (r, after)
    → after.memories ≡ st.memories
unfolding insert_revision
insert_revision-memories owner row now st after r h = ground arith

updated-memories :
    (id owner expected : ℕ) (c : Change) (now : ℕ) (st after : State) (r : MemoryRecord)
    → update_body id owner expected c now st ≡ ok (r, after)
    → (after.memories
        ≡ update
            (has_version id owner expected)
            (change_memory c now)
            (insert_profile owner st).memories)
      × (any (has_version id owner expected) (insert_profile owner st).memories ≡ true)
unfolding update_body
updated-memories id owner expected c now st after r h =
    let base = insert_profile owner st in
    let rows = update (has_version id owner expected) (change_memory c now) base.memories in
    let there =
      raise_if-passed (not (any (has_version id owner expected) base.memories)) runtime_error _ h in
    let texts =
      raise_if-passed (is_sql_blank c.kind || is_sql_blank c.content) integrity_error _ there.1 in
    >>=-elim (or_raise (find (λ x. x.id == id) rows) runtime_error) _ (r, after) texts.1
      λ row e k. (
        insert_revision-memories owner row now (record base { memories = rows }) after r k,
        ground (arith, there.0),
      )

-- An update of a row that has another version is refused.
stale_body :
    (id owner expected : ℕ) (c : Change) (now : ℕ) (st : State)
    → any (has_version id owner expected) st.memories ≡ false
    → update_body id owner expected c now st ≡ err runtime_error
unfolding update_body
stale_body id owner expected c now st h = rw (insert_profile-memories owner st, h) refl

refused :
    (id owner expected : ℕ) (c : Change) (now : ℕ) (st : State)
    → any (has_version id owner expected) st.memories ≡ false
    → transaction (update_body id owner expected c now) st ≡ (err runtime_error, st)
refused id owner expected c now st h =
    rw (transaction, stale_body id owner expected c now st h) refl

stale_update :
    (id owner : ℕ) (content : Text) (kind : Option Text) (category : Option MemoryCategory)
    (confidence : Option Float) (expected now : ℕ) (st : State)
    → any (has_version id owner expected) st.memories ≡ false
    → (e : Error) × (update_memory id owner content kind category confidence (some expected) now st
        ≡ (err e, st))
unfolding update_memory
stale_update id owner content kind category confidence expected now st h =
    read (or_raise (select_memory id owner st) key_error)
  where
    read :
        (o : Outcome MemoryRecord)
        → (e : Error) × ((reading o st >=> λ current st.
              reading
                (check_metadata current.source
                  (or_current category current.category)
                  (or_current confidence current.confidence)
                  current.provenance_turn_id)
                st
              >=> λ _. transaction (
                  update_body id owner expected
                    (change_of current content kind category confidence)
                    now))
            ≡ (err e, st))
    read (err e) = (e, refl)
    read (ok current) =
        elim (Outcome-cases (
          check_metadata current.source (or_current category current.category)
            (or_current confidence current.confidence) current.provenance_turn_id)) [
              | inr (e, k) ↦ (e, rw k refl)
              | inl (_, k) ↦ (
                runtime_error,
                rw k (
                    refused id owner expected (change_of current content kind category confidence)
                      now st h),
              )
            ]

-- After an update that returned, the owner's memory has the version after the expected one, and an
-- update of it that expects the same version again raises, whatever it would set and whenever it
-- comes, and leaves the state as it was.
pub update_memory-again :
    (id owner : ℕ) (content again : Text) (kind other : Option Text)
    (category into : Option MemoryCategory) (confidence belief : Option Float)
    (expected now later : ℕ) (st after : State) (r : MemoryRecord)
    → update_memory id owner content kind category confidence (some expected) now st ≡ (ok r, after)
    → (any (has_version id owner (expected + 1)) after.memories ≡ true)
      × ((e : Error) × (update_memory id owner again other into belief (some expected) later after
            ≡ (err e, after)))
unfolding update_memory
update_memory-again id owner content again kind other category into confidence belief expected now
      later st after r h =
    >=>-elim (reading (or_raise (select_memory id owner st) key_error) st) _ r after h
      λ current _ h1.
        >=>-elim
          (reading
            (check_metadata current.source (or_current category current.category)
              (or_current confidence current.confidence) current.provenance_turn_id)
            st)
          _ r after h1
          λ _ _ h2.
            let c = change_of current content kind category confidence in
            let rows =
              updated-memories id owner expected c now st after r
                (transaction-eq-ok (update_body id owner expected c now) st r after h2) in
            let base = (insert_profile owner st).memories in
            (
              rw rows.0 (raised_version id owner expected c now base rows.1),
              stale_update id owner again other into belief expected later after
                  (rw rows.0 (bumped id owner expected c now base)),
            )
