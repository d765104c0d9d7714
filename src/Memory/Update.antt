-- ===== src/Memory/Update.antt =====
-- src/lenkobot/memory.py: `update` with the expected version, `list_revisions`, `delete`,
-- `delete_by_provenance_turn` and `promote_to_shared`.
pub mod Version
use lenko_bot.Prelude.{
  ℕ, ◌+◌, List, [], ◌∷◌, ◌++◌, Bool, true, false, ◌&&◌, ◌||◌, not, ltb, ◌==◌, if◌then◌else◌, Option,
  none, some, Outcome, ok, err, ◌>>=◌, ◌>>◌, or_raise, raise_if, value_error, key_error,
  runtime_error, integrity_error, any,
}
use lenko_bot.Prelude.Table.{find, select, update, count_where, next_id}
use lenko_bot.Text.{Text}
use lenko_bot.State.{
  State, Body, transaction, reading, ◌>=>◌, insert_profile, MemoryRecord, MemoryRevision,
  MemoryScope, MemoryCategory, Float,
}
use lenko_bot.State.Order.{order_by}
use lenko_bot.Session.Deletion.{delete_memories, comes_from}
use lenko_bot.Memory.{is_owned_memory, select_memory, check_metadata, is_sql_blank, or_else}

-- The columns that an update sets.
pub record Change : Type 0 where
  pub kind : Text
  pub content : Text
  pub category : Option MemoryCategory
  pub confidence : Option Float

abbrev pub change_memory : Change → ℕ → MemoryRecord → MemoryRecord
change_memory c now r = record r {
  kind = c.kind;
  content = c.content;
  category = c.category;
  confidence = c.confidence;
  version = r.version + 1;
  updated_at = now;
}

abbrev pub has_version : ℕ → ℕ → ℕ → MemoryRecord → Bool
has_version id owner version r = is_owned_memory id owner r && r.version == version

unfoldable pub new_revision : ℕ → MemoryRecord → ℕ → State → MemoryRevision
new_revision owner r now st = record {
  id = next_id (λ v. v.id) st.revisions;
  memory_id = r.id;
  owner_user_id = owner;
  version = r.version;
  content = r.content;
  category = r.category;
  confidence = r.confidence;
  changed_at = now;
}

-- A revision is unique in its memory and version.
unfoldable pub insert_revision : ℕ → MemoryRecord → ℕ → Body MemoryRecord
unfolding new_revision
insert_revision owner r now st =
    if any (λ v. v.memory_id == r.id && v.version == r.version) st.revisions
    then err integrity_error
    else ok (r, record st { revisions = st.revisions ++ new_revision owner r now st ∷ [] })

unfoldable pub update_body : ℕ → ℕ → ℕ → Change → ℕ → Body MemoryRecord
unfolding is_sql_blank insert_revision
update_body id owner expected c now st = do
  let base = insert_profile owner st
  let rows = update (has_version id owner expected) (change_memory c now) base.memories
  raise_if (not (any (has_version id owner expected) base.memories)) runtime_error
  raise_if (is_sql_blank c.kind || is_sql_blank c.content) integrity_error
  updated ← or_raise (find (λ r. r.id == id) rows) runtime_error
  insert_revision owner updated now (record base { memories = rows })

-- `current.category if category is None else category`
abbrev pub or_current {ℓ} : {A : Type ℓ} → Option A → Option A → Option A
or_current none current = current
or_current (some a) current = some a

abbrev pub change_of :
    MemoryRecord → Text → Option Text → Option MemoryCategory → Option Float → Change
change_of current content kind category confidence = record {
  kind = or_else kind current.kind;
  content = content;
  category = or_current category current.category;
  confidence = or_current confidence current.confidence;
}

unfoldable pub update_memory :
    ℕ
    → ℕ
    → Text
    → Option Text
    → Option MemoryCategory
    → Option Float
    → Option ℕ
    → ℕ
    → State
    → Outcome MemoryRecord × State
unfolding update_body
update_memory id owner content kind category confidence expected now st =
    reading (or_raise (select_memory id owner st) key_error) st >=> λ current st.
    reading
      (check_metadata current.source (or_current category current.category)
        (or_current confidence current.confidence) current.provenance_turn_id)
      st
    >=> λ _. transaction (
        update_body id owner (or_else expected current.version)
          (change_of current content kind category confidence) now)

unfoldable pub list_revisions : ℕ → ℕ → State → Outcome (List MemoryRevision)
list_revisions id owner st = do
  raise_if (id == 0 || owner == 0) value_error
  ok (
      order_by (λ v w. ltb v.version w.version)
        (select (λ v. v.memory_id == id && v.owner_user_id == owner) st.revisions))

abbrev pub is_deleted_memory : ℕ → ℕ → MemoryRecord → Bool
is_deleted_memory id owner r = r.id == id && r.user_id == owner

unfoldable pub delete_memory : ℕ → ℕ → State → Outcome Bool × State
delete_memory id owner st = (
  ok (count_where (is_deleted_memory id owner) st.memories == 1),
  delete_memories (is_deleted_memory id owner) st,
)

unfoldable pub delete_by_provenance_turn : ℕ → ℕ → State → Outcome ℕ × State
delete_by_provenance_turn turn owner st =
    if turn == 0 || owner == 0 then (err value_error, st) else (
      ok (count_where (comes_from owner turn) st.memories),
      delete_memories (comes_from owner turn) st,
    )

abbrev pub share : ℕ → MemoryRecord → MemoryRecord
share now r = record r {
  scope = MemoryScope.shared;
  persona_id = none;
  relationship_id = none;
  updated_at = now;
}

unfoldable pub promote_to_shared : ℕ → ℕ → ℕ → State → Outcome MemoryRecord × State
promote_to_shared id owner now st =
    let after = record st {
      memories = update (is_owned_memory id owner) (share now) st.memories;
    } in
    if not (any (is_owned_memory id owner) st.memories)
    then (err key_error, after)
    else (or_raise (select_memory id owner after) runtime_error, after)
