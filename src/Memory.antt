-- ===== src/Memory.antt =====
-- src/lenkobot/memory.py, `SQLiteMemoryStore`: memories with their versions and revisions, and
-- relationships. The extraction runs stand in Memory/Runs.antt.
pub mod Runs
pub mod Activate
pub mod Candidate
pub mod Extraction
pub mod Coordinator
pub mod Tests
pub mod Update
pub mod Context
use lenko_bot.Prelude.{
  ℕ, ◌+◌, ◌*◌, ◌-◌, List, [], ◌∷◌, ◌++◌, Bool, true, false, ◌&&◌, ◌||◌, not, leb, ltb, ◌==◌,
  if◌then◌else◌, Option, none, some, is_some, Outcome, ok, err, ◌>>=◌, ◌>>◌, or_raise, raise_if,
  value_error, key_error, runtime_error, integrity_error, any, length, take, drop,
}
use lenko_bot.Prelude.Table.{find, select, update, count_where, next_id}
use lenko_bot.Text.{Text, text_eq, is_blank, strip}
use lenko_bot.State.{
  State, Body, transaction, reading, ◌>=>◌, insert_profile, MemoryRecord, MemoryRevision,
  MemoryScope, MemoryStatus, MemorySource, MemoryCategory, Float, power_of_two, is_confidence,
  Relationship,
}
use lenko_bot.State.Order.{order_by}
use lenko_bot.Session.Deletion.{delete_memories, comes_from}
use lenko_bot.Reminder.Profile.{default_id}

-- Times that are given as texts are instants here, as everywhere.
pub record NewMemory : Type 0 where
  pub user_id : ℕ
  pub scope : MemoryScope
  pub kind : Text
  pub content : Text
  pub persona_id : Option ℕ
  pub relationship_id : Option ℕ
  pub provenance_session_id : Option ℕ
  pub created_at : Option ℕ
  pub updated_at : Option ℕ
  pub source : MemorySource
  pub category : Option MemoryCategory
  pub confidence : Option Float
  pub provenance_turn_id : Option ℕ

abbrev pub is_automatic : MemorySource → Bool
is_automatic MemorySource.automatic = true
is_automatic MemorySource.manual = false

abbrev pub scope_eq : MemoryScope → MemoryScope → Bool
scope_eq MemoryScope.shared MemoryScope.shared = true
scope_eq MemoryScope.persona_private MemoryScope.persona_private = true
scope_eq MemoryScope.relationship MemoryScope.relationship = true
scope_eq _ _ = false

abbrev pub category_eq : MemoryCategory → MemoryCategory → Bool
category_eq MemoryCategory.fact MemoryCategory.fact = true
category_eq MemoryCategory.preference MemoryCategory.preference = true
category_eq MemoryCategory.goal MemoryCategory.goal = true
category_eq MemoryCategory.constraint MemoryCategory.constraint = true
category_eq MemoryCategory.relationship MemoryCategory.relationship = true
category_eq MemoryCategory.event MemoryCategory.event = true
category_eq _ _ = false

abbrev pub is_live : MemoryStatus → Bool
is_live MemoryStatus.active = true
is_live MemoryStatus.deleted = false

-- `column IS ?`: NULL is NULL.
abbrev pub is_same {ℓ} : {A : Type ℓ} → (A → A → Bool) → Option A → Option A → Bool
is_same eq none none = true
is_same eq none (some b) = false
is_same eq (some a) none = false
is_same eq (some a) (some b) = eq a b

-- `column = ?`: NULL equals nothing.
abbrev pub is_equal {ℓ} : {A : Type ℓ} → (A → A → Bool) → Option A → Option A → Bool
is_equal eq none o = false
is_equal eq (some a) none = false
is_equal eq (some a) (some b) = eq a b

-- Equality of floats; a zero has no sign.
unfoldable pub float_eq : Float → Float → Bool
unfolding power_of_two
float_eq (Float.dyadic s n e) (Float.dyadic t m d) =
    n * power_of_two d == m * power_of_two e && (n == 0 || (s && t) || (not s && not t))
float_eq _ _ = false

-- `_validate_memory_metadata`
unfoldable pub check_metadata :
    MemorySource → Option MemoryCategory → Option Float → Option ℕ → Outcome (Unit {0})
unfolding is_confidence
check_metadata source category confidence turn = do
  raise_if (is_automatic source && not (is_some category)) value_error
  raise_if (elim confidence [ none ↦ false | some c ↦ not (is_confidence c) ]) value_error
  raise_if (elim turn [ none ↦ false | some n ↦ n == 0 ]) value_error
  raise_if (is_automatic source && not (is_some turn)) value_error

unfoldable pub normalize_memory_metadata : NewMemory → Outcome (Unit {0})
normalize_memory_metadata m = check_metadata m.source m.category m.confidence m.provenance_turn_id

-- `length(trim(text)) > 0` fails: SQLite trims spaces only.
unfoldable pub is_sql_blank : Text → Bool
is_sql_blank t = not (any (λ c. not (c == 32)) t)

-- The CHECK of the scope's columns.
unfoldable pub has_scope_columns : MemoryScope → Option ℕ → Option ℕ → Bool
has_scope_columns MemoryScope.shared persona relationship =
    not (is_some persona) && not (is_some relationship)
has_scope_columns MemoryScope.persona_private persona relationship =
    is_some persona && not (is_some relationship)
has_scope_columns MemoryScope.relationship persona relationship =
    not (is_some persona) && is_some relationship

-- The constraints of the table: the texts, the scope's columns and the foreign keys.
unfoldable pub is_storable : NewMemory → State → Bool
unfolding is_sql_blank has_scope_columns
is_storable m st =
    not (is_sql_blank m.kind)
    && not (is_sql_blank m.content)
    && has_scope_columns m.scope m.persona_id m.relationship_id
    && elim m.persona_id [ none ↦ true | some p ↦ any (λ q. q.id == p) st.personas ]
    && elim m.relationship_id [
      | none ↦ true
      | some r ↦ any (λ q. q.id == r && q.user_id == m.user_id) st.relationships
    ]

-- `memory.created_at or timestamp`
abbrev pub or_else {ℓ} : {A : Type ℓ} → Option A → A → A
or_else none a = a
or_else (some b) a = b

unfoldable pub new_memory : NewMemory → ℕ → State → MemoryRecord
new_memory m timestamp st = record {
  id = next_id (λ r. r.id) st.memories;
  user_id = m.user_id;
  scope = m.scope;
  kind = m.kind;
  content = m.content;
  persona_id = m.persona_id;
  relationship_id = m.relationship_id;
  provenance_session_id = m.provenance_session_id;
  status = MemoryStatus.active;
  created_at = or_else m.created_at timestamp;
  updated_at = or_else m.updated_at (or_else m.created_at timestamp);
  version = 1;
  source = m.source;
  category = m.category;
  confidence = m.confidence;
  provenance_turn_id = m.provenance_turn_id;
}

-- The WHERE of the lookup of an automatic memory that is there already.
unfoldable pub is_same_memory : NewMemory → MemoryRecord → Bool
unfolding float_eq
is_same_memory m r =
    r.user_id == m.user_id
    && scope_eq r.scope m.scope
    && is_same (λ a b. a == b) r.persona_id m.persona_id
    && is_same (λ a b. a == b) r.relationship_id m.relationship_id
    && text_eq r.kind m.kind
    && text_eq r.content m.content
    && is_same (λ a b. a == b) r.provenance_session_id m.provenance_session_id
    && is_live r.status
    && is_automatic r.source
    && is_equal category_eq r.category m.category
    && is_same float_eq r.confidence m.confidence
    && is_equal (λ a b. a == b) r.provenance_turn_id m.provenance_turn_id

-- `id = ? AND user_id = ? AND status = 'active'`
abbrev pub is_owned_memory : ℕ → ℕ → MemoryRecord → Bool
is_owned_memory id owner r = r.id == id && r.user_id == owner && is_live r.status

unfoldable pub select_memory : ℕ → ℕ → State → Option MemoryRecord
select_memory id owner st = find (is_owned_memory id owner) st.memories

unfoldable pub insert_memory : NewMemory → ℕ → Body MemoryRecord
unfolding is_storable new_memory
insert_memory m timestamp st =
    let r = new_memory m timestamp st in
    let after = record st { memories = st.memories ++ r ∷ [] } in
    if not (is_storable m st)
    then err integrity_error
    else or_raise (select_memory r.id m.user_id after) runtime_error >>= λ row. ok (row, after)

unfoldable pub existing_memory : NewMemory → State → Option MemoryRecord
unfolding is_same_memory
existing_memory m st = if is_automatic m.source then find (is_same_memory m) st.memories else none

unfoldable pub create_in_transaction : NewMemory → ℕ → Body MemoryRecord
unfolding existing_memory insert_memory
create_in_transaction m timestamp st = elim (existing_memory m (insert_profile m.user_id st)) [
  | some r ↦ ok (r, insert_profile m.user_id st)
  | none ↦ insert_memory m timestamp (insert_profile m.user_id st)
]

unfoldable pub create : NewMemory → ℕ → State → Outcome MemoryRecord × State
unfolding normalize_memory_metadata create_in_transaction
create m now st = reading (normalize_memory_metadata m) st >=> λ _.
    transaction (create_in_transaction m (or_else m.created_at now))

-- `ORDER BY updated_at DESC, id DESC`
abbrev pub is_newer : MemoryRecord → MemoryRecord → Bool
is_newer r q = ltb q.updated_at r.updated_at || (q.updated_at == r.updated_at && ltb q.id r.id)

unfoldable pub list_for_user : ℕ → ℕ → ℕ → State → Outcome (List MemoryRecord)
list_for_user owner page page_size st = do
  raise_if (page == 0) value_error
  raise_if (page_size == 0) value_error
  ok (
      take page_size (
        drop ((page - 1) * page_size)
          (order_by is_newer (select (λ r. r.user_id == owner && is_live r.status) st.memories))))

unfoldable pub count_for_user : ℕ → State → ℕ
count_for_user owner st = count_where (λ r. r.user_id == owner && is_live r.status) st.memories

unfoldable pub memory_count : State → ℕ
memory_count st = length st.memories

unfoldable pub relationship_count : State → ℕ
relationship_count st = length st.relationships
