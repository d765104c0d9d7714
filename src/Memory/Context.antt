-- ===== src/Memory/Context.antt =====
-- src/lenkobot/memory.py: relationships, and the memories that go into a context (`list_for_context`).
use lenko_bot.Prelude.{
  ℕ, ◌+◌, List, [], ◌∷◌, ◌++◌, Bool, true, false, ◌&&◌, not, ◌==◌, if◌then◌else◌, Option, none,
  some, is_some, Outcome, err, or_raise, value_error, key_error, runtime_error, integrity_error,
  any, take,
}
use lenko_bot.Prelude.Table.{find, select, update, next_id}
use lenko_bot.Text.{Text}
use lenko_bot.State.{State, MemoryRecord, MemoryScope, Relationship}
use lenko_bot.State.Order.{order_by}
use lenko_bot.Memory.{is_live, scope_eq, is_newer}

-- `user_id = ? AND persona_id = ?`, the unique columns.
abbrev pub is_between : ℕ → ℕ → Relationship → Bool
is_between owner persona r = r.user_id == owner && r.persona_id == persona

unfoldable pub get_relationship : ℕ → ℕ → State → Option Relationship
get_relationship owner persona st = find (is_between owner persona) st.relationships

-- The row of an INSERT: no summary, the state `{}`, version 1.
unfoldable pub new_relationship : ℕ → ℕ → ℕ → State → Relationship
new_relationship owner persona now st = record {
  id = next_id (λ r. r.id) st.relationships;
  user_id = owner;
  persona_id = persona;
  summary = [];
  state_json = 123 ∷ 125 ∷ [];
  version = 1;
  updated_at = now;
}

-- `INSERT OR IGNORE INTO relationship`; the foreign key of the persona is not ignored.
unfoldable pub ensure_relationship : ℕ → ℕ → ℕ → State → Outcome Relationship × State
unfolding get_relationship new_relationship
ensure_relationship owner persona now st =
    let after = record st {
      relationships = st.relationships ++ new_relationship owner persona now st ∷ [];
    } in
    if any (is_between owner persona) st.relationships
    then (or_raise (get_relationship owner persona st) runtime_error, st)
    else if not (any (λ p. p.id == persona) st.personas)
    then (err integrity_error, st)
    else (or_raise (get_relationship owner persona after) runtime_error, after)

abbrev pub expects : Option ℕ → Relationship → Bool
expects none r = true
expects (some version) r = r.version == version

abbrev pub change_relationship : Text → Text → ℕ → Relationship → Relationship
change_relationship summary state now r = record r {
  summary = summary;
  state_json = state;
  version = r.version + 1;
  updated_at = now;
}

-- `json.loads` of the new state must not raise (nor SQLite's json_valid refuse it); a stale version is a RelationshipVersionConflict.
unfoldable pub update_relationship :
    (is_json : Text → Bool)
    → ℕ
    → ℕ
    → Text
    → Text
    → Option ℕ
    → ℕ
    → State
    → Outcome Relationship × State
unfolding get_relationship
update_relationship is_json owner persona summary state expected now st =
    let chosen = λ (r : Relationship). is_between owner persona r && expects expected r in
    let after = record st {
      relationships = update chosen (change_relationship summary state now) st.relationships;
    } in
    if not (is_json state)
    then (err value_error, st)
    else if any chosen st.relationships
    then (or_raise (get_relationship owner persona after) runtime_error, after)
    else if is_some (get_relationship owner persona st)
    then (err runtime_error, st)
    else (err key_error, st)

pub record MemoryLimits : Type 0 where
  pub shared : ℕ
  pub persona_private : ℕ
  pub relationship : ℕ
  pub total : ℕ

abbrev pub default_limits : MemoryLimits
default_limits = record { shared = 20; persona_private = 20; relationship = 20; total = 60 }

pub record MemoryContext : Type 0 where
  pub shared : List MemoryRecord
  pub persona_private : List MemoryRecord
  pub relationship : List MemoryRecord
  pub relationship_state : Option Relationship

-- `_list_records`: the newest active records of a test.
unfoldable pub list_records : (MemoryRecord → Bool) → ℕ → State → List MemoryRecord
list_records p limit st =
    take limit (order_by is_newer (select (λ r. is_live r.status && p r) st.memories))

abbrev pub is_shared_of : ℕ → MemoryRecord → Bool
is_shared_of owner r = r.user_id == owner && scope_eq r.scope MemoryScope.shared

abbrev pub refers : Option ℕ → ℕ → Bool
refers none n = false
refers (some m) n = m == n

abbrev pub is_private_of : ℕ → ℕ → MemoryRecord → Bool
is_private_of owner persona r =
    r.user_id == owner
    && scope_eq r.scope MemoryScope.persona_private
    && refers r.persona_id persona

-- The EXISTS over the relationships of the user with the persona.
abbrev pub is_relationship_of : ℕ → ℕ → State → MemoryRecord → Bool
is_relationship_of owner persona st r =
    r.user_id == owner
    && scope_eq r.scope MemoryScope.relationship
    && any (λ q. refers r.relationship_id q.id && q.user_id == r.user_id && q.persona_id == persona)
        st.relationships

-- The newest `total` of the three lists together.
unfoldable pub included : ℕ → List MemoryRecord → MemoryRecord → Bool
included total records r = any (λ q. q.id == r.id) (take total (order_by is_newer records))

unfoldable pub list_for_context : MemoryLimits → ℕ → ℕ → State → MemoryContext
unfolding list_records included get_relationship
list_for_context limits owner persona st =
    let shared = list_records (is_shared_of owner) limits.shared st in
    let private = list_records (is_private_of owner persona) limits.persona_private st in
    let relationship = list_records (is_relationship_of owner persona st) limits.relationship st in
    let chosen = included limits.total (shared ++ private ++ relationship) in
    record {
      shared = select chosen shared;
      persona_private = select chosen private;
      relationship = select chosen relationship;
      relationship_state = get_relationship owner persona st;
    }

-- `MemoryContext.records`
unfoldable pub context_records : MemoryContext → List MemoryRecord
context_records c = order_by is_newer (c.shared ++ c.persona_private ++ c.relationship)
