-- ===== src/Memory/Runs.antt =====
-- The extraction runs of src/lenkobot/memory.py: a run of a source turn goes from pending to
-- processing, and from there to completed, failed, discarded or back.
pub mod Transition
pub mod Laws
use lenko_bot.Prelude.{
  ℕ, ◌+◌, List, [], ◌∷◌, ◌++◌, Bool, true, false, ◌&&◌, ◌||◌, not, leb, ltb, ◌==◌, if◌then◌else◌,
  Option, none, some, Outcome, ok, err, ◌>>=◌, ◌>>◌, or_raise, raise_if, value_error, key_error,
  runtime_error, any, map,
}
use lenko_bot.Prelude.Table.{find, select, update, next_id}
use lenko_bot.Text.{Text}
use lenko_bot.Reminder.Types.{Profile}
use lenko_bot.Reminder.Store.{is_active_state}
use lenko_bot.Reminder.Delivery.{is_error_kind}
use lenko_bot.State.{
  State, Body, transaction, reading, ◌>=>◌, Session, is_open, MemoryExtractionRun,
  ExtractionRunStatus, profile_of, session_by_id, owns_session,
}
use lenko_bot.State.Order.{order_by}

abbrev pub status_eq : ExtractionRunStatus → ExtractionRunStatus → Bool
status_eq ExtractionRunStatus.pending ExtractionRunStatus.pending = true
status_eq ExtractionRunStatus.processing ExtractionRunStatus.processing = true
status_eq ExtractionRunStatus.completed ExtractionRunStatus.completed = true
status_eq ExtractionRunStatus.failed ExtractionRunStatus.failed = true
status_eq ExtractionRunStatus.discarded ExtractionRunStatus.discarded = true
status_eq _ _ = false

-- `session_id = ? AND source_turn_id = ? AND lifecycle_epoch = ?`, the unique columns.
abbrev pub is_run_of : ℕ → ℕ → ℕ → MemoryExtractionRun → Bool
is_run_of session turn epoch r =
    r.session_id == session && r.source_turn_id == turn && r.lifecycle_epoch == epoch

unfoldable pub new_run : ℕ → ℕ → ℕ → ℕ → ℕ → State → MemoryExtractionRun
new_run owner session turn epoch now st = record {
  id = next_id (λ r. r.id) st.runs;
  owner_user_id = owner;
  session_id = session;
  source_turn_id = turn;
  lifecycle_epoch = epoch;
  status = ExtractionRunStatus.pending;
  attempt = 0;
  error_kind = none;
  created_at = now;
  updated_at = now;
}

-- `INSERT OR IGNORE INTO memory_extraction_run`
unfoldable pub insert_run : ℕ → ℕ → ℕ → ℕ → ℕ → State → State
unfolding new_run
insert_run owner session turn epoch now st =
    if any (is_run_of session turn epoch) st.runs
    then st
    else record st { runs = st.runs ++ new_run owner session turn epoch now st ∷ [] }

-- The JOIN of the session with its owner's profile.
unfoldable pub session_with_profile : ℕ → State → Option (Session × Profile)
session_with_profile session st = elim (session_by_id st session) [
  | none ↦ none
  | some s ↦ elim (profile_of st s.owner_user_id) [ none ↦ none | some p ↦ some (s, p) ]
]

unfoldable pub ensure_run_body : ℕ → ℕ → ℕ → ℕ → Body (Option MemoryExtractionRun)
unfolding insert_run session_with_profile
ensure_run_body owner session turn now st = do
  joined ← or_raise (session_with_profile session st) key_error
  raise_if (not ((joined.0).owner_user_id == owner)) key_error
  raise_if (not (is_open (joined.0).status)) runtime_error
  raise_if (not (is_active_state (joined.1).lifecycle_state)) runtime_error
  source ← or_raise (find (λ t. t.id == turn && t.session_id == session) st.turns) value_error
  let after = insert_run owner session turn (joined.1).lifecycle_epoch now st
  ok (find (is_run_of session turn (joined.1).lifecycle_epoch) after.runs, after)

unfoldable pub ensure_extraction_run : ℕ → ℕ → ℕ → ℕ → State → Outcome MemoryExtractionRun × State
unfolding ensure_run_body
ensure_extraction_run owner session turn now st =
    if owner == 0 || session == 0 || turn == 0
    then (err value_error, st)
    else transaction (ensure_run_body owner session turn now) st >=> λ row.
        reading (or_raise row runtime_error)

abbrev pub is_owned_run : ℕ → ℕ → MemoryExtractionRun → Bool
is_owned_run id owner r = r.id == id && r.owner_user_id == owner

unfoldable pub get_extraction_run : ℕ → ℕ → State → Outcome (Option MemoryExtractionRun)
get_extraction_run id owner st = do
  raise_if (id == 0 || owner == 0) value_error
  ok (find (is_owned_run id owner) st.runs)

-- `ORDER BY id ASC`
abbrev pub by_id : MemoryExtractionRun → MemoryExtractionRun → Bool
by_id r q = ltb r.id q.id

unfoldable pub list_extraction_runs : ℕ → ℕ → State → Outcome (List MemoryExtractionRun)
list_extraction_runs owner session st = do
  raise_if (owner == 0 || session == 0) value_error
  ok (order_by by_id (select (λ r. r.owner_user_id == owner && r.session_id == session) st.runs))

-- The JOIN of the owner's runs with the owner's sessions of the lane.
abbrev pub is_in_lane : ℕ → ℕ → State → MemoryExtractionRun → Bool
is_in_lane owner lane st r =
    r.owner_user_id == owner
    && any (λ s. s.id == r.session_id && s.owner_user_id == owner && s.persona_session_id == lane)
        st.sessions

unfoldable pub list_extraction_runs_for_lane : ℕ → ℕ → State → Outcome (List MemoryExtractionRun)
list_extraction_runs_for_lane owner lane st = do
  raise_if (owner == 0 || lane == 0) value_error
  ok (order_by by_id (select (is_in_lane owner lane st) st.runs))

-- `SELECT DISTINCT ... ORDER BY`: each lane that has a run, in order.
unfoldable pub distinct : List ℕ → List ℕ
distinct [] = []
distinct (n ∷ ns) = let rest = distinct ns in if any (λ m. m == n) rest then rest else n ∷ rest

unfoldable pub lanes_of : List MemoryExtractionRun → State → ℕ → List ℕ
lanes_of [] st owner = []
lanes_of (r ∷ rs) st owner =
    let rest = lanes_of rs st owner in
    if r.owner_user_id == owner
    then map (λ s. s.persona_session_id)
        (select (λ s. s.id == r.session_id && s.owner_user_id == owner) st.sessions)
      ++ rest
    else rest

unfoldable pub extraction_lane_ids_for_user : ℕ → State → Outcome (List ℕ)
unfolding lanes_of distinct
extraction_lane_ids_for_user owner st = do
  raise_if (owner == 0) value_error
  ok (order_by ltb (distinct (lanes_of st.runs st owner)))

-- `status IN ('pending', 'processing', 'failed')`
abbrev pub is_blocking : ExtractionRunStatus → Bool
is_blocking ExtractionRunStatus.completed = false
is_blocking ExtractionRunStatus.discarded = false
is_blocking _ = true

unfoldable pub has_blocking_extraction_runs : ℕ → ℕ → State → Outcome Bool
has_blocking_extraction_runs owner session st = do
  raise_if (owner == 0 || session == 0) value_error
  ok (
      owns_session st owner session
      && any (λ r. r.session_id == session && r.owner_user_id == owner && is_blocking r.status)
          st.runs)
