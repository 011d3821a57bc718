-- ===== src/Storage/Journal/Claims.antt =====
-- app/storage/repository.py: what the operations on `tool_executions` promise to each other.
use llm_agent_runtime.Prelude.{
  ◌≡◌, refl, ◌∙◌, String, true, [], ◌∷◌, ◌++◌, Option, none, some, if◌then◌else◌, arith, eq_iff,
  inl, inr, Bool-cases,
}
use llm_agent_runtime.Prelude.Json.{Json}
use llm_agent_runtime.Graph.State.{Observation}
use llm_agent_runtime.Graph.Run.{claimed, busy, recorded}
use llm_agent_runtime.Storage.Journal.{
  ToolExecution, Table, has_keys, find_row, put_row, tool_exec_dict, placeholder, row_of, claim_of,
  replay_of, RowType, in_flight, finished, completed, get_tool_execution, try_claim_tool_execution,
  complete_tool_execution, record_tool_execution,
}

-- The observation that a replay of `obs` gives: all but its error code.
pub replayed : Observation → Observation
replayed obs = record obs { error_code = none }

find_row-append :
    (t c : String) (table : Table) (row : ToolExecution) (missing : find_row t c table ≡ none)
    → find_row t c (table ++ row ∷ []) ≡ (if has_keys t c row then some row else none)
find_row-append t c [] row missing = refl
find_row-append t c (r ∷ rows) row missing = elim (Bool-cases (has_keys t c r)) [
  | inl e ↦ absurd (nothing (rw e at missing))
  | inr e ↦ rw e (find_row-append t c rows row (rw e at missing))
]
  where
    nothing : some r ≡ none → ⊥
    nothing e = cc

own_keys : (row : ToolExecution) → has_keys row.task_id row.call_id row ≡ true
own_keys row = ground (arith, eq_iff row.task_id row.task_id, eq_iff row.call_id row.call_id)

own_row :
    (row : ToolExecution)
    → (if has_keys row.task_id row.call_id row then some row else none) ≡ some row
own_row row = rw (own_keys row) refl

find_row-put :
    (new : ToolExecution) (table : Table) (row : ToolExecution)
    (found : find_row new.task_id new.call_id table ≡ some row)
    → find_row new.task_id new.call_id (put_row new table) ≡ some new
find_row-put new [] row found = absurd (nothing found)
  where
    nothing : none ≡ some row → ⊥
    nothing e = cc
find_row-put new (r ∷ rows) row found = elim (Bool-cases (has_keys new.task_id new.call_id r)) [
  | inl e ↦ rw (e, own_keys new) refl
  | inr e ↦ rw (e, e) (find_row-put new rows row (rw e at found))
]

module _ (t c : String) (table : Table) (row : ToolExecution)
    (found : find_row t c table ≡ some row) where
  claim-busy :
      (flying : row.error_type ≡ in_flight) (tool : String) (arguments : Json)
      → try_claim_tool_execution t c tool arguments table ≡ (busy, table)
  unfolding claim_of try_claim_tool_execution
  claim-busy flying tool arguments = rw (try_claim_tool_execution, found, flying) refl

  get-put :
      (obs : Observation)
      → get_tool_execution t c (put_row (row_of t c obs) table) ≡ some (replayed obs)
  unfolding get_tool_execution replay_of row_of replayed tool_exec_dict
  get-put obs = rw (get_tool_execution, find_row-put (row_of t c obs) table row found) refl

  complete-get :
      (flying : row.error_type ≡ in_flight) (obs : Observation)
      → get_tool_execution t c (complete_tool_execution t c obs table) ≡ some (replayed obs)
  unfolding complete_tool_execution completed
  complete-get flying obs = rw (complete_tool_execution, found, flying) (get-put obs)

lost : (row : ToolExecution) (kind : RowType) → claim_of row kind ≡ claimed → ⊥
unfolding claim_of
lost row in_flight e = cc
lost row (finished error_type) e = cc

module _ (t c tool : String) (arguments : Json) (table : Table) where
  claim_adds :
      (won : (try_claim_tool_execution t c tool arguments table).0 ≡ claimed)
      → find_row t c (try_claim_tool_execution t c tool arguments table).1
        ≡ some (placeholder t c tool arguments)
  unfolding try_claim_tool_execution placeholder
  claim_adds won = go (find_row t c table) refl
    where
      go :
          (found : Option ToolExecution)
          → find_row t c table ≡ found
          → find_row t c (try_claim_tool_execution t c tool arguments table).1
            ≡ some (placeholder t c tool arguments)
      go none e =
          rw (try_claim_tool_execution, e)
            (find_row-append t c table (placeholder t c tool arguments) e
              ∙ own_row (placeholder t c tool arguments))
      go (some row) e = absurd (lost row row.error_type (rw (try_claim_tool_execution, e) at won))

  -- Of two claims of the same call one wins: after a claim that has won, any other finds the call busy
  -- and changes nothing, until the call is completed.
  pub try_claim-exclusive :
      (won : (try_claim_tool_execution t c tool arguments table).0 ≡ claimed) (tool' : String)
      (arguments' : Json)
      → try_claim_tool_execution t c tool' arguments'
          (try_claim_tool_execution t c tool arguments table).1
        ≡ (busy, (try_claim_tool_execution t c tool arguments table).1)
  try_claim-exclusive won =
      claim-busy t c (try_claim_tool_execution t c tool arguments table).1
        (placeholder t c tool arguments) (claim_adds won) (unfold placeholder in refl)

  -- The observation that the winner of a claim completes its call with is what a later look-up of the call
  -- gives, every field of it but the error code.
  pub get-complete-claim :
      (won : (try_claim_tool_execution t c tool arguments table).0 ≡ claimed) (obs : Observation)
      → get_tool_execution t c
          (complete_tool_execution t c obs (try_claim_tool_execution t c tool arguments table).1)
        ≡ some (replayed obs)
  get-complete-claim won =
      complete-get t c (try_claim_tool_execution t c tool arguments table).1
        (placeholder t c tool arguments) (claim_adds won) (unfold placeholder in refl)

-- The first result stays: once a call has a result, completing or recording it again changes nothing.
pub complete-first_wins :
    (t c : String) (table : Table) (first second : Observation)
    (done : get_tool_execution t c table ≡ some first)
    → (complete_tool_execution t c second table ≡ table)
      × (record_tool_execution t c second table ≡ table)
unfolding get_tool_execution complete_tool_execution record_tool_execution replay_of completed
complete-first_wins t c table first second done = go (find_row t c table) refl
  where
    none≢some : none ≡ some first → ⊥
    none≢some e = cc

    kept :
        (row : ToolExecution) (kind : RowType)
        → find_row t c table ≡ some row
        → row.error_type ≡ kind
        → (complete_tool_execution t c second table ≡ table)
          × (record_tool_execution t c second table ≡ table)
    kept row in_flight e k = absurd (none≢some (rw (get_tool_execution, e, k, replay_of) at done))
    kept row (finished error_type) e k =
        (rw (complete_tool_execution, e, k, completed) refl, rw (record_tool_execution, e) refl)

    go :
        (found : Option ToolExecution)
        → find_row t c table ≡ found
        → (complete_tool_execution t c second table ≡ table)
          × (record_tool_execution t c second table ≡ table)
    go none e = absurd (none≢some (rw (get_tool_execution, e) at done))
    go (some row) e = kept row row.error_type e refl

-- A call that has a result cannot be claimed: the claim gives the result and changes nothing.
pub try_claim-recorded :
    (t c tool : String) (arguments : Json) (table : Table) (obs : Observation)
    (done : get_tool_execution t c table ≡ some obs)
    → try_claim_tool_execution t c tool arguments table ≡ (recorded obs, table)
unfolding get_tool_execution try_claim_tool_execution replay_of claim_of
try_claim-recorded t c tool arguments table obs done = go (find_row t c table) refl
  where
    none≢some : none ≡ some obs → ⊥
    none≢some e = cc

    kept :
        (row : ToolExecution) (kind : RowType)
        → find_row t c table ≡ some row
        → row.error_type ≡ kind
        → try_claim_tool_execution t c tool arguments table ≡ (recorded obs, table)
    kept row in_flight e k = absurd (none≢some (rw (get_tool_execution, e, k, replay_of) at done))
    kept row (finished error_type) e k =
        let same = rw (get_tool_execution, e, k, replay_of) at done in
        rw (try_claim_tool_execution, e, k, claim_of) cc

    go :
        (found : Option ToolExecution)
        → find_row t c table ≡ found
        → try_claim_tool_execution t c tool arguments table ≡ (recorded obs, table)
    go none e = absurd (none≢some (rw (get_tool_execution, e) at done))
    go (some row) e = kept row row.error_type e refl
