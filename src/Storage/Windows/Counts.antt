-- ===== src/Storage/Windows/Counts.antt =====
-- app/storage/repository.py: the rows of `rate_windows` against the requests that have made them.
use llm_agent_runtime.Prelude.{
  ℕ, suc, ◌≤◌, ◌≡◌, refl, ◌∙◌, String, str_eq, Bool, true, false, ◌&&◌, not, List, [], ◌∷◌,
  if◌then◌else◌, keep, count, ltb, ◌==◌, arith, eq_iff, Bool-cases, inl, inr, All,
}
use llm_agent_runtime.Storage.Windows.{Windows, hits_of, upsert, is_past, rate_limit_hit}

-- The requests, the latest first: the key of each and its window.
abbrev pub Log : Type 0
Log = List (String × ℕ)

abbrev pub is_hit : String → ℕ → String × ℕ → Bool
is_hit scope window_start h = str_eq h.0 scope && (h.1 == window_start)

-- No request of the key lies in a later window.
abbrev pub IsLatest : String → ℕ → Log → Type 0
IsLatest scope window_start log = All (λ h. str_eq h.0 scope ≡ true → h.1 ≤ window_start) log

-- The clock does not go back: the windows of each key do not.
abbrev pub IsForward : Log → Type 0
IsForward [] = Unit
IsForward (h ∷ log) = IsLatest h.0 h.1 log × IsForward log

pub table_of : Log → Windows
unfolding rate_limit_hit
table_of [] = []
table_of (h ∷ log) = (rate_limit_hit h.0 h.1 (table_of log)).1

pub table_of-cons :
    (k : String) (v : ℕ) (log : Log)
    → table_of ((k, v) ∷ log) ≡ (rate_limit_hit k v (table_of log)).1
unfolding table_of
table_of-cons k v log = refl

module _ (scope : String) (w : ℕ) (k : String) (v : ℕ) where
  hits_of-upsert :
      (rows : Windows)
      → hits_of k v (upsert scope w rows)
        ≡ (if str_eq scope k && (w == v) then suc (hits_of k v rows) else hits_of k v rows)
  hits_of-upsert [] = ground arith
  hits_of-upsert (r ∷ rs) =
      ground (arith, eq_iff scope k, eq_iff r.scope scope, eq_iff r.scope k, hits_of-upsert rs)

  hits_of-purge :
      (rows : Windows) (stays : (str_eq scope k && ltb v w) ≡ false)
      → hits_of k v (keep (λ r. not (is_past scope w r)) rows) ≡ hits_of k v rows
  hits_of-purge [] stays = refl
  hits_of-purge (r ∷ rs) stays =
      ground (
        arith,
        eq_iff scope k,
        eq_iff r.scope scope,
        eq_iff r.scope k,
        stays,
        hits_of-purge rs stays,
      )

hits_of-hit :
    (scope : String) (w : ℕ) (k : String) (v : ℕ) (rows : Windows)
    (stays : (str_eq scope k && ltb v w) ≡ false)
    → hits_of k v (rate_limit_hit scope w rows).1
      ≡ (if str_eq scope k && (w == v) then suc (hits_of k v rows) else hits_of k v rows)
unfolding rate_limit_hit
hits_of-hit scope w k v rows stays =
    elim (Bool-cases (hits_of scope w (upsert scope w rows) == 1)) [
      | inl e ↦
          rw (rate_limit_hit, e)
            (hits_of-purge scope w k v (upsert scope w rows) stays
              ∙ hits_of-upsert scope w k v rows)
      | inr e ↦ rw (rate_limit_hit, e) (hits_of-upsert scope w k v rows)
    ]

-- While the clock does not go back, the row of the latest window of a key counts its requests.
pub table_of-hits :
    (log : Log) (forward : IsForward log) (k : String) (v : ℕ) (latest : IsLatest k v log)
    → hits_of k v (table_of log) ≡ count (is_hit k v) log
unfolding table_of
table_of-hits [] forward k v latest = refl
table_of-hits ((s, w) ∷ log) forward k v latest =
    hits_of-hit s w k v (table_of log) stays
    ∙ ground (arith, table_of-hits log forward.1 k v latest.1)
  where
    stays : (str_eq s k && ltb v w) ≡ false
    stays = ground (arith, latest.0)

pub rate_limit_hit-counts :
    (log : Log) (forward : IsForward log) (k : String) (v : ℕ) (latest : IsLatest k v log)
    → (rate_limit_hit k v (table_of log)).0 ≡ suc (count (is_hit k v) log)
unfolding rate_limit_hit
rate_limit_hit-counts log forward k v latest =
    ground (
      arith,
      hits_of-upsert k v k v (table_of log),
      eq_iff k k,
      table_of-hits log forward k v latest,
    )
