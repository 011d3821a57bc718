-- ===== src/Graph/PlanText.antt =====
-- app/graph/nodes.py: `parse_json_loose` and `_parse_plan_steps`, the reading of a plan from the answer
-- of a model.
pub mod Pending
use Prim.Native.Char.{code}
use Prim.Native.String
use llm_agent_runtime.Prelude.{
  ℕ, zero, suc, ◌+◌, ◌-◌, ◌*◌, String, Bool, true, false, not, ◌&&◌, ◌||◌, List, [], ◌∷◌, ◌++◌, map,
  Option, none, some, length, any, keep, ltb, leb, ◌==◌, str_eq, if◌then◌else◌, join, clip, format,
  show_ℕ, Dict, lookup_or, insert, is_prefix, max, text_length,
}
use llm_agent_runtime.Prelude.Json.{
  Json, Fields, null, num, obj, arr, str, field_of, items, array, truthy, iterate,
}
use llm_agent_runtime.Prelude.Python.{Python}
use llm_agent_runtime.Graph.Plan.{PlanStep, StepStatus}

-- `text[text.find(ch):]`
suffix_from : ℕ → String → Option String
suffix_from ch String.[] = none
suffix_from ch (String.◌∷◌ c s) = if code c == ch then some (String.◌∷◌ c s) else suffix_from ch s

-- The places at which decoding starts, the first of them first.
starts : Option String → Option String → List String
starts none none = []
starts (some s) none = s ∷ []
starts none (some t) = t ∷ []
starts (some s) (some t) = if ltb (text_length t) (text_length s) then s ∷ t ∷ [] else t ∷ s ∷ []

abbrev container : Json → Option Json
container (obj fs) = some (obj fs)
container (arr vs) = some (arr vs)
container _ = none

decode_first : Python → List String → Option Json
decode_first py [] = none
decode_first py (s ∷ ss) = elim (py.raw_decode s) [
  | none ↦ decode_first py ss
  | some v ↦ container v
]

abbrev drop_4 : String → String
drop_4 (String.◌∷◌ a (String.◌∷◌ b (String.◌∷◌ c (String.◌∷◌ d s)))) = s
drop_4 _ = ""

unfence : Python → String → String
unfence py text =
    if is_prefix "```" text
    then (let bare = py.strip_ticks text in if is_prefix "json" bare then drop_4 bare else bare)
    else text

unfoldable pub parse_json_loose : Python → String → Option Json
unfolding suffix_from starts decode_first unfence
parse_json_loose py text =
    let body = unfence py (py.strip text) in
    decode_first py (starts (suffix_from b'{' body) (suffix_from b'[' body))

-- `item.get(k)`, `null` where the key is absent
abbrev get_or_null : String → Fields → Json
get_or_null k fs = elim (field_of k fs) [ none ↦ null | some v ↦ v ]

pub numbered_id : ℕ → String
numbered_id n = format ("s" ∷ show_ℕ n ∷ [])

deps_of : Python → Json → Option (List String)
deps_of py (arr vs) = some (map py.text_of (items vs))
deps_of py _ = none

-- The step of one item, the `n`-th that is kept; `none` where it has no description.
step_of : Python → ℕ → Json → Option PlanStep
unfolding numbered_id deps_of
step_of py n (obj fs) =
    let desc = py.strip (elim (field_of "description" fs) [ none ↦ "" | some v ↦ py.text_of v ]) in
    let id = get_or_null "id" fs in
    if str_eq desc ""
    then none
    else some (record {
      id = if truthy id then py.text_of id else numbered_id n;
      description = desc;
      status = StepStatus.pending;
      result = "";
      deps = deps_of py (get_or_null "deps" fs);
    })
step_of py n item =
    let desc = py.strip (py.text_of item) in
    if str_eq desc ""
    then none
    else some (record {
      id = numbered_id n;
      description = desc;
      status = StepStatus.pending;
      result = "";
      deps = none;
    })

steps_from : Python → List PlanStep → List Json → List PlanStep
unfolding step_of
steps_from py steps [] = steps
steps_from py steps (item ∷ rest) =
    steps_from py
      (elim (step_of py (length steps + 1) item) [ none ↦ steps | some step ↦ steps ++ step ∷ [] ])
      rest

-- `none` is the `TypeError` of a value that cannot be iterated over.
pub parse_plan_steps : Python → Json → Option (List PlanStep)
unfolding steps_from
parse_plan_steps py raw = elim (iterate raw) [
  | none ↦ none
  | some entries ↦ some (steps_from py [] entries)
]

abbrev pub raw_steps : Option Json → Json
raw_steps none = null
raw_steps (some (obj fs)) = get_or_null "steps" fs
raw_steps (some parsed) = parsed
