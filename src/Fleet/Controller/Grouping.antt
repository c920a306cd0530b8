-- ===== src/Fleet/Controller/Grouping.antt =====
-- `_agent_states_by_task` and `_matching_agent_state` of code_index/openclaw_hostd/leases.py: where
-- the state that they find comes from.
use Prim.Native.String.{String}
use memory_network.Prelude.{
  ◌≡◌, refl, true, inl, inr, Option, none, some, List, [], ◌∷◌, ◌++◌, Bool-cases, Option-cases,
  value_or, eq_iff,
}
use memory_network.Prelude.Equality.{◌==◌, ==_true, string_eq}
use memory_network.Prelude.Dict.{Dict, get, put, get-put}
use memory_network.Prelude.Lists.{Among, Among-append}
use memory_network.Fleet.Payload.{Fields, state_payload}
use memory_network.Fleet.Controller.{
  state_text, add_agent_states, agent_states_by_task, is_text, state_of_run,
}

-- `state` is the payload of one of `raws` and names the task
abbrev pub Reported : List Fields → String → Fields → Type 0
Reported raws task_id state =
    (raw : Fields) × Among raw raws
    × (state ≡ state_payload raw)
    × (state_text "task_id" state ≡ some task_id)

abbrev Grouped : List Fields → Dict String (List Fields) → Type 0
Grouped raws by =
    (t : String) (state : Fields) → Among state (value_or [] (get t by)) → Reported raws t state

add_state-Grouped :
    (raws : List Fields) (raw : Fields) (t : String) (by : Dict String (List Fields))
    → Among raw raws
    → state_text "task_id" (state_payload raw) ≡ some t
    → Grouped raws by
    → Grouped raws (put t (value_or [] (get t by) ++ state_payload raw ∷ []) by)
add_state-Grouped raws raw t by a e g t' state h = elim (Bool-cases (t == t')) [
  | inl same ↦
      let k : t ≡ t' = ==_true t t' same in
      let h' = rw (get-put, same) at h in
      elim (Among-append state (state_payload raw) (value_or [] (get t by)) h') [
        | inl old ↦ rw (← k) (g t state old)
        | inr new ↦ rw (new, ← k) (raw, a, refl, e)
      ]
  | inr other ↦ let h' = rw (get-put, other) at h in g t' state h'
]

add_agent_states-Grouped :
    (raws rest : List Fields) (by : Dict String (List Fields))
    → ((raw : Fields) → Among raw rest → Among raw raws)
    → Grouped raws by
    → Grouped raws (add_agent_states rest by)
unfolding add_agent_states
add_agent_states-Grouped raws [] by sub g = g
add_agent_states-Grouped raws (raw ∷ rest) by sub g =
    elim (Option-cases (state_text "task_id" (state_payload raw))) [
      | inl e ↦ rw e (add_agent_states-Grouped raws rest by (λ r h. sub r (inr h)) g)
      | inr (t, e) ↦ rw e (
          add_agent_states-Grouped raws rest
            (put t (value_or [] (get t by) ++ state_payload raw ∷ []) by) (λ r h. sub r (inr h))
            (add_state-Grouped raws raw t by (sub raw (inl refl)) e g))
    ]

pub agent_states_by_task-Reported :
    (raws : List Fields) (t : String) (state : Fields)
    → Among state (value_or [] (get t (agent_states_by_task raws)))
    → Reported raws t state
unfolding agent_states_by_task get
agent_states_by_task-Reported raws =
    add_agent_states-Grouped raws raws [] (λ r h. h) (λ t state h. absurd h)

is_text-some : (o : Option String) (t : String) → is_text o t ≡ true → o ≡ some t
unfolding is_text
is_text-some none t h = absurd (cc h)
is_text-some (some s) t h = rw ((eq_iff s t).0 h) refl

pub state_of_run-Among :
    (states : List Fields) (host run : String) (state : Fields)
    → state_of_run states host run ≡ some state
    → Among state states
      × (state_text "host_id" state ≡ some host)
      × (state_text "run_id" state ≡ some run)
unfolding state_of_run
state_of_run-Among [] host run state h = absurd (cc h)
state_of_run-Among (x ∷ xs) host run state h =
    elim (Bool-cases (is_text (state_text "host_id" x) host)) [
      | inl p ↦ elim (Bool-cases (is_text (state_text "run_id" x) run)) [
        | inl q ↦
            let z = rw (p, q) at h in
            let same : x ≡ state = (cc z) in
            rw (← same) (
              inl refl,
              is_text-some (state_text "host_id" x) host p,
              is_text-some (state_text "run_id" x) run q,
            )
        | inr q ↦
            let (a, e, f) = state_of_run-Among xs host run state (rw (p, q) at h) in (inr a, e, f)
      ]
      | inr p ↦ let (a, e, f) = state_of_run-Among xs host run state (rw p at h) in (inr a, e, f)
    ]
