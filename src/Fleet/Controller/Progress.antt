-- ===== src/Fleet/Controller/Progress.antt =====
-- `revoke_no_progress_task_leases` of code_index/openclaw_hostd/leases.py: whom it revokes.
use Prim.Native.String.{String}
use memory_network.Prelude.{
  ℕ, ◌≡◌, refl, true, false, inl, inr, Option, some, List, [], ◌∷◌, Bool-cases, Option-cases,
  value_or,
}
use memory_network.Prelude.Equality.{string_eq}
use memory_network.Prelude.Dict.{get}
use memory_network.Prelude.Exec.{ok, Yields, Yields-bind, Yields-at, Yields-weaken}
use memory_network.Prelude.Int.{ℤ}
use memory_network.Prelude.Lists.{All, All-weaken, Among}
use memory_network.Text.{Unicode}
use memory_network.Fleet.Payload.{Fields, field_of, value_text}
use memory_network.Fleet.Model.{FleetLease}
use memory_network.Fleet.Controller.{
  FleetLeaseStore, NoProgressRevocation, state_text, agent_states_by_task, state_of_run,
  matching_agent_state, state_is_terminal, parse_datetime, has_stalled, has_terminal_record,
  stalled_at, revoke_stalled, revoke_from, revoke_no_progress_task_leases,
}
use memory_network.Fleet.Controller.Grouping.{
  Reported, agent_states_by_task-Reported, state_of_run-Among,
}

module _ ⦃u : Unicode⦄ (from_iso : String → Option ℕ) (raws : List Fields) (timestamp : ℕ)
    (threshold : ℤ) where
  -- The agent that runs the lease reported a state of its task that is not terminal, and its last
  -- action there, at `t`, is `threshold` or more ago.
  abbrev pub HasStalled : FleetLease → ℕ → Type 0
  HasStalled lease t =
      (state : Fields) × (run : String) × Reported raws lease.resource_id state
      × (state_text "host_id" state ≡ some lease.owner_host_id)
      × (lease.owner_run_id ≡ some run)
      × (state_text "run_id" state ≡ some run)
      × (state_is_terminal from_iso state ≡ false)
      × (parse_datetime from_iso (value_text (field_of "last_action_at" state)) ≡ some t)
      × (has_stalled timestamp t threshold ≡ true)

  -- the revocation is of the lease, for such a state
  abbrev pub Justified : FleetLease → NoProgressRevocation → Type 0
  Justified lease r =
      (r.task_id ≡ lease.resource_id)
      × (r.host_id ≡ lease.owner_host_id)
      × (r.run_id ≡ lease.owner_run_id)
      × (r.lease_id ≡ lease.lease_id)
      × (r.fencing_revision ≡ lease.fencing_revision)
      × HasStalled lease r.last_action_at

  matching-some :
      (lease : FleetLease) (states : List Fields) (state : Fields)
      → matching_agent_state states lease ≡ some state
      → (run : String) × (lease.owner_run_id ≡ some run)
        × (state_of_run states lease.owner_host_id run ≡ some state)
  unfolding matching_agent_state
  matching-some lease states state h = elim (Option-cases lease.owner_run_id) [
    | inl e ↦ absurd (let z = rw e at h in cc z)
    | inr (run, e) ↦ (run, e, rw e at h)
  ]

  stalled_at-HasStalled :
      (lease : FleetLease) (t : ℕ)
      → stalled_at from_iso (agent_states_by_task raws) lease timestamp threshold ≡ some t
      → HasStalled lease t
  unfolding stalled_at
  stalled_at-HasStalled lease t h =
      let states = value_or [] (get lease.resource_id (agent_states_by_task raws)) in
      elim (Option-cases (matching_agent_state states lease)) [
        | inl e ↦ absurd (let z = rw (stalled_at, e) at h in cc z)
        | inr (state, e) ↦
            let (run, r, f) = matching-some lease states state e in
            let (a, p, q) = state_of_run-Among states lease.owner_host_id run state f in
            let g = agent_states_by_task-Reported raws lease.resource_id state a in
            elim (Bool-cases (state_is_terminal from_iso state)) [
              | inl over ↦ absurd (let z = rw (stalled_at, e, over) at h in cc z)
              | inr alive ↦
                  elim (Option-cases
                    (parse_datetime from_iso (value_text (field_of "last_action_at" state)))) [
                      | inl unread ↦ absurd (let z = rw (stalled_at, e, alive, unread) at h in cc z)
                      | inr (t', read) ↦ elim (Bool-cases (has_stalled timestamp t' threshold)) [
                        | inr fresh ↦
                            absurd (let z = rw (stalled_at, e, alive, read, fresh) at h in cc z)
                        | inl old ↦
                            let z = rw (stalled_at, e, alive, read, old) at h in
                            let same : t' ≡ t = (cc z) in
                            rw (← same) (state, run, g, p, r, q, alive, read, old)
                      ]
                    ]
            ]
      ]

  module _ {S : Type 0} (store : FleetLeaseStore S) where
    abbrev pub OfOneOf : List FleetLease → NoProgressRevocation → Type 0
    OfOneOf leases r = (lease : FleetLease) × Among lease leases × Justified lease r

    revoke_stalled-Justified :
        (lease : FleetLease) (t : ℕ) (s : S)
        → HasStalled lease t
        → Yields (revoke_stalled from_iso store lease timestamp threshold t s) (Justified lease)
    unfolding revoke_stalled
    revoke_stalled-Justified lease t s h =
        Yields-bind
          (store.revoke_lease (some "task") (some lease.resource_id) lease.fencing_revision
            timestamp s)
          _ (Justified lease)
          λ a s' e.
            Yields-bind
              (store.mark_task_reassignable (some lease.resource_id) (some lease.owner_host_id)
                lease.owner_run_id timestamp s')
              _ (Justified lease) λ b s'' e'. (refl, refl, refl, refl, refl, h)

    later :
        (lease : FleetLease) (leases : List FleetLease) (rs : List NoProgressRevocation)
        → All (OfOneOf leases) rs
        → All (OfOneOf (lease ∷ leases)) rs
    later lease leases rs =
        All-weaken (OfOneOf leases) (OfOneOf (lease ∷ leases)) rs (λ r (l, a, h). (l, inr a, h))

    revoke_from-OfOneOf :
        (leases : List FleetLease) (s : S)
        → Yields
            (revoke_from from_iso store (agent_states_by_task raws) timestamp threshold leases s)
            (All (OfOneOf leases))
    unfolding revoke_from
    revoke_from-OfOneOf [] s = tt
    revoke_from-OfOneOf (lease ∷ leases) s =
        let by = agent_states_by_task raws in
        let P = All (OfOneOf (lease ∷ leases)) in
        let rest = revoke_from from_iso store by timestamp threshold leases in
        let skip : (s' : S) → Yields (rest s') P = λ s'.
          Yields-weaken (rest s') (All (OfOneOf leases)) P (later lease leases)
            (revoke_from-OfOneOf leases s') in
        Yields-bind (store.get_task_record (some lease.resource_id) s) _ P λ task s' e.
          elim (Bool-cases (has_terminal_record task)) [
            | inl over ↦ rw over (skip s')
            | inr going ↦ elim (Option-cases (stalled_at from_iso by lease timestamp threshold)) [
              | inl none' ↦ rw (going, none') (skip s')
              | inr (t, stalled) ↦
                  rw (going, stalled)
                    (Yields-bind (revoke_stalled from_iso store lease timestamp threshold t s') _ P
                      λ one s2 e2. Yields-bind (rest s2) _ P λ others s3 e3. (
                        (
                          lease,
                          inl refl,
                          Yields-at (revoke_stalled from_iso store lease timestamp threshold t s')
                              (Justified lease) one s2
                              (revoke_stalled-Justified lease t s'
                                (stalled_at-HasStalled lease t stalled))
                              e2,
                        ),
                        later lease leases others (
                            Yields-at (rest s2) (All (OfOneOf leases)) others s3
                              (revoke_from-OfOneOf leases s2) e3),
                      ))
            ]
          ]

    abbrev Listed : S → List NoProgressRevocation → Type 0
    Listed s rs =
        (leases : List FleetLease) × (listed : S) × (store.list_active_leases (some "task")
            timestamp s
          ≡ (ok leases, listed))
        × All (OfOneOf leases) rs

    -- On any store: every lease that `revoke_no_progress_task_leases` reports as revoked is one of the
    -- active task leases that the store listed, and some agent reported, for its task, host and run, a
    -- state that is not terminal and whose last action is at least the threshold ago.
    pub revoke_no_progress-OfOneOf :
        (s s' : S) (rs : List NoProgressRevocation)
        → revoke_no_progress_task_leases from_iso store raws timestamp threshold s ≡ (ok rs, s')
        → (leases : List FleetLease) × (listed : S) × (store.list_active_leases
              (some "task")
              timestamp
              s
            ≡ (ok leases, listed))
          × All (OfOneOf leases) rs
    unfolding revoke_no_progress_task_leases
    revoke_no_progress-OfOneOf s s' rs e =
        Yields-at (revoke_no_progress_task_leases from_iso store raws timestamp threshold s)
          (Listed s) rs s'
          (Yields-bind (store.list_active_leases (some "task") timestamp s) _ (Listed s)
            λ leases listed l.
              Yields-weaken
                (revoke_from from_iso store (agent_states_by_task raws) timestamp threshold leases
                  listed)
                (All (OfOneOf leases)) (Listed s) (λ rs h. (leases, listed, l, h))
                (revoke_from-OfOneOf leases listed))
          e
