-- ===== src/Coordinator/Execute.antt =====
-- `#execute`: every command runs alone under the queue mutex, answers a repeated command id from
-- the record, checks the version that the caller expects, and checks the whole system at its end.
-- A command runs from the moment it holds the queue mutex to the moment it gives it back, with no
-- other command between. One that finds the mutex taken waits; in the model nobody gives it back
-- meanwhile, so its timer runs out.
pub mod Laws
use os_mini_project.Common.{
  ℕ, ◌+◌, Bool, true, false, not, Option, none, some, List, [], ◌∷◌, ◌==◌, Result, ok, err, Action,
  ◌>>=◌, ◌>>◌, throw_if, pure,
}
use os_mini_project.Common.Dict.{get, put}
use os_mini_project.Entities.{Uuid, Failure, domain, resource_busy, state_version_conflict}
use os_mini_project.Sync.FairMutex.{
  FairMutex, MutexHandle, OwnerId, coordinator, Acquired, granted, pending,
}
use os_mini_project.Sync.FairMutex
use os_mini_project.Coordinator.State.{
  QueueCoordinator, CommandMeta, CommandType, CommandRecord, Value, Method, ReasonCode, code,
  internal_error, EventKind, audit_accepted, audit_rejected, event,
}
use os_mini_project.Coordinator.Checks.{assert_invariants}

-- `meta.expectedStateVersion !== undefined && meta.expectedStateVersion !== this.#stateVersion`
abbrev pub is_stale : Option ℕ → ℕ → Bool
is_stale none version = false
is_stale (some expected) version = not (expected == version)

-- The inner `try`: the version, the command's own action, and the invariants.
unfoldable pub attempt : CommandMeta → Method Value → Method Value
attempt meta action c =
    (do
      throw_if (is_stale meta.expected_state_version c.state_version)
          (domain state_version_conflict)
      value ← action
      assert_invariants
      pure value)
      c

-- `error instanceof DomainError ? error.code : 'INTERNAL_ERROR'`
abbrev pub reason_of : Failure → ReasonCode
reason_of (domain c) = code c
reason_of _ = internal_error

abbrev audit_of : CommandType → CommandRecord → EventKind
audit_of type (ok _) = audit_accepted type
audit_of type (err e) = audit_rejected type (reason_of e)

-- `this.#commandResults.set(meta.commandId, ...)`
abbrev remember : Uuid → CommandRecord → QueueCoordinator → QueueCoordinator
remember id r c = record c { command_results = put id r c.command_results }

-- The `finally` of `runExclusive`. The handle is the one that the mutex has just granted, and no
-- command touches the queue mutex, so its release does not throw.
abbrev unlock : MutexHandle → Uuid → QueueCoordinator → QueueCoordinator
unlock handle uuid c = record c { queue_mutex = (FairMutex.release handle uuid c.queue_mutex).1 }

abbrev audited :
    CommandType → CommandRecord → QueueCoordinator → Result Failure Value × QueueCoordinator
audited type r c = (r, (event (audit_of type r) c).1)

-- What runs under the mutex, the mutex's release, and the audit entry of a first outcome.
abbrev run_first : CommandMeta → CommandType → Method Value → MutexHandle → Uuid → Method Value
unfolding attempt
run_first meta type action handle uuid c =
    let (r, c') = attempt meta action c in
    audited type r (unlock handle uuid (remember meta.command_id r c'))

abbrev run_locked :
    Option CommandRecord
    → CommandMeta
    → CommandType
    → Method Value
    → MutexHandle
    → Uuid
    → Method Value
unfolding attempt
run_locked (some recorded) meta type action handle uuid c = (recorded, unlock handle uuid c)
run_locked none meta type action handle uuid c = run_first meta type action handle uuid c

abbrev after_acquire :
    Result Failure Acquired × FairMutex
    → CommandMeta
    → CommandType
    → Method Value
    → Uuid
    → Method Value
unfolding attempt
after_acquire (err e, m) meta type action uuid c = (err e, record c { queue_mutex = m })
after_acquire (ok (pending waiter), m) meta type action uuid c =
    (err (domain resource_busy), record c { queue_mutex = FairMutex.time_out waiter m })
after_acquire (ok (granted handle), m) meta type action uuid c =
    run_locked (get meta.command_id c.command_results) meta type action handle uuid
      (record c { queue_mutex = m })

-- `#execute`. `fresh` gives the UUIDs that are drawn: the handle's token, and one that only a
-- waiter would get.
unfoldable pub execute : (ℕ → Uuid) → CommandMeta → CommandType → Method Value → Method Value
unfolding attempt
execute fresh meta type action c =
    after_acquire (FairMutex.acquire (coordinator meta.command_id) (fresh 0) 0 1_000 c.queue_mutex)
      meta type action (fresh 1) c
