-- ===== src/Agents/Daemon/Samples.antt =====
-- A daemon whose third failure within ten seconds opens the circuit.
use os_mini_project.Common.{ℕ, ◌≤◌, ◌<◌, ◌≡◌, none, List, [], ◌∷◌, arith}
use os_mini_project.Entities.{Uuid}
use os_mini_project.Agents.Daemon.{
  AutomationDaemon, idle, acted, failed, begin_tick, end_tick, with_failure,
}
use os_mini_project.Agents.Daemon.Laws.{DaemonCall, InTime, begins, ends, after, failure-opens}

-- The last call first: the failure at 600 came before a tick that acted.
abbrev calls : List DaemonCall
calls =
    begins 8_000 4
    ∷ ends failed 5_000 4
    ∷ begins 4_000 4
    ∷ ends idle 3_500 9
    ∷ ends failed 3_000 4
    ∷ ends acted 900 4
    ∷ ends failed 600 9
    ∷ []

abbrev daemon : AutomationDaemon
daemon = end_tick failed 8_100 4 (after calls)

in_time : InTime 8_100 calls
in_time = (
  omega arith,
  (
    omega arith,
    (omega arith, (omega arith, (omega arith, (omega arith, (omega arith, omega arith))))),
  ),
)

failure-opens_example :
    (3 ≤ 3
      → (daemon.circuit_open_until ≡ 13_100)
        × ((time : ℕ) (id : Uuid) → time < 13_100 → begin_tick time id daemon ≡ none))
    × (3 < 3 → daemon.circuit_open_until ≡ 0)
unfolding after begin_tick end_tick with_failure
failure-opens_example = failure-opens calls 8_100 4 in_time
