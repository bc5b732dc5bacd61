-- ===== src/HotRestart.antt =====
-- session_manager.go: how a `SessionManager` renews its pools in a hot restart of the server: `handleSessionManagerHotRestart`
-- and `checkHotRestart`. A pool is known by its pointer and the epoch of its session; `answer` is the answer of
-- `newClientSession`: the pointer of the pool with the new session, or a failure. Every step holds the lock.
pub mod Renewal
pub mod Kept
mod Tests
use shmipc_go.Prelude.{
  ℕ, ◌+◌, ◌-◌, ◌≤◌, Bool, true, false, ◌&&◌, ◌==◌, not, if◌then◌else◌, Option, some, none, List, [],
  ◌∷◌, ◌++◌, map, length, get_elem?, set,
}

pub data SessionSateType : Type 0 where
  default_state hot_restart_state hot_restart_done_state : SessionSateType

abbrev pub is_restarting : SessionSateType → Bool
is_restarting default_state = false
is_restarting hot_restart_state = true
is_restarting hot_restart_done_state = false

pub record Pool : Type 0 where
  pub pointer : ℕ
  pub epoch : ℕ

-- `closed` are the pools that were closed and `acks` those whose session was told of the end of the hot restart, with the
-- epoch, the last ones in front; `checks` counts the goroutines that run `checkHotRestart`.
pub record SessionManager : Type 0 where
  pub pools : List Pool
  pub reserve_pools : List (ℕ × Pool)
  pub epoch : ℕ
  pub state : SessionSateType
  pub checks : ℕ
  pub closed : List Pool
  pub acks : List (Pool × ℕ)

abbrev pub reserved : List (ℕ × Pool) → List Pool
reserved [] = []
reserved ((id, p) ∷ rest) = p ∷ reserved rest

abbrev pub reserve_pool : ℕ → List (ℕ × Pool) → Option Pool
reserve_pool id [] = none
reserve_pool id ((k, p) ∷ rest) = if id == k then some p else reserve_pool id rest

-- The first event of a hot restart.
unfoldable pub begin_hot_restart : ℕ → SessionManager → SessionManager
begin_hot_restart epoch sm = if is_restarting sm.state then sm else record sm {
  state = hot_restart_state;
  epoch = epoch;
  closed = reserved sm.reserve_pools ++ sm.closed;
  reserve_pools = [];
  checks = sm.checks + 1;
}

-- A new pool for a session; an id without a pool panics, and the panic is recovered.
unfoldable pub renew_pool : Option ℕ → ℕ → SessionManager → SessionManager
renew_pool answer id sm = elim (reserve_pool id sm.reserve_pools) as (λ _. SessionManager) [
  | some p ↦ sm
  | none ↦ elim answer as (λ _. SessionManager) [
    | none ↦ sm
    | some pointer ↦ elim (get_elem? sm.pools id) as (λ _. SessionManager) [
      | none ↦ sm
      | some old ↦ record sm {
        reserve_pools = (id, old) ∷ sm.reserve_pools;
        pools = set sm.pools id (record { pointer = pointer; epoch = sm.epoch });
      }
    ]
  ]
]

-- `handleSessionManagerHotRestart`
unfoldable pub handle_session_manager_hot_restart :
    Option ℕ → ℕ → ℕ → SessionManager → SessionManager
unfolding begin_hot_restart renew_pool
handle_session_manager_hot_restart answer epoch id sm =
    if is_restarting sm.state && not (sm.epoch == epoch)
    then sm
    else renew_pool answer id (begin_hot_restart epoch sm)

-- `checkHotRestart`: a tick, which ends the goroutine when all pools are renewed, and the timeout.
unfoldable pub check_tick : SessionManager → SessionManager
check_tick sm =
    if length sm.reserve_pools == length sm.pools
    then record sm {
      state = default_state;
      acks = map (λ p. (p, sm.epoch)) (reserved sm.reserve_pools) ++ sm.acks;
      checks = sm.checks - 1;
    }
    else sm

unfoldable pub check_timeout : SessionManager → SessionManager
check_timeout sm = record sm {
  state = default_state;
  closed = reserved sm.reserve_pools ++ sm.closed;
  reserve_pools = [];
  checks = sm.checks - 1;
}

-- What can happen to a manager: an event from a session, and the steps of a goroutine that checks.
pub data Step (sm : SessionManager) : SessionManager → Type 0 where
  event :
      (answer : Option ℕ) (epoch id : ℕ)
      → Step sm (handle_session_manager_hot_restart answer epoch id sm)
  tick : 1 ≤ sm.checks → Step sm (check_tick sm)
  time_out : 1 ≤ sm.checks → Step sm (check_timeout sm)

pub data Reach (sm : SessionManager) : SessionManager → Type 0 where
  here : Reach sm sm
  next : {t u : SessionManager} → Reach sm t → Step t u → Reach sm u

-- `NewSessionManager`, with the pools of the sessions that it made.
abbrev pub new_session_manager : List Pool → SessionManager
new_session_manager pools = record {
  pools = pools;
  reserve_pools = [];
  epoch = 0;
  state = default_state;
  checks = 0;
  closed = [];
  acks = [];
}
