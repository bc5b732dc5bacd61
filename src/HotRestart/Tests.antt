-- ===== src/HotRestart/Tests.antt =====
-- A manager with two sessions in a hot restart, with the theorems about session_manager.go applied to it.
use shmipc_go.Prelude.{◌≤◌, ◌≡◌, refl, some, [], ◌∷◌, arith}
use shmipc_go.HotRestart.{
  SessionManager, Pool, begin_hot_restart, renew_pool, handle_session_manager_hot_restart,
  check_tick, check_timeout, Reach, here, next, event, time_out, new_session_manager,
}
use shmipc_go.HotRestart.Renewal.{IsManager, Reach-new_session_manager-IsManager}
use shmipc_go.HotRestart.Kept.{Held, used, Reach-Held}

abbrev first : Pool
first = record { pointer = 1; epoch = 0 }

abbrev second : Pool
second = record { pointer = 2; epoch = 0 }

abbrev before : SessionManager
before = new_session_manager (first ∷ second ∷ [])

-- The first session hears of epoch 7, then the second.
abbrev half_way : SessionManager
half_way = handle_session_manager_hot_restart (some 11) 7 0 before

abbrev renewed : SessionManager
renewed = handle_session_manager_hot_restart (some 12) 7 1 half_way

renewed-checks : 1 ≤ renewed.checks
unfolding handle_session_manager_hot_restart begin_hot_restart renew_pool
renewed-checks = omega arith

abbrev run : Reach before renewed
run = next (next here (event (some 11) 7 0)) (event (some 12) 7 1)

after_tick : (check_tick renewed).checks ≡ 0
unfolding handle_session_manager_hot_restart begin_hot_restart renew_pool check_tick
after_tick = refl

not_yet : check_tick half_way ≡ half_way
unfolding handle_session_manager_hot_restart begin_hot_restart renew_pool check_tick
not_yet = refl

Reach-new_session_manager-IsManager_example : IsManager renewed
Reach-new_session_manager-IsManager_example =
    Reach-new_session_manager-IsManager (first ∷ second ∷ []) renewed run

Reach-Held_example : Held second (check_timeout renewed)
Reach-Held_example =
    Reach-Held before (check_timeout renewed) second (next run (time_out renewed-checks))
      (used 1 refl)
