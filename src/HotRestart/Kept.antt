-- ===== src/HotRestart/Kept.antt =====
-- The pools of a `SessionManager` of session_manager.go through hot restarts.
use native.Mathlib.Decide.{ℕ_discrete}
use shmipc_go.Prelude.{
  ℕ, ◌+◌, ◌≡◌, refl, sym, ap, subst, ◌∙◌, ◌&&◌, not, ◌==◌, Bool, true, false, if◌then◌else◌, Option,
  some, List, [], ◌∷◌, ◌++◌, length, get_elem?, arith, inl, inr, get_elem?-set_ne, zero, suc,
}
use shmipc_go.HotRestart.{
  SessionManager, Pool, is_restarting, reserved, begin_hot_restart, renew_pool,
  handle_session_manager_hot_restart, check_tick, check_timeout, Step, event, tick, time_out, Reach,
  here, next,
}
use shmipc_go.HotRestart.Renewal.{begun, swapped, begins, renews}

-- Where a pool is that the manager has not lost.
pub data Held (p : Pool) (sm : SessionManager) : Type 0 where
  used : (id : ℕ) → get_elem? sm.pools id ≡ some p → Held p sm
  in_reserve : (i : ℕ) → get_elem? (reserved sm.reserve_pools) i ≡ some p → Held p sm
  given_up : (i : ℕ) → get_elem? sm.closed i ≡ some p → Held p sm

in_front :
    (xs ys : List Pool) (i : ℕ) (p : Pool)
    → get_elem? xs i ≡ some p
    → get_elem? (xs ++ ys) i ≡ some p
in_front [] ys i p e = absurd (ground (arith, e))
in_front (x ∷ xs) ys zero p e = e
in_front (x ∷ xs) ys (suc i) p e = in_front xs ys i p e

behind :
    (xs ys : List Pool) (i : ℕ) (p : Pool)
    → get_elem? ys i ≡ some p
    → get_elem? (xs ++ ys) (length xs + i) ≡ some p
behind [] ys i p e = ap (get_elem? ys) {x = 0 + i} {y = i} (omega arith) ∙ e
behind (x ∷ xs) ys i p e =
    ap (get_elem? (x ∷ xs ++ ys)) {x = suc (length xs) + i} {y = suc (length xs + i)} (omega arith)
    ∙ behind xs ys i p e

-- The reserve is closed.
closed-Held :
    (p : Pool) (sm t : SessionManager)
    → t.pools ≡ sm.pools
    → t.closed ≡ reserved sm.reserve_pools ++ sm.closed
    → Held p sm
    → Held p t
closed-Held p sm t pools closed (used id e) = used id (ap (λ r. get_elem? r id) pools ∙ e)
closed-Held p sm t pools closed (in_reserve i e) =
    given_up i
      (ap (λ r. get_elem? r i) closed ∙ in_front (reserved sm.reserve_pools) sm.closed i p e)
closed-Held p sm t pools closed (given_up i e) = given_up (length (reserved sm.reserve_pools) + i) (
    ap (λ r. get_elem? r (length (reserved sm.reserve_pools) + i)) closed
    ∙ behind (reserved sm.reserve_pools) sm.closed i p e)

swapped-Held :
    (p : Pool) (pointer id : ℕ) (old : Pool) (sm : SessionManager)
    → get_elem? sm.pools id ≡ some old
    → Held p sm
    → Held p (swapped pointer id old sm)
swapped-Held p pointer id old sm found (used k e) = elim (ℕ_discrete k id) [
  | yes same ↦ in_reserve 0 (sym found ∙ ap (get_elem? sm.pools) (sym same) ∙ e)
  | no other ↦ used k (get_elem?-set_ne sm.pools _ (λ h. other (sym h)) ∙ e)
]
swapped-Held p pointer id old sm found (in_reserve i e) = in_reserve (suc i) e
swapped-Held p pointer id old sm found (given_up i e) = given_up i e

event-Held :
    (p : Pool) (answer : Option ℕ) (epoch id : ℕ) (sm : SessionManager)
    → Held p sm
    → Held p (handle_session_manager_hot_restart answer epoch id sm)
unfolding handle_session_manager_hot_restart
event-Held p answer epoch id sm h =
    either (is_restarting sm.state && not (sm.epoch == epoch)) sm
      (renew_pool answer id (begin_hot_restart epoch sm)) h renewed
  where
    either : (c : Bool) (a b : SessionManager) → Held p a → Held p b → Held p (if c then a else b)
    either true a b v w = v
    either false a b v w = w

    started : Held p (begin_hot_restart epoch sm)
    started = elim (begins epoch sm) [
      | inl (on, same) ↦ subst (Held p) (sym same) h
      | inr (off, new) ↦ subst (Held p) (sym new) (closed-Held p sm (begun epoch sm) refl refl h)
    ]

    renewed : Held p (renew_pool answer id (begin_hot_restart epoch sm))
    renewed = elim (renews answer id (begin_hot_restart epoch sm)) [
      | inl same ↦ subst (Held p) (sym same) started
      | inr (pointer, old, found, new) ↦
          subst (Held p) (sym new)
            (swapped-Held p pointer id old (begin_hot_restart epoch sm) found started)
    ]

tick-Held : (p : Pool) (sm : SessionManager) → Held p sm → Held p (check_tick sm)
unfolding check_tick
tick-Held p sm (used id e) = used id (ground (arith, e))
tick-Held p sm (in_reserve i e) = in_reserve i (ground (arith, e))
tick-Held p sm (given_up i e) = given_up i (ground (arith, e))

step-Held : {sm t : SessionManager} (p : Pool) → Step sm t → Held p sm → Held p t
unfolding check_timeout
step-Held {sm} p (event answer epoch id) h = event-Held p answer epoch id sm h
step-Held {sm} p (tick runs) h = tick-Held p sm h
step-Held {sm} p (time_out runs) h = closed-Held p sm (check_timeout sm) refl refl h

reach-Held : {sm t : SessionManager} (p : Pool) → Reach sm t → Held p sm → Held p t
reach-Held p here h = h
reach-Held p (next before last) h = step-Held p last (reach-Held p before h)

-- No pool is lost: one that the manager uses, has in reserve or has closed is one of the three after any run.
pub Reach-Held : (sm t : SessionManager) (p : Pool) → Reach sm t → Held p sm → Held p t
Reach-Held sm t p run h = reach-Held p run h
