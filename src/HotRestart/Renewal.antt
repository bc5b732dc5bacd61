-- ===== src/HotRestart/Renewal.antt =====
-- What holds of a `SessionManager` of session_manager.go through hot restarts.
use native.Mathlib.Decide.{ℕ_discrete}
use shmipc_go.Prelude.{
  ℕ, ◌+◌, ◌-◌, ◌≤◌, ◌≡◌, refl, sym, ap, subst, ◌∙◌, ◌&&◌, not, ◌==◌, Bool, true, false,
  if◌then◌else◌, Option, some, none, List, [], ◌∷◌, ◌++◌, length, get_elem?, set, arith, ◌⊎◌, inl,
  inr, Option-cases, Bool-cases, get_elem?-set_self, get_elem?-set_ne, get_elem?-length,
}
use shmipc_go.HotRestart.{
  SessionManager, Pool, is_restarting, reserved, reserve_pool, begin_hot_restart, renew_pool,
  handle_session_manager_hot_restart, check_tick, check_timeout, hot_restart_state, Step, event,
  tick, time_out, Reach, here, next, new_session_manager,
}

-- One goroutine checks, and only during a hot restart; during one every pool that is in reserve has been replaced by
-- one of the epoch of the hot restart.
pub record IsManager (sm : SessionManager) : Type 0 where
  pub checked : sm.checks ≡ (if is_restarting sm.state then 1 else 0)
  pub renewed :
      is_restarting sm.state ≡ true
      → (id : ℕ) (old : Pool) → reserve_pool id sm.reserve_pools ≡ some old
      → (p : Pool) × (get_elem? sm.pools id ≡ some p) × (p.epoch ≡ sm.epoch)

missing : {A : Type 0} (x : A) → none ≡ some x → ⊥
missing x e = ground (arith, e)

abbrev pub begun : ℕ → SessionManager → SessionManager
begun epoch sm = record sm {
  state = hot_restart_state;
  epoch = epoch;
  closed = reserved sm.reserve_pools ++ sm.closed;
  reserve_pools = [];
  checks = sm.checks + 1;
}

abbrev pub swapped : ℕ → ℕ → Pool → SessionManager → SessionManager
swapped pointer id old sm = record sm {
  reserve_pools = (id, old) ∷ sm.reserve_pools;
  pools = set sm.pools id (record { pointer = pointer; epoch = sm.epoch });
}

-- Which of its two ways the beginning takes, and which of its two ways the renewal of a pool takes.
pub begins :
    (epoch : ℕ) (sm : SessionManager)
    → ((is_restarting sm.state ≡ true) × (begin_hot_restart epoch sm ≡ sm))
      ⊎ ((is_restarting sm.state ≡ false) × (begin_hot_restart epoch sm ≡ begun epoch sm))
unfolding begin_hot_restart
begins epoch sm = elim (Bool-cases (is_restarting sm.state)) [
  | inl e ↦ inl (e, ap (λ r. if r then sm else begun epoch sm) e)
  | inr e ↦ inr (e, ap (λ r. if r then sm else begun epoch sm) e)
]

pub renews :
    (answer : Option ℕ) (id : ℕ) (sm : SessionManager)
    → (renew_pool answer id sm ≡ sm)
      ⊎ ((pointer : ℕ) × (old : Pool) × (get_elem? sm.pools id ≡ some old)
          × (renew_pool answer id sm ≡ swapped pointer id old sm))
unfolding renew_pool
renews none id sm = elim (Option-cases (reserve_pool id sm.reserve_pools)) [
  | inl e ↦ inl (ground (arith, e))
  | inr (p, e) ↦ inl (ground (arith, e))
]
renews (some pointer) id sm = elim (Option-cases (reserve_pool id sm.reserve_pools)) [
  | inr (p, e) ↦ inl (ground (arith, e))
  | inl e ↦ elim (Option-cases (get_elem? sm.pools id)) [
    | inl out ↦ inl (ground (arith, e, out))
    | inr (old, found) ↦ inr (pointer, old, found, ground (arith, e, found))
  ]
]

begun-IsManager :
    (epoch : ℕ) (sm : SessionManager)
    → IsManager sm
    → is_restarting sm.state ≡ false
    → IsManager (begun epoch sm)
begun-IsManager epoch sm v off = record {
  checked = omega (arith, v.checked, ap {B = ℕ} (λ r. if r then 1 else 0) off);
  renewed = λ on id old found. absurd (missing old found);
}

swapped-IsManager :
    (pointer id : ℕ) (old : Pool) (sm : SessionManager)
    → IsManager sm
    → get_elem? sm.pools id ≡ some old
    → IsManager (swapped pointer id old sm)
swapped-IsManager pointer id old sm v found = record {
  checked = v.checked;
  renewed = λ on k older there. elim (ℕ_discrete k id) [
    | yes same ↦ (
      record { pointer = pointer; epoch = sm.epoch },
      ap (get_elem? _) same
          ∙ get_elem?-set_self sm.pools id _ (get_elem?-length sm.pools id old found),
      refl,
    )
    | no other ↦
        let (p, at, fresh) = v.renewed on k older (ground (arith, other, there)) in
        (p, get_elem?-set_ne sm.pools _ (λ e. other (sym e)) ∙ at, fresh)
  ];
}

event-IsManager :
    (answer : Option ℕ) (epoch id : ℕ) (sm : SessionManager)
    → IsManager sm
    → IsManager (handle_session_manager_hot_restart answer epoch id sm)
unfolding handle_session_manager_hot_restart
event-IsManager answer epoch id sm v =
    either (is_restarting sm.state && not (sm.epoch == epoch)) sm
      (renew_pool answer id (begin_hot_restart epoch sm)) v renewed
  where
    either :
        (c : Bool) (a b : SessionManager)
        → IsManager a
        → IsManager b
        → IsManager (if c then a else b)
    either true a b v w = v
    either false a b v w = w

    started : IsManager (begin_hot_restart epoch sm)
    started = elim (begins epoch sm) [
      | inl (on, same) ↦ subst IsManager (sym same) v
      | inr (off, new) ↦ subst IsManager (sym new) (begun-IsManager epoch sm v off)
    ]

    renewed : IsManager (renew_pool answer id (begin_hot_restart epoch sm))
    renewed = elim (renews answer id (begin_hot_restart epoch sm)) [
      | inl same ↦ subst IsManager (sym same) started
      | inr (pointer, old, found, new) ↦
          subst IsManager (sym new)
            (swapped-IsManager pointer id old (begin_hot_restart epoch sm) started found)
    ]

-- The end of a hot restart.
module _ (sm t : SessionManager) (v : IsManager sm) (runs : 1 ≤ sm.checks)
    (ended : is_restarting t.state ≡ false) (less : t.checks ≡ sm.checks - 1) where
  at_most : (r : Bool) → (if r then 1 else 0) ≤ 1
  at_most true = omega arith
  at_most false = omega arith

  ended-IsManager : IsManager t
  ended-IsManager = record {
    checked = omega (
      arith,
      v.checked,
      at_most (is_restarting sm.state),
      ap {B = ℕ} (λ r. if r then 1 else 0) ended,
    );
    renewed = λ on. absurd (ground (arith, ended, on));
  }

tick-IsManager : (sm : SessionManager) → IsManager sm → 1 ≤ sm.checks → IsManager (check_tick sm)
unfolding check_tick
tick-IsManager sm v runs = elim (Bool-cases (length sm.reserve_pools == length sm.pools)) [
  | inl all ↦ ended-IsManager sm (check_tick sm) v runs (ground (arith, all)) (ground (arith, all))
  | inr some_left ↦ subst IsManager (ground (arith, some_left)) v
]

step-IsManager : {sm t : SessionManager} → Step sm t → IsManager sm → IsManager t
unfolding check_timeout
step-IsManager {sm} (event answer epoch id) v = event-IsManager answer epoch id sm v
step-IsManager {sm} (tick runs) v = tick-IsManager sm v runs
step-IsManager {sm} (time_out runs) v = ended-IsManager sm (check_timeout sm) v runs refl refl

reach-IsManager : {sm t : SessionManager} → Reach sm t → IsManager sm → IsManager t
reach-IsManager here v = v
reach-IsManager (next before last) v = step-IsManager last (reach-IsManager before v)

-- However the events of the sessions, the ticks and the timeouts follow each other on a new manager, one goroutine
-- checks during a hot restart and none otherwise, and during one every pool that went to the reserve has been replaced
-- by one with the epoch of the hot restart.
pub Reach-new_session_manager-IsManager :
    (pools : List Pool) (sm : SessionManager) → Reach (new_session_manager pools) sm → IsManager sm
Reach-new_session_manager-IsManager pools sm run =
    reach-IsManager run (record { checked = refl; renewed = λ on. absurd (ground (arith, on)) })
