-- ===== src/Session/Calls.antt =====
-- The calls of the callbacks of a stream in a session, and what they leave as it was.
use native.Mathlib.Decide.{ℕ_discrete}
use shmipc_go.Prelude.{◌≤◌, ◌≡◌, ◌≢◌, refl, subst, Bool, true, false, arith}
use shmipc_go.Session.{Session, Pointer, Call, on_local_close, on_remote_close, call, call_if}
use shmipc_go.Session.Advance.{ends, end_calls, account, IsRegistry, Advances, Leaves, Follows-refl}

-- A call that does not tell of an end.
pub call-Advances :
    (s : Session) (c : Call) → ((p : Pointer) → ends p c ≡ 0) → Advances s (call c s)
unfolding end_calls IsRegistry
call-Advances s c none_ends = record {
  follows = λ p st e. (st, e, Follows-refl st);
  paid = λ p. omega (arith, none_ends p);
  registry = λ h. h;
}

-- The call that tells of the end of a stream, once it has left the opened state.
module _ (p : Pointer) (s t : Session) (v : Leaves p s t) where
  told :
      (c : Call) → ((q : Pointer) → ends q c ≡ ends q (on_remote_close p)) → Advances s (call c t)
  unfolding end_calls IsRegistry
  told c one_ends = record {
    follows = v.advances.follows;
    paid = λ q. elim (ℕ_discrete p q) [
      | yes same ↦
          subst (λ r. account (call c t) r ≤ account s r) same
            (omega (arith, v.left, one_ends p, itself))
      | no other ↦ omega (arith, v.advances.paid q, one_ends q, another q other)
    ];
    registry = v.advances.registry;
  }
    where
      itself : ends p (on_remote_close p) ≡ 1
      itself = ground arith

      another : (q : Pointer) → p ≢ q → ends q (on_remote_close p) ≡ 0
      another q other = ground (arith, other)

  pub call_if-on_remote_close-Advances : (c : Bool) → Advances s (call_if c (on_remote_close p) t)
  call_if-on_remote_close-Advances true = told (on_remote_close p) (λ q. refl)
  call_if-on_remote_close-Advances false = v.advances

  pub call_if-on_local_close-Advances : (c : Bool) → Advances s (call_if c (on_local_close p) t)
  call_if-on_local_close-Advances true = told (on_local_close p) (λ q. refl)
  call_if-on_local_close-Advances false = v.advances
