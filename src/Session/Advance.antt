-- ===== src/Session/Advance.antt =====
-- How a step of a session may change its streams: none is lost, none changes its id, a state only goes from
-- opened to half closed to closed, the close notification stays, and the calls that tell the user of the end
-- of a stream are paid for by its leaving the opened state.
use native.Mathlib.Decide.{ℕ_discrete}
use shmipc_go.Prelude.{
  ℕ, ◌+◌, ◌≤◌, ◌<◌, ◌≡◌, ◌≢◌, refl, sym, ap, ap₂, subst, ◌∙◌, true, ◌==◌, if◌then◌else◌, Option,
  some, none, List, [], ◌∷◌, get_elem?, arith, some_inj, get_elem?-length, get_elem?-set_self,
  get_elem?-set_ne,
}
use shmipc_go.Stream.{Stream, StreamState, opened, closed, half_closed}
use shmipc_go.Session.{
  Session, Pointer, Call, on_new_stream, on_local_close, on_remote_close, on_data, on_shutdown,
  put_stream, lookup,
}

abbrev pub rank : StreamState → ℕ
rank opened = 0
rank half_closed = 1
rank closed = 2

-- The calls that tell of the end of the stream.
abbrev pub ends : Pointer → Call → ℕ
ends p (on_new_stream q) = 0
ends p (on_local_close q) = if p == q then 1 else 0
ends p (on_remote_close q) = if p == q then 1 else 0
ends p (on_data q) = 0
ends p (on_shutdown e) = 0

unfoldable pub end_calls : Pointer → List Call → ℕ
end_calls p [] = 0
end_calls p (c ∷ cs) = ends p c + end_calls p cs

-- One for a stream that has not left the opened state, or is not made yet.
abbrev pub credit : Option Stream → ℕ
credit none = 1
credit (some st) = if rank st.state == 0 then 1 else 0

abbrev pub account : Session → Pointer → ℕ
account s p = end_calls p s.calls + credit (get_elem? s.objects p)

pub record Follows (st st' : Stream) : Type 0 where
  pub same_id : st'.id ≡ st.id
  pub forward : rank st.state ≤ rank st'.state
  pub notified : st.close_notify ≡ true → st'.close_notify ≡ true

-- The map of a session gives for an id a stream that has it.
unfoldable pub IsRegistry : Session → Type 0
IsRegistry s =
    (id : ℕ) (p : Pointer)
    → lookup id s.streams ≡ some p
    → (st : Stream) × (get_elem? s.objects p ≡ some st) × (st.id ≡ id)

pub record Advances (s s' : Session) : Type 0 where
  pub follows :
      (p : Pointer) (st : Stream)
      → get_elem? s.objects p ≡ some st
      → (st' : Stream) × (get_elem? s'.objects p ≡ some st') × Follows st st'
  pub paid : (p : Pointer) → account s' p ≤ account s p
  pub registry : IsRegistry s → IsRegistry s'

-- The same, and the stream has left the opened state without a call.
pub record Leaves (p : Pointer) (s s' : Session) : Type 0 where
  pub advances : Advances s s'
  pub left : account s' p < account s p

pub Follows-refl : (st : Stream) → Follows st st
Follows-refl st = record { same_id = refl; forward = omega arith; notified = λ h. h }

pub Advances-refl : (s : Session) → Advances s s
Advances-refl s = record {
  follows = λ p st e. (st, e, Follows-refl st);
  paid = λ p. omega arith;
  registry = λ h. h;
}

pub Advances-trans : (s t u : Session) → Advances s t → Advances t u → Advances s u
Advances-trans s t u a b = record {
  follows = λ p st e.
      (let (st1, e1, f1) = a.follows p st e in
        let (st2, e2, f2) = b.follows p st1 e1 in
        (
          st2,
          e2,
          record {
            same_id = f2.same_id ∙ f1.same_id;
            forward = omega (arith, f1.forward, f2.forward);
            notified = λ h. f2.notified (f1.notified h);
          },
        ));
  paid = λ p. omega (arith, a.paid p, b.paid p);
  registry = λ h. b.registry (a.registry h);
}

pub Leaves-trans : (p : Pointer) (s t u : Session) → Leaves p s t → Advances t u → Leaves p s u
Leaves-trans p s t u a b = record {
  advances = Advances-trans s t u a.advances b;
  left = omega (arith, a.left, b.paid p);
}

pub trans-Leaves : (p : Pointer) (s t u : Session) → Advances s t → Leaves p t u → Leaves p s u
trans-Leaves p s t u a b = record {
  advances = Advances-trans s t u a b.advances;
  left = omega (arith, a.paid p, b.left);
}

-- Streams that follow keep the map right, as long as it gets no entry.
IsRegistry-Follows :
    (s s' : Session)
    → ((p : Pointer) (st : Stream)
        → get_elem? s.objects p ≡ some st
        → (st' : Stream) × (get_elem? s'.objects p ≡ some st') × Follows st st')
    → ((id : ℕ) (p : Pointer) → lookup id s'.streams ≡ some p → lookup id s.streams ≡ some p)
    → IsRegistry s
    → IsRegistry s'
unfolding IsRegistry
IsRegistry-Follows s s' follows old h id p found =
    let (st, e, same) = h id p (old id p found) in
    let (st', e', f) = follows p st e in (st', e', f.same_id ∙ same)

-- Changes that leave the objects and the calls, and give the map no entry.
pub fewer_Advances :
    (s s' : Session)
    → s'.objects ≡ s.objects
    → s'.calls ≡ s.calls
    → ((id : ℕ) (p : Pointer) → lookup id s'.streams ≡ some p → lookup id s.streams ≡ some p)
    → Advances s s'
fewer_Advances s s' objects calls old = record {
  follows = λ p st e. (st, ap (λ o. get_elem? o p) objects ∙ e, Follows-refl st);
  paid = λ p.
      (let same : account s' p ≡ account s p =
          ap₂ (λ c o. end_calls p c + credit (get_elem? o p)) calls objects in
        omega (arith, same));
  registry =
      IsRegistry-Follows s s' (λ p st e. (st, ap (λ o. get_elem? o p) objects ∙ e, Follows-refl st))
        old;
}

pub Advances-same :
    (s s' : Session)
    → s'.objects ≡ s.objects
    → s'.calls ≡ s.calls
    → s'.streams ≡ s.streams
    → Advances s s'
Advances-same s s' objects calls streams =
    fewer_Advances s s' objects calls (λ id p found. ap (lookup id) (sym streams) ∙ found)

module _ (s : Session) (p : Pointer) (st st' : Stream) (e : get_elem? s.objects p ≡ some st) where
  pub put_get : get_elem? (put_stream p st' s).objects p ≡ some st'
  put_get = get_elem?-set_self s.objects p st' (get_elem?-length s.objects p st e)

  put_other :
      (q : Pointer) → p ≢ q → get_elem? (put_stream p st' s).objects q ≡ get_elem? s.objects q
  put_other q h = get_elem?-set_ne s.objects st' h

  put-Follows :
      Follows st st'
      → (q : Pointer) (old : Stream) → get_elem? s.objects q ≡ some old
      → (new : Stream) × (get_elem? (put_stream p st' s).objects q ≡ some new) × Follows old new
  put-Follows f q old h = elim (ℕ_discrete p q) [
    | yes same ↦ (
      st',
      ap (λ r. get_elem? (put_stream p st' s).objects r) (sym same) ∙ put_get,
      subst (λ x. Follows x st')
          (some_inj st old (sym e ∙ ap (λ r. get_elem? s.objects r) same ∙ h)) f,
    )
    | no other ↦ (old, put_other q other ∙ h, Follows-refl old)
  ]

  -- The account of another stream is as before, and that of this one changes by its credit.
  put_account :
      (q : Pointer)
      → account (put_stream p st' s) q + credit (get_elem? s.objects q)
        ≡ account s q + credit (get_elem? (put_stream p st' s).objects q)
  put_account q = omega arith

  put_paid :
      credit (some st') ≤ credit (some st)
      → (q : Pointer) → account (put_stream p st' s) q ≤ account s q
  put_paid less q = elim (ℕ_discrete p q) [
    | yes same ↦
        subst (λ r. account (put_stream p st' s) r ≤ account s r) same
          (omega (arith, ap credit put_get, ap credit e))
    | no other ↦ omega (arith, ap credit (put_other q other))
  ]

  credit_falls : Follows st st' → credit (some st') ≤ credit (some st)
  credit_falls f = ground (arith, f.forward)

  pub put_stream-Advances : Follows st st' → Advances s (put_stream p st' s)
  put_stream-Advances f = record {
    follows = put-Follows f;
    paid = put_paid (credit_falls f);
    registry = IsRegistry-Follows s (put_stream p st' s) (put-Follows f) (λ _ _ found. found);
  }

  pub put_stream-Leaves :
      Follows st st' → rank st.state ≡ 0 → 0 < rank st'.state → Leaves p s (put_stream p st' s)
  put_stream-Leaves f was is = record {
    advances = put_stream-Advances f;
    left = omega (arith, ap credit put_get, ap credit e, gone, had);
  }
    where
      gone : credit (some st') ≡ 0
      gone = ground (arith, is)

      had : credit (some st) ≡ 1
      had = ground (arith, was)
