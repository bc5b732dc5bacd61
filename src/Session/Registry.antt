-- ===== src/Session/Registry.antt =====
-- The map of a session from ids to streams, when `onStreamClose` takes an id out and when a new stream comes in.
use native.Mathlib.Decide.{ℕ_discrete}
use shmipc_go.Prelude.{
  ℕ, zero, suc, ◌≤◌, ◌≡◌, ◌≢◌, refl, sym, ap, ◌∙◌, Option, some, none, List, [], ◌∷◌, ◌++◌, length,
  get_elem?, arith, some_inj, get_elem?-length, Option-cases, ◌⊎◌, inl, inr,
}
use shmipc_go.Stream.{Stream, new_stream}
use shmipc_go.Session.{Session, Pointer, add_stream, lookup, delete, on_stream_close}
use shmipc_go.Session.Advance.{credit, IsRegistry, Advances, Follows-refl, fewer_Advances}

deleted : (gone : ℕ) (entries : List (ℕ × Pointer)) → lookup gone (delete gone entries) ≡ none
unfolding lookup delete
deleted gone [] = refl
deleted gone ((k, r) ∷ rest) = ground (arith, deleted gone rest)

lookup-delete :
    (id gone : ℕ)
    → id ≢ gone
    → (entries : List (ℕ × Pointer)) → lookup id (delete gone entries) ≡ lookup id entries
unfolding lookup delete
lookup-delete id gone differ [] = refl
lookup-delete id gone differ ((k, r) ∷ rest) =
    ground (arith, differ, lookup-delete id gone differ rest)

found_before :
    (id gone : ℕ) (entries : List (ℕ × Pointer)) (p : Pointer)
    → lookup id (delete gone entries) ≡ some p
    → lookup id entries ≡ some p
found_before id gone entries p e = elim (ℕ_discrete id gone) [
  | yes same ↦ absurd (
      missing
        (sym (deleted gone entries) ∙ ap (λ k. lookup k (delete gone entries)) (sym same) ∙ e))
  | no other ↦ sym (lookup-delete id gone other entries) ∙ e
]
  where
    missing : none ≡ some p → ⊥
    missing e = ground (arith, e)

pub on_stream_close-Advances : (id : ℕ) (s : Session) → Advances s (on_stream_close id s)
unfolding on_stream_close
on_stream_close-Advances id s =
    fewer_Advances s (record s { streams = delete id s.streams }) refl refl
      (λ k p found. found_before k id s.streams p found)

-- A new stream.
get_elem?-append :
    {A : Type 0} (xs : List A) (i : ℕ) (x y : A)
    → get_elem? xs i ≡ some y
    → get_elem? (xs ++ x ∷ []) i ≡ some y
get_elem?-append [] i x y e = absurd (omega (arith, get_elem?-length [] i y e))
get_elem?-append (z ∷ xs) zero x y e = e
get_elem?-append (z ∷ xs) (suc i) x y e = get_elem?-append xs i x y e

credit_bound : (o : Option Stream) → credit o ≤ 1
credit_bound none = omega arith
credit_bound (some st) = ground arith

new_at :
    (objects : List Stream) (st : Stream)
    → get_elem? (objects ++ st ∷ []) (length objects) ≡ some st
new_at [] st = refl
new_at (o ∷ objects) st = new_at objects st

new_lookup :
    (id k : ℕ) (new p : Pointer) (entries : List (ℕ × Pointer))
    → lookup k ((id, new) ∷ entries) ≡ some p
    → ((k ≡ id) × (new ≡ p)) ⊎ (lookup k entries ≡ some p)
unfolding lookup
new_lookup id k new p entries e = elim (ℕ_discrete k id) [
  | yes same ↦ inl (same, some_inj new p (ground (arith, same, e)))
  | no other ↦ inr (ground (arith, other, e))
]

new_entry : (id : ℕ) (s : Session) → IsRegistry s → IsRegistry ((add_stream id s).1)
unfolding IsRegistry
new_entry id s h k p found = elim (new_lookup id k (length s.objects) p s.streams found) [
  | inl (same, here) ↦ (
    new_stream id,
    ap (get_elem? (s.objects ++ new_stream id ∷ [])) (sym here) ∙ new_at s.objects (new_stream id),
    sym same,
  )
  | inr old ↦
      (let (st, e, has) = h k p old in (st, get_elem?-append s.objects p (new_stream id) st e, has))
]

pub add_stream-Advances : (id : ℕ) (s : Session) → Advances s ((add_stream id s).1)
add_stream-Advances id s = record {
  follows = λ p st e. (st, get_elem?-append s.objects p (new_stream id) st e, Follows-refl st);
  paid = λ p. elim (Option-cases (get_elem? s.objects p)) [
    | inl missing ↦
        omega
          (arith, ap credit missing, credit_bound (get_elem? (s.objects ++ new_stream id ∷ []) p))
    | inr (st, e) ↦
        omega (arith, ap credit e, ap credit (get_elem?-append s.objects p (new_stream id) st e))
  ];
  registry = new_entry id s;
}
