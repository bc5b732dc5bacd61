-- ===== src/Session/Opening.antt =====
-- `OpenStream` of session.go.
use shmipc_go.Prelude.{
  ℕ, ◌+◌, ◌%◌, ◌^◌, ◌≡◌, ◌≢◌, refl, true, false, ◌⊎◌, inl, inr, ◌||◌, if◌then◌else◌, Option, some,
  none, List, [], ◌∷◌, ◌++◌, length, get_elem?, arith,
}
use shmipc_go.Errors.{Error, session_unhealthy, streams_exhausted}
use shmipc_go.Stream.{Stream, new_stream}
use shmipc_go.Session.Progress.{by_if, by_option}
use shmipc_go.Session.{Session, Pointer, open_stream, lookup}

-- The identifier that the next stream gets.
abbrev pub next_id : Session → ℕ
next_id s = (s.next_stream_id + 1) % 2 ^ 32

-- Why a session opens no stream.
abbrev pub Refuses : Session → Option Error → Type 0
Refuses s error =
    ((s.shutdown ≡ true) × (error ≡ s.shutdown_err))
    ⊎ (((s.shutdown ≡ false) × (s.unhealthy ≡ true) × (error ≡ some session_unhealthy))
        ⊎ ((s.shutdown ≡ false)
            × (s.unhealthy ≡ false)
            × (error ≡ some streams_exhausted)
            × ((p : Pointer) × (lookup (next_id s) s.streams ≡ some p))))

-- What `OpenStream` does in each case.
abbrev pub Opens : Session → Option Error ⊎ Pointer → Session → Type 0
Opens s (inl error) t =
    Refuses s error
    × (t.streams ≡ s.streams)
    × (t.objects ≡ s.objects)
    × (t.next_stream_id ≡ (if s.shutdown || s.unhealthy then s.next_stream_id else next_id s))
Opens s (inr p) t =
    (s.shutdown ≡ false)
    × (s.unhealthy ≡ false)
    × (t.next_stream_id ≡ next_id s)
    × (lookup (next_id s) s.streams ≡ none)
    × (t.objects ≡ s.objects ++ new_stream (next_id s) ∷ [])
    × (lookup (next_id s) t.streams ≡ some p)
    × (get_elem? t.objects p ≡ some (new_stream (next_id s)))
    × ((k : ℕ) → k ≢ next_id s → lookup k t.streams ≡ lookup k s.streams)

new_at :
    (objects : List Stream) (st : Stream)
    → get_elem? (objects ++ st ∷ []) (length objects) ≡ some st
new_at [] st = refl
new_at (o ∷ objects) st = new_at objects st

lookup_self :
    (id : ℕ) (p : Pointer) (entries : List (ℕ × Pointer)) → lookup id ((id, p) ∷ entries) ≡ some p
unfolding lookup
lookup_self id p entries = ground arith

lookup-other :
    (k id : ℕ) (p : Pointer) (entries : List (ℕ × Pointer))
    → k ≢ id
    → lookup k ((id, p) ∷ entries) ≡ lookup k entries
unfolding lookup
lookup-other k id p entries other = ground (arith, other)

-- `OpenStream` fails with the error of the shutdown on a session that is shut down, else with `ErrSessionUnhealthy`
-- on an unhealthy one, else with `ErrStreamsExhausted` if the next identifier is taken, and then adds no
-- stream. In all other cases it makes a new opened stream under the next identifier, which is the last one
-- plus 1 in 32 bits, and leaves the entries of all other identifiers and all streams. The session counts the
-- identifier as used when it made a stream and when the identifier was taken, and not in the two other cases.
pub open_stream_lem : (s : Session) → Opens s ((open_stream s).0) ((open_stream s).1)
unfolding open_stream
open_stream_lem s =
    by_if {A = (Option Error ⊎ Pointer) × Session} (λ r. Opens s (r.0) (r.1)) s.shutdown _ _
      (λ down. (inl (down, refl), refl, refl, ground (arith, down)))
      (λ up.
        by_if {A = (Option Error ⊎ Pointer) × Session} (λ r. Opens s (r.0) (r.1)) s.unhealthy _ _
          (λ ill. (inr (inl (up, ill, refl)), refl, refl, ground (arith, up, ill)))
          (λ well.
            by_option {B = (Option Error ⊎ Pointer) × Session} (λ r. Opens s (r.0) (r.1))
              (lookup (next_id s) s.streams) _ _
              (λ free. (
                up,
                well,
                refl,
                free,
                refl,
                lookup_self (next_id s) (length s.objects) s.streams,
                new_at s.objects (new_stream (next_id s)),
                λ k other. lookup-other k (next_id s) (length s.objects) s.streams other,
              ))
              (λ p taken.
                (inr (inr (up, well, refl, (p, taken))), refl, refl, ground (arith, up, well)))))
