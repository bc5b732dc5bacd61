-- ===== src/Handshake/Agree.antt =====
-- Every run of the two processes of a handshake has the same end.
use native.Mathlib.Decide.{dec_le}
use shmipc_go.Prelude.{
  ℕ, zero, suc, ◌≤◌, ◌≡◌, refl, sym, ap, ap₂, take_ge, drop_ge, subst, ◌∙◌, Bool, true, false, not,
  Option, some, none, List, [], ◌∷◌, ◌++◌, take, drop, length, arith, length-append, take-append_le,
  drop-append_le, some_inj, Option-cases, ◌⊎◌, inl, inr,
}
use shmipc_go.Handshake.{
  Process, done, failed, crashed, write, read, send_fds, recv_fds, Fds, Pair, Act, act, after, turn,
  flip, move, run,
}

-- A turn does not see what comes behind what is there.
act_more :
    (p : Process) (bytes more : List ℕ) (fds more_fds : List Fds) (a : Act)
    → act p bytes fds ≡ some a
    → act p (bytes ++ more) (fds ++ more_fds)
      ≡ some (record a { bytes = a.bytes ++ more; fds = a.fds ++ more_fds })
unfolding act
act_more (done x) bytes more fds more_fds a e = ground (arith, e)
act_more (failed x) bytes more fds more_fds a e = ground (arith, e)
act_more crashed bytes more fds more_fds a e = ground (arith, e)
act_more (write sent next) bytes more fds more_fds a e =
    ap
      (λ o. elim o as (λ _. Option Act) [
        | none ↦ none
        | some x ↦ some (record x { bytes = x.bytes ++ more; fds = x.fds ++ more_fds })
      ])
      e
act_more (read n k) bytes more fds more_fds a e = elim (dec_le n (length bytes)) [
  | yes enough ↦
      let before : act (read n k) bytes fds
          ≡ some (record {
            next = k (take n bytes);
            bytes = drop n bytes;
            sent = [];
            fds = fds;
            sent_fds = [];
          }) =
        ground arith in
      let longer = length-append bytes more in
      ground (arith, longer, take-append_le n bytes more enough, drop-append_le n bytes more enough)
      ∙ ap
          (λ o. elim o as (λ _. Option Act) [
            | none ↦ none
            | some x ↦ some (record x { bytes = x.bytes ++ more; fds = x.fds ++ more_fds })
          ])
          (sym before ∙ e)
  | no short ↦ ground (arith, e)
]
act_more (send_fds sent next) bytes more fds more_fds a e =
    ap
      (λ o. elim o as (λ _. Option Act) [
        | none ↦ none
        | some x ↦ some (record x { bytes = x.bytes ++ more; fds = x.fds ++ more_fds })
      ])
      e
act_more (recv_fds k) bytes more [] more_fds a e = ground (arith, e)
act_more (recv_fds k) bytes more (f ∷ fds) more_fds a e =
    ap
      (λ o. elim o as (λ _. Option Act) [
        | none ↦ none
        | some x ↦ some (record x { bytes = x.bytes ++ more; fds = x.fds ++ more_fds })
      ])
      e

map_some :
    {A B : Type 0} (o : Option A) (f : A → B) (y : B)
    → (elim o as (λ _. Option B) [ none ↦ none | some x ↦ some (f x) ]) ≡ some y
    → (x : A) × (o ≡ some x) × (f x ≡ y)
map_some none f y e = absurd (ground (arith, e))
map_some (some x) f y e = (x, refl, some_inj (f x) y e)

left_moved :
    (p p1 : Pair)
    → move false p ≡ some p1
    → (a : Act) × (act p.left p.to_left p.fds_to_left ≡ some a) × (after p a ≡ p1)
unfolding move turn
left_moved p p1 e = map_some (act p.left p.to_left p.fds_to_left) (after p) p1 e

right_moved :
    (p q : Pair)
    → move true p ≡ some q
    → (a : Act) × (act p.right p.to_right p.fds_to_right ≡ some a) × (flip (after (flip p) a) ≡ q)
unfolding move turn
right_moved p q e =
    let (r, e1, f1) =
      map_some
        (elim (act p.right p.to_right p.fds_to_right) as (λ _. Option Pair) [
          | none ↦ none
          | some a ↦ some (after (flip p) a)
        ])
        flip q e in
    let (a, e2, f2) = map_some (act p.right p.to_right p.fds_to_right) (after (flip p)) r e1 in
    (a, e2, ap flip f2 ∙ f1)

pub left_moves :
    (p : Pair) (a : Act)
    → act p.left p.to_left p.fds_to_left ≡ some a
    → move false p ≡ some (after p a)
unfolding move turn
left_moves p a e =
    ap (λ o. elim o as (λ _. Option Pair) [ none ↦ none | some x ↦ some (after p x) ]) e

pub right_moves :
    (p : Pair) (a : Act)
    → act p.right p.to_right p.fds_to_right ≡ some a
    → move true p ≡ some (flip (after (flip p) a))
unfolding move turn
right_moves p a e =
    ap
      (λ o.
        elim (elim o as (λ _. Option Pair) [ none ↦ none | some x ↦ some (after (flip p) x) ])
          as (λ _. Option Pair) [ none ↦ none | some r ↦ some (flip r) ])
      e

-- Turns of the two processes can be taken in either order.
diamond :
    (p l r : Pair)
    → move false p ≡ some l
    → move true p ≡ some r
    → (t : Pair) × (move true l ≡ some t) × (move false r ≡ some t)
diamond p l r el er =
    let (a, ea, fa) = left_moved p l el in
    let (c, ec, fc) = right_moved p r er in
    let t : Pair = record {
      left = a.next;
      right = c.next;
      to_left = a.bytes ++ c.sent;
      to_right = c.bytes ++ a.sent;
      fds_to_left = a.fds ++ c.sent_fds;
      fds_to_right = c.fds ++ a.sent_fds;
    } in
    (
      t,
      ap (move true) (sym fa)
          ∙ right_moves (after p a)
              (record c { bytes = c.bytes ++ a.sent; fds = c.fds ++ a.sent_fds })
              (act_more p.right p.to_right a.sent p.fds_to_right a.sent_fds c ec),
      ap (move false) (sym fc)
          ∙ left_moves (flip (after (flip p) c))
              (record a { bytes = a.bytes ++ c.sent; fds = a.fds ++ c.sent_fds })
              (act_more p.left p.to_left c.sent p.fds_to_left c.sent_fds a ea),
    )

some-move :
    (right : Bool) (p l r : Pair)
    → move right p ≡ some l
    → move (not right) p ≡ some r
    → (t : Pair) × (move (not right) l ≡ some t) × (move right r ≡ some t)
some-move false p l r el er = diamond p l r el er
some-move true p l r el er = let (t, e, e') = diamond p r l er el in (t, e', e)

-- A run of `n` turns.
unfoldable pub Turns : Pair → ℕ → Pair → Type 0
Turns p zero f = p ≡ f
Turns p (suc n) f = (right : Bool) × (q : Pair) × (move right p ≡ some q) × Turns q n f

pub turn_then :
    (right : Bool) (p q f : Pair) (n : ℕ) → move right p ≡ some q → Turns q n f → Turns p (suc n) f
unfolding Turns
turn_then right p q f n e rest = (right, q, e, rest)

unfoldable pub IsStuck : Pair → Type 0
IsStuck p = (right : Bool) → move right p ≡ none

some_of_none : {A : Type 0} (x : A) → none ≡ some x → ⊥
some_of_none x e = ground (arith, e)

same_or_other : (a b : Bool) → (a ≡ b) ⊎ (b ≡ not a)
same_or_other false false = inl refl
same_or_other false true = inr refl
same_or_other true false = inr refl
same_or_other true true = inl refl

-- After any turn a run to the end is one turn shorter.
shorter :
    (n : ℕ) (p q f : Pair) (right : Bool)
    → Turns p n f
    → IsStuck f
    → move right p ≡ some q
    → (k : ℕ) × (n ≡ suc k) × Turns q k f
unfolding Turns IsStuck
shorter zero p q f right t stuck e =
    absurd (some_of_none q (sym (stuck right) ∙ ap (move right) (sym t) ∙ e))
shorter (suc n) p q f right (side, p', ep, t) stuck e = elim (same_or_other side right) [
  | inl same ↦
      (n, refl, subst (λ x. Turns x n f) (some_inj p' q (sym ep ∙ ap (λ x. move x p) same ∙ e)) t)
  | inr other ↦
      let (r, e1, e2) = some-move side p p' q ep (ap (λ x. move x p) (sym other) ∙ e) in
      let (k, count, rest) = shorter n p' r f (not side) t stuck e1 in
      (n, refl, subst (λ x. Turns q x f) (sym count) (side, r, e2, rest))
]

-- From wherever a schedule leads, a run goes on to the same end.
pub goes_on :
    (schedule : List Bool) (n : ℕ) (p f : Pair)
    → Turns p n f
    → IsStuck f
    → (k : ℕ) × Turns (run schedule p) k f
unfolding run
goes_on [] n p f t stuck = (n, t)
goes_on (right ∷ rest) n p f t stuck = elim (Option-cases (move right p)) [
  | inl waits ↦
      (let (k, t') = goes_on rest n p f t stuck in
        (
          k,
          subst
              (λ o. Turns (run rest (elim o as (λ _. Pair) [ none ↦ p | some moved ↦ moved ])) k f)
              (sym waits) t',
        ))
  | inr (q, moved) ↦
      (let (k, count, t') = shorter n p q f right t stuck moved in
        let (j, t2) = goes_on rest k q f t' stuck in
        (
          j,
          subst (λ o. Turns (run rest (elim o as (λ _. Pair) [ none ↦ p | some r ↦ r ])) j f)
              (sym moved) t2,
        ))
]

-- A run of turns is what a schedule does.
pub by_schedule : (n : ℕ) (p f : Pair) → Turns p n f → (rest : List Bool) × (run rest p ≡ f)
unfolding Turns run
by_schedule zero p f t = ([], t)
by_schedule (suc n) p f (right, q, e, t) =
    let (rest, ran) = by_schedule n q f t in
    (right ∷ rest, ap (λ o. run rest (elim o as (λ _. Pair) [ none ↦ p | some r ↦ r ])) e ∙ ran)

-- A read for which the bytes are there, or which takes all of them.
module _ (k : List ℕ → Process) (n : ℕ) (bytes : List ℕ) (fds : List Fds) where
  pub act-read :
      n ≤ length bytes
      → act (read n k) bytes fds
        ≡ some (record {
          next = k (take n bytes);
          bytes = drop n bytes;
          sent = [];
          fds = fds;
          sent_fds = [];
        })
  unfolding act
  act-read h = ground arith

  pub act-read_all :
      n ≡ length bytes
      → (next : Process) → k bytes ≡ next
      → act (read n k) bytes fds
        ≡ some (record { next = next; bytes = []; sent = []; fds = fds; sent_fds = [] })
  act-read_all h next e =
      act-read (omega arith)
      ∙ ap₂
          (λ p rest. some (record { next = p; bytes = rest; sent = []; fds = fds; sent_fds = [] }))
          (ap k (take_ge n bytes (omega arith)) ∙ e) (drop_ge n bytes (omega arith))
