-- ===== src/Queue/Effects.antt =====
-- What `put` and `pop` of queue.go do to the elements that a valid queue holds.
use shmipc_go.Prelude.{
  ℕ, suc, ◌+◌, ◌-◌, ◌*◌, ◌%◌, ◌^◌, ◌≤◌, ◌<◌, ◌≡◌, refl, sym, ap, ap₂, ◌∙◌, inl, inr, ◌≢◌, ◌⊎◌, [],
  ◌∷◌, ◌++◌, arith,
}
use shmipc_go.Memory.{Address, Mem, store}
use shmipc_go.Memory.Laws.{load-store_self, load-store_apart}
use shmipc_go.Queue.{Queue, Element}
use shmipc_go.Queue.Calls.{with_element, load-with_element, put_memory, pop_memory}
use shmipc_go.Queue.Fifo.{IsWords}
use shmipc_go.Queue.Contents.{
  IsValid, head_of, tail_of, slot, element_at, window, contents, mod-ne, window-cong, window-snoc,
  window_of_pos,
}

element_at-apart :
    (m : Mem) (a : Address) (e : Element) (b : Address)
    → (b + 12 ≤ a) ⊎ (a + 12 ≤ b)
    → element_at (with_element m a e) b ≡ element_at m b
element_at-apart m a e b h = ground (
  arith,
  load-with_element 4 m a e b,
  load-with_element 4 m a e (b + 4),
  load-with_element 4 m a e (b + 8),
)

element_at_self :
    (m : Mem) (a : Address) (e : Element) → IsWords e → element_at (with_element m a e) a ≡ e
element_at_self m a e w = grind (arith, load-store_apart, load-store_self)

element_at-store :
    (m : Mem) (p n : ℕ) (b : Address) → p + 8 ≤ b → element_at (store 8 m p n) b ≡ element_at m b
element_at-store m p n b h = ground (
  arith,
  load-store_apart 4 8 m p n b (inr h),
  load-store_apart 4 8 m p n (b + 4) (inr (omega arith)),
  load-store_apart 4 8 m p n (b + 8) (inr (omega arith)),
)

slots_apart : (a i j : ℕ) → i ≢ j → (a + i * 12 + 12 ≤ a + j * 12) ⊎ (a + j * 12 + 12 ≤ a + i * 12)
slots_apart a i j ne = grind arith

-- What `put` leaves: the new element behind the others, and the counters in order.
module _ (q : Queue) (m : Mem) (v : IsValid q m) (e : Element) where
  pub head_of-put : head_of q (put_memory q e m) ≡ head_of q m
  head_of-put =
      load-store_apart 8 8 _ q.tail _ q.head (inl v.layout.head_tail)
      ∙ load-with_element 8 m (slot q (tail_of q m)) e q.head (omega (arith, v.layout))

  pub tail_of-put : tail_of q m + 1 < 2 ^ 63 → tail_of q (put_memory q e m) ≡ tail_of q m + 1
  tail_of-put h = load-store_self 8 _ q.tail (tail_of q m + 1) (omega arith)

  element_at-put :
      (i : ℕ)
      → i % q.cap ≢ tail_of q m % q.cap
      → element_at (put_memory q e m) (slot q i) ≡ element_at m (slot q i)
  element_at-put i ne =
      element_at-store _ q.tail _ (slot q i) (omega (arith, v.layout))
      ∙ element_at-apart m (slot q (tail_of q m)) e (slot q i)
          (slots_apart q.bytes.address (i % q.cap) (tail_of q m % q.cap) ne)

  element_at-put_self : IsWords e → element_at (put_memory q e m) (slot q (tail_of q m)) ≡ e
  element_at-put_self w =
      element_at-store _ q.tail _ (slot q (tail_of q m)) (omega (arith, v.layout))
      ∙ element_at_self m (slot q (tail_of q m)) e w

  pub window-put :
      (h n : ℕ)
      → IsWords e
      → h + n ≡ tail_of q m
      → n < q.cap
      → window q (put_memory q e m) h (suc n) ≡ window q m h n ++ (e ∷ [])
  window-put h n w end room =
      window-snoc q (put_memory q e m) h n
      ∙ ap₂ (λ xs x. xs ++ (x ∷ []))
          (window-cong q m (put_memory q e m) h n λ i lo hi. element_at-put i λ same.
            mod-ne q.cap i (tail_of q m - i) (omega arith) (omega arith)
              (ap (λ k. k % q.cap) (omega arith) ∙ sym same))
          (ap (λ k. element_at (put_memory q e m) (slot q k)) end ∙ element_at-put_self w)

  pub contents-put :
      IsWords e
      → tail_of q m < head_of q m + q.cap
      → tail_of q m + 1 < 2 ^ 63
      → contents q (put_memory q e m) ≡ contents q m ++ (e ∷ [])
  contents-put w room small =
      rw (head_of-put, tail_of-put small)
        (let grown : tail_of q m + 1 - head_of q m ≡ suc (tail_of q m - head_of q m) =
            omega (arith, v.ordered) in
          ap (window q (put_memory q e m) (head_of q m)) grown
          ∙ window-put (head_of q m) (tail_of q m - head_of q m) w (omega (arith, v.ordered))
              (omega (arith, v.ordered)))

  pub put-IsValid :
      tail_of q m < head_of q m + q.cap → tail_of q m + 1 < 2 ^ 63 → IsValid q (put_memory q e m)
  put-IsValid room small = ground (arith, v.layout, head_of-put, tail_of-put small)

module _ (q : Queue) (m : Mem) (v : IsValid q m) (some_left : head_of q m < tail_of q m) where
  pub head_of-pop : head_of q (pop_memory q m) ≡ head_of q m + 1
  head_of-pop = load-store_self 8 m q.head (head_of q m + 1) (omega (arith, v.in_range))

  pub tail_of-pop : tail_of q (pop_memory q m) ≡ tail_of q m
  tail_of-pop = load-store_apart 8 8 m q.head _ q.tail (inr v.layout.head_tail)

  pub contents-pop :
      contents q m ≡ element_at m (slot q (head_of q m)) ∷ contents q (pop_memory q m)
  contents-pop =
      rw (head_of-pop, tail_of-pop)
        (window_of_pos q m (head_of q m) (tail_of q m - head_of q m) (omega arith)
          ∙ ap₂ ◌∷◌ refl (
              sym (
                window-cong q m (pop_memory q m) (head_of q m + 1) _
                  λ i lo hi. element_at-store m q.head _ (slot q i) (omega (arith, v.layout)))
              ∙ ap (window q (pop_memory q m) (head_of q m + 1)) (omega arith)))

  pub pop-IsValid : IsValid q (pop_memory q m)
  pop-IsValid = ground (arith, v.layout, v.bounded, v.in_range, head_of-pop, tail_of-pop)
