-- ===== src/BufferList/Chained.antt =====
-- Headers of buffer_manager.go cleared and chained by `push`, and what it needs of the order of the
-- buffers.
use Prim.Native.Nat.{bit_or}
use shmipc_go.Prelude.{
  ℕ, ◌+◌, ◌^◌, ◌≤◌, ◌<◌, ◌≡◌, ◌∙◌, ap, sym, refl, subst, ◌⊎◌, List, [], ◌∷◌, ◌++◌, arith,
}
use shmipc_go.Memory.{Address, Mem, load, store}
use shmipc_go.Memory.Laws.{load-lt}
use shmipc_go.BufferSlice.Header.{
  Header, header_at, header_at-apart, header_at-flag, header_at-next, header_at-size,
  header_at-start, linked,
}
use shmipc_go.BufferList.Free.{IsLinked, IsLast, Links, AllApart, AllInside, ApartFrom, last}
use shmipc_go.BufferList.Apart.{ApartFrom-append_left, ApartFrom-append_right}
use shmipc_go.BufferList.Push.{cleared_memory, chained_memory}

-- A cleared header is that of a last buffer, and a chained one that of a buffer with a next.
pub cleared-IsLast :
    (m : Mem) (h : Address) (per : ℕ)
    → (header_at m h).cap ≡ per
    → IsLast (header_at (cleared_memory m h) h) per
cleared-IsLast m h per c =
    let m1 = store 4 m (h + 4) 0 in
    let m2 = store 4 m1 (h + 8) 0 in
    let e1 = header_at-size m h 0 (omega arith) in
    let e2 = header_at-start m1 h 0 (omega arith) in
    let e3 = header_at-flag m2 h 0 (omega arith) in
    subst (λ r. IsLast r per)
      (sym (
        e3
        ∙ ap {A = Header} (λ r. record r { flag = 0 })
            (e2 ∙ ap {A = Header} (λ r. record r { start = 0 }) e1)))
      (record { cap_word = c; size_word = refl; start_word = refl; flag_word = refl })

pub chained-IsLinked :
    (m : Mem) (h : Address) (per x : ℕ)
    → x < 2 ^ 32
    → (header_at m h).cap ≡ per
    → (header_at m h).size ≡ 0
    → (header_at m h).start ≡ 0
    → IsLinked (header_at (chained_memory m h x) h) per x
chained-IsLinked m h per x small c z s =
    let m1 = store 4 m (h + 12) x in
    let bits = linked (load 1 m1 (h + 16)) (load-lt 1 m1 (h + 16)) in
    let e1 = header_at-next m h x small in
    let e2 = header_at-flag m1 h (bit_or (load 1 m1 (h + 16)) 1) bits.1 in
    subst (λ r. IsLinked r per x)
      (sym (e2 ∙ ap {A = Header} (λ r. record r { flag = bit_or (load 1 m1 (h + 16)) 1 }) e1))
      (record { cap_word = c; size_word = z; start_word = s; next_word = refl; flag_word = bits.0 })

pub header_at-chained :
    (m : Mem) (h g : Address) (x : ℕ)
    → (g + 20 ≤ h) ⊎ (h + 20 ≤ g)
    → header_at (chained_memory m h x) g ≡ header_at m g
header_at-chained m h g x apart =
    header_at-apart 1 _ (h + 16) _ g (omega arith) ∙ header_at-apart 4 m (h + 12) x g (omega arith)

pub ApartFrom-last :
    (w z y : ℕ) (ys : List ℕ)
    → ApartFrom w z (y ∷ ys)
    → (z + w ≤ last (y ∷ ys)) ⊎ (last (y ∷ ys) + w ≤ z)
ApartFrom-last w z y [] a = a.0
ApartFrom-last w z y (y' ∷ ys) a = ApartFrom-last w z y' ys a.1

module _ (m : Mem) (base per x : ℕ) (small : x < 2 ^ 32) where
  pub Links-chained :
      (z : ℕ) (zs : List ℕ)
      → AllApart (per + 20) (z ∷ zs ++ x ∷ [])
      → IsLast (header_at m (base + x)) per
      → Links m base per (z ∷ zs)
      → Links (chained_memory m (base + last (z ∷ zs)) x) base per (z ∷ zs ++ x ∷ [])
  Links-chained z [] apart new l = (
    chained-IsLinked m (base + z) per x small l.cap_word l.size_word l.start_word,
    subst (λ r. IsLast r per) (sym (header_at-chained m (base + z) (base + x) x (omega arith))) new,
  )
  Links-chained z (y ∷ ys) apart new l =
      let far =
        ApartFrom-last (per + 20) z y ys
          (ApartFrom-append_left (per + 20) z (y ∷ ys) (x ∷ []) apart.0) in
      (
        subst (λ r. IsLinked r per y)
            (sym (header_at-chained m (base + last (y ∷ ys)) (base + z) x (omega arith))) l.0,
        Links-chained y ys apart.1 new l.1,
      )

pub AllApart-append_left : (w : ℕ) (xs ys : List ℕ) → AllApart w (xs ++ ys) → AllApart w xs
AllApart-append_left w [] ys a = tt
AllApart-append_left w (x ∷ xs) ys a =
    (ApartFrom-append_left w x xs ys a.0, AllApart-append_left w xs ys a.1)

-- The buffer that is returned is apart from the others.
pub ApartFrom-middle :
    (w x : ℕ) (xs ys : List ℕ) → AllApart w (xs ++ x ∷ ys) → ApartFrom w x xs × ApartFrom w x ys
ApartFrom-middle w x [] ys a = (tt, a.0)
ApartFrom-middle w x (z ∷ xs) ys a =
    let here = ApartFrom-append_right w z xs (x ∷ ys) a.0 in
    let rest = ApartFrom-middle w x xs ys a.1 in ((omega arith, rest.0), rest.1)

pub AllInside-last :
    (w len z : ℕ) (zs ys : List ℕ) → AllInside w len (z ∷ zs ++ ys) → last (z ∷ zs) + w ≤ len
AllInside-last w len z [] ys a = a.0
AllInside-last w len z (y ∷ zs) ys a = AllInside-last w len y zs ys a.1

pub AllInside-at : (w len x : ℕ) (xs ys : List ℕ) → AllInside w len (xs ++ x ∷ ys) → x + w ≤ len
AllInside-at w len x [] ys a = a.0
AllInside-at w len x (z ∷ xs) ys a = AllInside-at w len x xs ys a.1

pub last-append : (z : ℕ) (zs : List ℕ) (x : ℕ) → last (z ∷ zs ++ x ∷ []) ≡ x
last-append z [] x = refl
last-append z (y ∷ zs) x = last-append y zs x

pub ApartFrom-last_held :
    (w z : ℕ) (zs held : List ℕ) → AllApart w (z ∷ zs ++ held) → ApartFrom w (last (z ∷ zs)) held
ApartFrom-last_held w z [] held a = a.0
ApartFrom-last_held w z (y ∷ zs) held a = ApartFrom-last_held w y zs held a.1
