-- ===== src/BufferList/Apart.antt =====
-- Sets of buffers of buffer_manager.go that share no byte: their order does not matter.
use mathlib.Core.List.{Permᴰ}
use mathlib.Core.List.Permᴰ
use shmipc_go.Prelude.{ℕ, ◌+◌, ◌≡◌, ◌∙◌, sym, refl, subst, List, [], ◌∷◌, ◌++◌, length, arith}
use shmipc_go.Memory.{Address, Mem}
use shmipc_go.BufferList.Free.{ApartFrom, AllApart, AllInside, Caps, IsFree}
use shmipc_go.BufferList.{BufferList}

module _ (w : ℕ) where
  ApartFrom-Perm : (x : ℕ) {xs ys : List ℕ} → Permᴰ xs ys → ApartFrom w x xs → ApartFrom w x ys
  ApartFrom-Perm x Permᴰ.nil a = tt
  ApartFrom-Perm x (Permᴰ.cons e p) a = (omega arith, ApartFrom-Perm x p a.1)
  ApartFrom-Perm x (Permᴰ.swap e e') a = (omega arith, (omega arith, a.1.1))
  ApartFrom-Perm x (Permᴰ.trans p q) a = ApartFrom-Perm x q (ApartFrom-Perm x p a)

  pub AllApart-Perm : {xs ys : List ℕ} → Permᴰ xs ys → AllApart w xs → AllApart w ys
  AllApart-Perm Permᴰ.nil a = tt
  AllApart-Perm (Permᴰ.cons {l₁} {l₂} e p) a =
      (rw (sym e) (ApartFrom-Perm _ p a.0), AllApart-Perm p a.1)
  AllApart-Perm (Permᴰ.swap {l = l} e e') a = (
    (omega arith, subst (λ x. ApartFrom w x l) e' a.1.0),
    (subst (λ x. ApartFrom w x l) e a.0.1, a.1.1),
  )
  AllApart-Perm (Permᴰ.trans p q) a = AllApart-Perm q (AllApart-Perm p a)

  pub AllInside-Perm :
      (len : ℕ) {xs ys : List ℕ} → Permᴰ xs ys → AllInside w len xs → AllInside w len ys
  AllInside-Perm len Permᴰ.nil a = tt
  AllInside-Perm len (Permᴰ.cons e p) a = (omega arith, AllInside-Perm len p a.1)
  AllInside-Perm len (Permᴰ.swap e e') a = (omega arith, (omega arith, a.1.1))
  AllInside-Perm len (Permᴰ.trans p q) a = AllInside-Perm len q (AllInside-Perm len p a)

module _ (w x : ℕ) where
  pub ApartFrom-append_left : (xs ys : List ℕ) → ApartFrom w x (xs ++ ys) → ApartFrom w x xs
  ApartFrom-append_left [] ys a = tt
  ApartFrom-append_left (z ∷ xs) ys a = (a.0, ApartFrom-append_left xs ys a.1)

  pub ApartFrom-append_right : (xs ys : List ℕ) → ApartFrom w x (xs ++ ys) → ApartFrom w x ys
  ApartFrom-append_right [] ys a = a
  ApartFrom-append_right (z ∷ xs) ys a = ApartFrom-append_right xs ys a.1

Caps-Perm :
    (m : Mem) (base : Address) (per : ℕ) {xs ys : List ℕ}
    → Permᴰ xs ys
    → Caps m base per xs
    → Caps m base per ys
Caps-Perm m base per Permᴰ.nil a = tt
Caps-Perm m base per (Permᴰ.cons e p) a = (rw (sym e) a.0, Caps-Perm m base per p a.1)
Caps-Perm m base per (Permᴰ.swap e e') a = (rw (sym e') a.1.0, (rw (sym e) a.0, a.1.1))
Caps-Perm m base per (Permᴰ.trans p q) a = Caps-Perm m base per q (Caps-Perm m base per p a)

pub length-Perm : {xs ys : List ℕ} → Permᴰ xs ys → length xs ≡ length ys
length-Perm Permᴰ.nil = refl
length-Perm (Permᴰ.cons e p) = omega (arith, length-Perm p)
length-Perm (Permᴰ.swap e e') = refl
length-Perm (Permᴰ.trans p q) = length-Perm p ∙ length-Perm q

-- The order of the buffers handed out does not matter.
pub IsFree-Perm :
    (b : BufferList) (per : ℕ) (m : Mem) (free : List ℕ) {held held' : List ℕ}
    → Permᴰ held held'
    → IsFree b per m free held
    → IsFree b per m free held'
IsFree-Perm b per m free p v = record {
  layout = v.layout;
  per_word = v.per_word;
  size_word = v.size_word;
  head_word = v.head_word;
  tail_word = v.tail_word;
  some_free = v.some_free;
  links = v.links;
  few = omega (arith, length-Perm p, v.few);
  inside = AllInside-Perm (per + 20) b.region.len (Permᴰ.append_left free p) v.inside;
  apart = AllApart-Perm (per + 20) (Permᴰ.append_left free p) v.apart;
  caps = Caps-Perm m b.region.address per p v.caps;
}
