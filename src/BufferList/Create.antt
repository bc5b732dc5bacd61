-- ===== src/BufferList/Create.antt =====
-- The headers that `createFreeBufferList` of buffer_manager.go lays out.
use shmipc_go.Prelude.{
  ℕ, zero, suc, ◌+◌, ◌*◌, ◌%◌, ◌^◌, ◌≤◌, ◌<◌, ◌≡◌, ◌∙◌, ap, sym, refl, subst, List, [], ◌∷◌, arith,
}
use shmipc_go.Memory.{Address, Mem, load, store}
use shmipc_go.Memory.Laws.{load-store_apart}
use shmipc_go.Command.{ok, Bytes}
use shmipc_go.BufferSlice.Header.{
  Header, header_at, header_at-apart, header_at-flag, header_at-size, header_at-start,
  header_at-cap,
}
use shmipc_go.BufferList.{init_headers}
use shmipc_go.BufferList.Free.{IsLinked, IsLast, Links, last}
use shmipc_go.BufferList.Push.{chained_memory}
use shmipc_go.BufferList.Chained.{chained-IsLinked, header_at-chained}

-- The buffers from `current` on, `w` bytes apart.
abbrev pub buffers_from : ℕ → ℕ → ℕ → List ℕ
buffers_from zero w current = []
buffers_from (suc n) w current = current ∷ buffers_from n w (current + w)

-- Their headers once written: all but the last one with a next one.
abbrev pub write_header : Mem → Address → ℕ → Mem
write_header m h per = store 4 (store 4 (store 4 m h per) (h + 4) 0) (h + 8) 0

abbrev pub headers_memory : ℕ → Address → ℕ → ℕ → Mem → Mem
headers_memory zero base per current m = m
headers_memory (suc zero) base per current m = write_header m (base + current) per
headers_memory (suc (suc n)) base per current m =
    headers_memory (suc n) base per (current + (per + 20))
      (chained_memory (write_header m (base + current) per) (base + current) (current + (per + 20)))

pub init_headers-run :
    (n : ℕ) (region : Bytes) (per current : ℕ) (m : Mem)
    → current + n * (per + 20) ≤ region.len
    → region.len < 2 ^ 32
    → init_headers n region per current m ≡ ok tt (headers_memory n region.address per current m)
unfolding init_headers
init_headers-run zero region per current m inside small = refl
init_headers-run (suc zero) region per current m inside small = ground arith
init_headers-run (suc (suc n)) region per current m inside small =
    let next : (current + per + 20) % 2 ^ 32 ≡ current + (per + 20) = omega arith in
    let more : suc (suc n) * (per + 20) ≡ (per + 20) + suc n * (per + 20) = omega arith in
    let rest =
      init_headers-run (suc n) region per (current + (per + 20))
        (chained_memory (write_header m (region.address + current) per) (region.address + current)
          (current + (per + 20)))
        (omega (arith, more, inside)) small in
    ground (arith, next, rest)

-- Nothing before a header is written with it.
load-write_header :
    (k : ℕ) (m : Mem) (h per : ℕ) (a : Address)
    → a + k ≤ h
    → load k (write_header m h per) a ≡ load k m a
load-write_header k m h per a before =
    load-store_apart k 4 _ _ 0 a (omega arith)
    ∙ load-store_apart k 4 _ _ 0 a (omega arith)
    ∙ load-store_apart k 4 m _ per a (omega arith)

header_at-write_header :
    (m : Mem) (h per : ℕ) (g : Address)
    → g + 20 ≤ h
    → header_at (write_header m h per) g ≡ header_at m g
header_at-write_header m h per g before =
    header_at-apart 4 _ (h + 8) 0 g (omega arith)
    ∙ header_at-apart 4 _ (h + 4) 0 g (omega arith)
    ∙ header_at-apart 4 m h per g (omega arith)

pub load-headers :
    (k n : ℕ) (base per current : ℕ) (m : Mem) (a : Address)
    → a + k ≤ base + current
    → load k (headers_memory n base per current m) a ≡ load k m a
load-headers k zero base per current m a before = refl
load-headers k (suc zero) base per current m a before =
    load-write_header k m (base + current) per a before
load-headers k (suc (suc n)) base per current m a before =
    load-headers k (suc n) base per (current + (per + 20)) _ a (omega arith)
    ∙ load-store_apart k 1 _ _ _ a (omega arith)
    ∙ load-store_apart k 4 _ _ _ a (omega arith)
    ∙ load-write_header k m (base + current) per a before

header_at-headers :
    (n : ℕ) (base per current : ℕ) (m : Mem) (g : Address)
    → g + 20 ≤ base + current
    → header_at (headers_memory n base per current m) g ≡ header_at m g
header_at-headers zero base per current m g before = refl
header_at-headers (suc zero) base per current m g before =
    header_at-write_header m (base + current) per g before
header_at-headers (suc (suc n)) base per current m g before =
    header_at-headers (suc n) base per (current + (per + 20)) _ g (omega arith)
    ∙ header_at-chained (write_header m (base + current) per) (base + current) g
        (current + (per + 20)) (omega arith)
    ∙ header_at-write_header m (base + current) per g before

written :
    (m : Mem) (h per : ℕ)
    → per < 2 ^ 32
    → header_at (write_header m h per) h ≡ record (header_at m h) { cap = per; size = 0; start = 0 }
written m h per small =
    let m1 = store 4 m h per in
    let m2 = store 4 m1 (h + 4) 0 in
    header_at-start m2 h 0 (omega arith)
    ∙ ap {A = Header} (λ r. record r { start = 0 })
        (header_at-size m1 h 0 (omega arith)
          ∙ ap {A = Header} (λ r. record r { size = 0 }) (header_at-cap m h per small))

pub le-last : (n w current : ℕ) → current ≤ last (buffers_from (suc n) w current)
le-last zero w current = omega arith
le-last (suc n) w current = omega (arith, le-last n w (current + w))

-- The last header's flag is cleared in the end.
abbrev pub laid_out : ℕ → Address → ℕ → ℕ → Mem → Mem
laid_out n base per current m =
    store 1 (headers_memory n base per current m)
      (base + last (buffers_from n (per + 20) current) + 16) 0

pub Links-laid_out :
    (n base per current : ℕ) (m : Mem)
    → per < 2 ^ 31
    → last (buffers_from (suc n) (per + 20) current) < 2 ^ 31
    → Links (laid_out (suc n) base per current m) base per (buffers_from (suc n) (per + 20) current)
Links-laid_out zero base per current m small top =
    let e =
      header_at-flag (write_header m (base + current) per) (base + current) 0 (omega arith)
      ∙ ap {A = Header} (λ r. record r { flag = 0 })
          (written m (base + current) per (omega arith)) in
    subst (λ r. IsLast r per) (sym e)
      (record { cap_word = refl; size_word = refl; start_word = refl; flag_word = refl })
Links-laid_out (suc n) base per current m small top =
    let next = current + (per + 20) in
    let lo = le-last n (per + 20) next in
    let m1 = write_header m (base + current) per in
    let w = written m (base + current) per (omega arith) in
    let e =
      header_at-apart 1
        (headers_memory (suc n) base per next (chained_memory m1 (base + current) next))
        (base + last (buffers_from (suc n) (per + 20) next) + 16) 0 (base + current)
        (omega (arith, lo))
      ∙ header_at-headers (suc n) base per next (chained_memory m1 (base + current) next)
          (base + current) (omega arith) in
    (
      subst (λ r. IsLinked r per next) (sym e)
          (chained-IsLinked m1 (base + current) per next (omega (arith, lo, top))
            (ap (λ h. h.cap) w) (ap (λ h. h.size) w) (ap (λ h. h.start) w)),
      Links-laid_out n base per next (chained_memory m1 (base + current) next) small top,
    )
