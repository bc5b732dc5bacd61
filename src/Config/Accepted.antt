-- ===== src/Config/Accepted.antt =====
-- The configurations that `VerifyConfig` of config.go accepts.
use mathlib.Core.Sum.{inr-injective}
use shmipc_go.Prelude.{
  ℕ, ◌+◌, ◌%◌, ◌^◌, ◌≤◌, ◌≡◌, ◌↔◌, refl, ap, sym, subst, ◌∙◌, true, false, none, ◌⊎◌, inl, inr,
  List, [], ◌∷◌, arith,
}
use shmipc_go.Errors.{Error}
use shmipc_go.BufferManager.{SizePercentPair}
use shmipc_go.Config.{
  Arch, Platform, Config, is_arm_arch, is_supported_arch, is_empty_path, verify_sizes, verify_rest,
  verify_config,
}

abbrev pub total_percent : List SizePercentPair → ℕ
total_percent [] = 0
total_percent (pair ∷ pairs) = pair.percent + total_percent pairs

-- Each size is at most the capacity, and a multiple of four on an arm.
abbrev pub AllFit : Arch → ℕ → List SizePercentPair → Type 0
AllFit arch cap [] = Unit {0}
AllFit arch cap (pair ∷ pairs) =
    (pair.size ≤ cap) × ((is_arm_arch arch ≡ false) ⊎ (pair.size % 4 ≡ 0)) × AllFit arch cap pairs

pub record IsAccepted (host : Platform) (config : Config) : Type 0 where
  pub large : 2 ^ 20 ≤ config.share_memory_buffer_cap
  pub fit : AllFit host.arch config.share_memory_buffer_cap config.buffer_slice_sizes
  pub percents : total_percent config.buffer_slice_sizes ≡ 100
  pub aligned : (is_arm_arch host.arch ≡ false) ⊎ (config.queue_cap % 8 ≡ 0)
  pub prefix : is_empty_path config.share_memory_path_prefix ≡ false
  pub path : is_empty_path config.queue_path ≡ false
  pub linux : host.linux ≡ true
  pub supported : is_supported_arch host.arch ≡ true

module _ (arch : Arch) (cap : ℕ) where
  verify_sizes-fit :
      (pairs : List SizePercentPair) (sum : ℕ)
      → AllFit arch cap pairs
      → verify_sizes arch cap pairs sum ≡ inr (sum + total_percent pairs)
  unfolding verify_sizes
  verify_sizes-fit [] sum f = ap inr {x = sum} {y = sum + 0} (omega arith)
  verify_sizes-fit (pair ∷ pairs) sum f =
      let ih = verify_sizes-fit pairs (sum + pair.percent) f.2 in
      let regroup : sum + pair.percent + total_percent pairs
          ≡ sum + (pair.percent + total_percent pairs) =
        omega arith in
      let size = f.0 in let aligned = f.1 in ground (arith, ih, regroup)

  -- What a loop that found no error says of its first pair.
  first_fits :
      (pair : SizePercentPair) (pairs : List SizePercentPair) (sum total : ℕ)
      → verify_sizes arch cap (pair ∷ pairs) sum ≡ inr total
      → (pair.size ≤ cap)
        × ((is_arm_arch arch ≡ false) ⊎ (pair.size % 4 ≡ 0))
        × (verify_sizes arch cap pairs (sum + pair.percent) ≡ inr total)
  unfolding verify_sizes
  first_fits pair pairs sum total e = (ground arith, ground arith, ground arith)

  fit-verify_sizes :
      (pairs : List SizePercentPair) (sum : ℕ) (total : ℕ)
      → verify_sizes arch cap pairs sum ≡ inr total
      → AllFit arch cap pairs × (total ≡ sum + total_percent pairs)
  unfolding verify_sizes
  fit-verify_sizes [] sum total e = (tt, sym (inr-injective _ _ e) ∙ omega arith)
  fit-verify_sizes (pair ∷ pairs) sum total e =
      let (size, aligned, e') = first_fits pair pairs sum total e in
      let (fit, rest) = fit-verify_sizes pairs (sum + pair.percent) total e' in
      ((size, aligned, fit), omega (arith, rest))

module _ (host : Platform) (config : Config) where
  abbrev sizes : List SizePercentPair → Error ⊎ ℕ
  sizes pairs = verify_sizes host.arch config.share_memory_buffer_cap pairs 0

  rest_accepts :
      (sum : ℕ)
      → verify_rest host config sum ≡ none
      → (sum ≡ 100)
        × ((is_arm_arch host.arch ≡ false) ⊎ (config.queue_cap % 8 ≡ 0))
        × (is_empty_path config.share_memory_path_prefix ≡ false)
        × (is_empty_path config.queue_path ≡ false)
        × (host.linux ≡ true)
        × (is_supported_arch host.arch ≡ true)
  unfolding verify_rest
  rest_accepts sum e =
      (ground arith, ground arith, ground arith, ground arith, ground arith, ground arith)

  accepts :
      (pairs : List SizePercentPair) (r : Error ⊎ ℕ)
      → config.buffer_slice_sizes ≡ pairs
      → sizes pairs ≡ r
      → verify_config host config ≡ none
      → IsAccepted host config
  unfolding verify_config
  accepts [] r p q e = absurd (ground arith)
  accepts (pair ∷ pairs) (inl error) p q e = absurd (ground arith)
  accepts (pair ∷ pairs) (inr sum) p q e =
      let rest : verify_rest host config sum ≡ none = ground arith in
      let (hundred, aligned, prefix, path, linux, supported) = rest_accepts sum rest in
      let (fit, total) =
        fit-verify_sizes host.arch config.share_memory_buffer_cap (pair ∷ pairs) 0 sum q in
      record {
        large = ground arith;
        fit = subst (AllFit host.arch config.share_memory_buffer_cap) (sym p) fit;
        percents = ap total_percent p ∙ omega (arith, total, hundred);
        aligned = aligned;
        prefix = prefix;
        path = path;
        linux = linux;
        supported = supported;
      }

  accepted :
      (pairs : List SizePercentPair)
      → config.buffer_slice_sizes ≡ pairs
      → IsAccepted host config
      → verify_config host config ≡ none
  unfolding verify_config verify_rest
  accepted [] p a = absurd (ground (arith, ap total_percent p, a.percents))
  accepted (pair ∷ pairs) p a =
      let q =
        verify_sizes-fit host.arch config.share_memory_buffer_cap (pair ∷ pairs) 0
          (subst (AllFit host.arch config.share_memory_buffer_cap) p a.fit) in
      let hundred : 0 + total_percent (pair ∷ pairs) ≡ 100 =
        omega (arith, ap total_percent p, a.percents) in
      ground (arith, q, hundred, p)

-- `VerifyConfig` returns nil exactly for the configurations that satisfy all of its conditions.
pub verify_config_iff :
    (host : Platform) (config : Config)
    → (verify_config host config ≡ none) ↔ IsAccepted host config
verify_config_iff host config = (
  accepts host config config.buffer_slice_sizes (sizes host config config.buffer_slice_sizes) refl
      refl,
  accepted host config config.buffer_slice_sizes refl,
)
