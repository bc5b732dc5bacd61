-- ===== src/Config.antt =====
-- config.go: `VerifyConfig`, and `isArmArch` of util.go. The platform is an argument; a path is the
-- list of its bytes.
pub mod Accepted
mod Tests
use shmipc_go.Prelude.{
  ℕ, ◌+◌, ◌-◌, ◌*◌, ◌%◌, ◌^◌, Bool, true, false, ◌&&◌, ◌||◌, not, Option, none, some, ◌⊎◌, inl, inr,
  ◌==◌, ltb, if◌then◌else◌, List, [], ◌∷◌,
}
use shmipc_go.Errors.{
  Error, small_share_memory, no_slice_sizes, slice_too_large, slice_not_aligned, percent_not_100,
  queue_cap_not_aligned, empty_path, os_non_supported, arch_non_supported,
}
use shmipc_go.BufferSlice.{buffer_header_size}
use shmipc_go.BufferManager.{SizePercentPair}

abbrev pub default_queue_cap : ℕ
default_queue_cap = 8192

abbrev pub default_share_memory_cap : ℕ
default_share_memory_cap = 32 * 1024 * 1024

-- `runtime.GOARCH`, as far as the code tells architectures apart.
pub data Arch : Type 0 where
  amd64 arm arm64 other : Arch

pub record Platform : Type 0 where
  pub arch : Arch
  pub linux : Bool

-- The fields that `VerifyConfig` reads.
pub record Config : Type 0 where
  pub share_memory_buffer_cap : ℕ
  pub buffer_slice_sizes : List SizePercentPair
  pub queue_cap : ℕ
  pub share_memory_path_prefix : List ℕ
  pub queue_path : List ℕ

abbrev pub is_arm_arch : Arch → Bool
is_arm_arch amd64 = false
is_arm_arch arm = true
is_arm_arch arm64 = true
is_arm_arch other = false

abbrev pub is_supported_arch : Arch → Bool
is_supported_arch amd64 = true
is_supported_arch arm = false
is_supported_arch arm64 = true
is_supported_arch other = false

abbrev pub is_empty_path : List ℕ → Bool
is_empty_path [] = true
is_empty_path (x ∷ xs) = false

-- The loop over the sizes: an error, or the sum of the percents.
unfoldable pub verify_sizes : Arch → ℕ → List SizePercentPair → ℕ → Error ⊎ ℕ
verify_sizes arch cap [] sum = inr sum
verify_sizes arch cap (pair ∷ pairs) sum =
    let others = verify_sizes arch cap pairs (sum + pair.percent) in
    if ltb cap pair.size
    then inl slice_too_large
    else if is_arm_arch arch && not (pair.size % 4 == 0)
    then inl slice_not_aligned
    else others

-- What follows the loop.
unfoldable pub verify_rest : Platform → Config → ℕ → Option Error
verify_rest host config sum =
    if not (sum == 100)
    then some percent_not_100
    else if is_arm_arch host.arch && not (config.queue_cap % 8 == 0)
    then some queue_cap_not_aligned
    else if is_empty_path config.share_memory_path_prefix || is_empty_path config.queue_path
    then some empty_path
    else if not host.linux
    then some os_non_supported
    else if not (is_supported_arch host.arch)
    then some arch_non_supported
    else none

unfoldable pub verify_config : Platform → Config → Option Error
unfolding verify_sizes verify_rest
verify_config host config =
    if ltb config.share_memory_buffer_cap (2 ^ 20)
    then some small_share_memory
    else elim config.buffer_slice_sizes as (λ _. Option Error) [
      | [] ↦ some no_slice_sizes
      | pair ∷ pairs ↦
          elim (verify_sizes host.arch config.share_memory_buffer_cap (pair ∷ pairs) 0) [
            | inl error ↦ some error
            | inr sum ↦ verify_rest host config sum
          ]
    ]

-- `DefaultConfig`, these fields of it; `/dev/shm/shmipc` and `/dev/shm/shmipc_queue` are text.
abbrev pub default_config : List ℕ → List ℕ → Config
default_config prefix queue_path = record {
  share_memory_buffer_cap = default_share_memory_cap;
  buffer_slice_sizes =
      record { size = 8192 - buffer_header_size; percent = 50 }
      ∷ record { size = 32 * 1024 - buffer_header_size; percent = 30 }
      ∷ record { size = 128 * 1024 - buffer_header_size; percent = 20 }
      ∷ [];
  queue_cap = default_queue_cap;
  share_memory_path_prefix = prefix;
  queue_path = queue_path;
}
