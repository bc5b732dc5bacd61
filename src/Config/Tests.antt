-- ===== src/Config/Tests.antt =====
-- The default configuration of config.go, and one whose percents are wrong.
use shmipc_go.Prelude.{◌≡◌, ◌↔◌, refl, true, some, none, [], ◌∷◌}
use shmipc_go.Errors.{percent_not_100, slice_not_aligned}
use shmipc_go.Config.{
  Config, Platform, amd64, arm64, default_config, verify_config, verify_sizes, verify_rest,
}
use shmipc_go.Config.Accepted.{IsAccepted, verify_config_iff}

abbrev usual : Config
usual = default_config (47 ∷ []) (47 ∷ [])

abbrev server : Platform
server = record { arch = amd64; linux = true }

usual-accepted : verify_config server usual ≡ none
unfolding verify_config verify_sizes verify_rest
usual-accepted = refl

ninety :
    verify_config server
      (record usual { buffer_slice_sizes = record { size = 4096; percent = 90 } ∷ [] })
    ≡ some percent_not_100
unfolding verify_config verify_sizes verify_rest
ninety = refl

odd_size :
    verify_config
      (record { arch = arm64; linux = true })
      (record usual { buffer_slice_sizes = record { size = 4095; percent = 100 } ∷ [] })
    ≡ some slice_not_aligned
unfolding verify_config verify_sizes verify_rest
odd_size = refl

verify_config_iff_example : (verify_config server usual ≡ none) ↔ IsAccepted server usual
verify_config_iff_example = verify_config_iff server usual
