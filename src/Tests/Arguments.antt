-- ===== src/Tests/Arguments.antt =====
-- `config_parse_args` of src/config.c on a command line.
use if_flow.Base.{
  ◌^◌, ◌≡◌, refl, arith, List, [], ◌∷◌, Bytes, codes, ℤ, pos, str_eq, ◌*◌, if◌then◌else◌,
}
use if_flow.Flow.{second}
use if_flow.Config.{
  Double, nan, finite, config_set_defaults, config_parse_args, is_help, value_option, flag_option,
  unknown_option,
}
use if_flow.Config.Valid.{IsConfig, Below, defaults-IsConfig, parse_args-IsConfig}

-- Every number is 7.
abbrev seven : Bytes → ℤ
seven s = pos 7

-- But the text that is no number.
abbrev seven_seconds : Bytes → Double
seven_seconds s = if str_eq s (codes "nan") then nan else finite (pos (7 * second))

seven-Below : (s : Bytes) → Below (2 ^ 31) (seven s)
seven-Below s = omega arith

abbrev args : List Bytes
args =
    codes "--flush-sec"
    ∷ codes "7"
    ∷ codes "--no-ebpf"
    ∷ codes "--ebpf-ttl-sec"
    ∷ codes "nan"
    ∷ codes "--max-flows"
    ∷ codes "7"
    ∷ []

flow_limit_raised :
    (config_parse_args seven seven seven_seconds args config_set_defaults).0.max_flows ≡ pos 1024
unfolding config_parse_args config_set_defaults str_eq is_help value_option flag_option
flow_limit_raised = refl

-- The test for a minimum lets a NaN pass.
nan_passes :
    (config_parse_args seven seven seven_seconds
      (codes "--ebpf-ttl-sec" ∷ codes "nan" ∷ [])
      config_set_defaults).0.ebpf_ttl_sec
    ≡ nan
unfolding config_parse_args config_set_defaults str_eq is_help value_option flag_option
nan_passes = refl

value_missing :
    (config_parse_args seven seven seven_seconds (codes "--flush-sec" ∷ []) config_set_defaults).1
    ≡ unknown_option
unfolding config_parse_args str_eq is_help flag_option
value_missing = refl

parse_args-IsConfig_example :
    IsConfig seven_seconds (config_parse_args seven seven seven_seconds args config_set_defaults).0
parse_args-IsConfig_example =
    parse_args-IsConfig seven seven seven_seconds args config_set_defaults seven-Below
      (defaults-IsConfig seven_seconds)
