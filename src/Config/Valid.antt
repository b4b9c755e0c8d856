-- ===== src/Config/Valid.antt =====
-- src/config.c: whatever the arguments are, what they leave can be run with.
use if_flow.Base.{
  ℕ, ◌^◌, ◌≤◌, ◌<◌, Bool, true, false, Option, none, some, List, [], ◌∷◌, Bytes, ℤ, pos, negsuc,
  ◌≡◌, refl, arith, length, safe_copy_fits, ltb, if◌then◌else◌, Bool-cases, Option-cases, inl, inr,
}
use if_flow.Flow.{second, u64_mod}
use if_flow.Config.{
  Double, nan, infinity, minus_infinity, finite, AppConfig, config_set_defaults, at_least,
  at_least_double, mebibytes, is_help, ValueOption, FlagOption, value_option, flag_option, set_flag,
  set_value, Parsed, parsed, flagged, config_parse_args,
}

abbrev pub AtLeast : ℕ → ℤ → Type 0
AtLeast low (pos n) = low ≤ n
AtLeast low (negsuc n) = ⊥

abbrev pub Below : ℕ → ℤ → Type 0
Below high (pos n) = n < high
Below high (negsuc n) = Unit {0}

-- A time of at least `low`, or a NaN that `atof` gave.
abbrev pub IsTime : (Bytes → Double) → ℕ → Double → Type 0
IsTime atof low nan = (s : Bytes) × (atof s ≡ nan)
IsTime atof low infinity = Unit {0}
IsTime atof low minus_infinity = ⊥
IsTime atof low (finite z) = AtLeast low z

-- Every period and limit is positive, or a time that `atof` read as a NaN; the flow limit is an int,
-- and the texts fit their buffers.
pub record IsConfig (atof : Bytes → Double) (cfg : AppConfig) : Type 0 where
  pub minute_flush : AtLeast 1 cfg.minute_flush_sec
  pub stream_flush : AtLeast 1 cfg.stream_flush_sec
  pub idle_timeout : AtLeast 1 cfg.idle_timeout_sec
  pub flows_low : AtLeast 1024 cfg.max_flows
  pub flows_high : Below (2 ^ 31) cfg.max_flows
  pub resolver_ttl : IsTime atof second cfg.resolver_ttl_sec
  pub resolver_refresh : IsTime atof 50_000_000 cfg.resolver_refresh_sec
  pub ebpf_ttl : IsTime atof second cfg.ebpf_ttl_sec
  pub datapath_ttl : IsTime atof second cfg.datapath_ttl_sec
  pub interface_fits : length cfg.interface < 64
  pub object_fits : length cfg.bpf_object < 1024
  pub json_fits : length cfg.json_path < 1024
  pub size_fits : cfg.json_max_file_size_bytes < u64_mod

at_least_lem : (low other : ℕ) (z : ℤ) → low ≤ other → AtLeast low (at_least low other z)
unfolding at_least
at_least_lem low other (pos n) h = elim (Bool-cases (ltb n low)) [
  | inl b ↦ rw b h
  | inr b ↦ rw b (ground arith)
]
at_least_lem low other (negsuc n) h = h

at_least_double_lem :
    (atof : Bytes → Double) (low other : ℕ) (s : Bytes) (t : Double)
    → low ≤ other
    → atof s ≡ t
    → IsTime atof low (at_least_double low other t)
unfolding at_least_double
at_least_double_lem atof low other s nan h e = (s, e)
at_least_double_lem atof low other s infinity h e = tt
at_least_double_lem atof low other s minus_infinity h e = h
at_least_double_lem atof low other s (finite z) h e = at_least_lem low other z h

at_least-Below :
    (low other high : ℕ) (z : ℤ) → other < high → Below high z → Below high (at_least low other z)
unfolding at_least
at_least-Below low other high (pos n) h b = elim (Bool-cases (ltb n low)) [
  | inl c ↦ rw c h
  | inr c ↦ rw c b
]
at_least-Below low other high (negsuc n) h b = h

mebibytes_fits : (z : ℤ) → mebibytes z < u64_mod
unfolding mebibytes
mebibytes_fits (pos mb) = omega arith
mebibytes_fits (negsuc n) = omega arith

pub defaults-IsConfig : (atof : Bytes → Double) → IsConfig atof config_set_defaults
unfolding config_set_defaults
defaults-IsConfig atof = record {
  minute_flush = omega arith;
  stream_flush = omega arith;
  idle_timeout = omega arith;
  flows_low = omega arith;
  flows_high = omega arith;
  resolver_ttl = omega arith;
  resolver_refresh = omega arith;
  ebpf_ttl = omega arith;
  datapath_ttl = omega arith;
  interface_fits = omega arith;
  object_fits = omega arith;
  json_fits = omega arith;
  size_fits = omega arith;
}

-- A flag changes none of the limits.
set_flag-IsConfig :
    (atof : Bytes → Double) (f : FlagOption) (cfg : AppConfig)
    → IsConfig atof cfg
    → IsConfig atof (set_flag f cfg)
unfolding set_flag
set_flag-IsConfig atof f cfg v = record {
  minute_flush = ground (arith, v.minute_flush);
  stream_flush = ground (arith, v.stream_flush);
  idle_timeout = ground (arith, v.idle_timeout);
  flows_low = ground (arith, v.flows_low);
  flows_high = ground (arith, v.flows_high);
  resolver_ttl = ground (arith, v.resolver_ttl);
  resolver_refresh = ground (arith, v.resolver_refresh);
  ebpf_ttl = ground (arith, v.ebpf_ttl);
  datapath_ttl = ground (arith, v.datapath_ttl);
  interface_fits = ground (arith, v.interface_fits);
  object_fits = ground (arith, v.object_fits);
  json_fits = ground (arith, v.json_fits);
  size_fits = ground (arith, v.size_fits);
}

module _ (atoi atol : Bytes → ℤ) (atof : Bytes → Double) where
  -- An option with a value keeps the limits, if `atoi` gives an int.
  set_value-IsConfig :
      (o : ValueOption) (s : Bytes) (cfg : AppConfig)
      → Below (2 ^ 31) (atoi s)
      → IsConfig atof cfg
      → IsConfig atof (set_value atoi atol atof o s cfg)
  unfolding set_value
  set_value-IsConfig o s cfg b v =
      let longer = at_least_double_lem atof second second s (atof s) (omega arith) refl in
      let refreshed =
        at_least_double_lem atof 50_000_000 50_000_000 s (atof s) (omega arith) refl in
      record {
        minute_flush = ground (arith, v.minute_flush, at_least_lem 1 60 (atoi s) (omega arith));
        stream_flush = ground (arith, v.stream_flush, at_least_lem 1 1 (atoi s) (omega arith));
        idle_timeout = ground (arith, v.idle_timeout, at_least_lem 1 120 (atoi s) (omega arith));
        flows_low = ground (arith, v.flows_low, at_least_lem 1024 1024 (atoi s) (omega arith));
        flows_high =
            ground
              (arith, v.flows_high, at_least-Below 1024 1024 (2 ^ 31) (atoi s) (omega arith) b);
        resolver_ttl = ground (arith, v.resolver_ttl, longer);
        resolver_refresh = ground (arith, v.resolver_refresh, refreshed);
        ebpf_ttl = ground (arith, v.ebpf_ttl, longer);
        datapath_ttl = ground (arith, v.datapath_ttl, longer);
        interface_fits =
            ground (arith, v.interface_fits, safe_copy_fits [] 64 (some s) (omega arith));
        object_fits = ground (arith, v.object_fits, safe_copy_fits [] 1024 (some s) (omega arith));
        json_fits = ground (arith, v.json_fits, safe_copy_fits [] 1024 (some s) (omega arith));
        size_fits = ground (arith, v.size_fits, mebibytes_fits (atol s));
      }

  flagged-IsConfig :
      (o : Option FlagOption) (cfg : AppConfig) (go_on : AppConfig → AppConfig × Parsed)
      → IsConfig atof cfg
      → ((c : AppConfig) → IsConfig atof c → IsConfig atof (go_on c).0)
      → IsConfig atof (flagged atoi atol atof o cfg go_on).0
  flagged-IsConfig none cfg go_on v h = v
  flagged-IsConfig (some f) cfg go_on v h = h (set_flag f cfg) (set_flag-IsConfig atof f cfg v)

  if-IsConfig :
      (b : Bool) (p q : AppConfig × Parsed)
      → IsConfig atof p.0
      → IsConfig atof q.0
      → IsConfig atof ((if◌then◌else◌ {A = AppConfig × Parsed} b p q).0)
  if-IsConfig true p q h k = h
  if-IsConfig false p q h k = k

  -- Whatever the arguments are, if `atoi` gives an int, the configuration that they leave is one to
  -- run with where the one before was: every period is at least its minimum, and so is every
  -- time to live and the refresh time, if it is no NaN that `atof` gave; the flow limit is at least
  -- 1024 and an int, and the texts fit their buffers.
  pub parse_args-IsConfig :
      (args : List Bytes) (cfg : AppConfig)
      → ((s : Bytes) → Below (2 ^ 31) (atoi s))
      → IsConfig atof cfg
      → IsConfig atof (config_parse_args atoi atol atof args cfg).0
  unfolding config_parse_args
  parse_args-IsConfig [] cfg b v = v
  parse_args-IsConfig (arg ∷ []) cfg b v =
      if-IsConfig (is_help arg) _ _ v
        (flagged-IsConfig (flag_option arg) cfg (λ c. (c, parsed)) v (λ c w. w))
  parse_args-IsConfig (arg ∷ s ∷ rest) cfg b v =
      if-IsConfig (is_help arg) _ _ v (elim (Option-cases (value_option arg)) [
        | inl none_named ↦ rw none_named (
            flagged-IsConfig (flag_option arg) cfg (config_parse_args atoi atol atof (s ∷ rest)) v
              (λ c w. parse_args-IsConfig (s ∷ rest) c b w))
        | inr (o, named) ↦ rw named (
            parse_args-IsConfig rest (set_value atoi atol atof o s cfg) b
              (set_value-IsConfig o s cfg (b s) v))
      ])
