-- ===== src/Config.antt =====
-- src/config.c: the defaults and the argument loop. `atoi`, `atol` and `atof` are arguments.
pub mod Valid
use if_flow.Base.{
  ℕ, ◌+◌, ◌*◌, ◌%◌, Bool, true, false, ◌||◌, Option, none, some, List, [], ◌∷◌, Bytes, ℤ, pos,
  negsuc, codes, safe_copy, str_eq, ltb, if◌then◌else◌,
}
use if_flow.Flow.{second, u64_mod}

-- A `double` in seconds: a finite one is in nanoseconds, as all times are.
pub data Double : Type 0 where
  nan infinity minus_infinity : Double
  finite : ℤ → Double

pub record AppConfig : Type 0 where
  pub interface : Bytes
  pub minute_flush_sec : ℤ
  pub stream_flush_sec : ℤ
  pub idle_timeout_sec : ℤ
  pub max_flows : ℤ
  pub selftest : Bool
  pub no_stdout : Bool
  pub include_identity_fields : Bool
  pub use_ebpf : Bool
  pub use_datapath : Bool
  pub resolver_ttl_sec : Double
  pub resolver_refresh_sec : Double
  pub ebpf_ttl_sec : Double
  pub datapath_ttl_sec : Double
  pub bpf_object : Bytes
  pub json_path : Bytes
  pub json_max_file_size_bytes : ℕ

unfoldable pub config_set_defaults : AppConfig
config_set_defaults = record {
  interface = codes "any";
  minute_flush_sec = pos 60;
  stream_flush_sec = pos 1;
  idle_timeout_sec = pos 120;
  max_flows = pos 200_000;
  selftest = false;
  no_stdout = false;
  include_identity_fields = true;
  use_ebpf = true;
  use_datapath = true;
  resolver_ttl_sec = finite (pos (20 * second));
  resolver_refresh_sec = finite (pos 500_000_000);
  ebpf_ttl_sec = finite (pos (20 * second));
  datapath_ttl_sec = finite (pos (5 * second));
  bpf_object = codes "bpf/if_flow.bpf.o";
  json_path = codes "if_flow.jsonl";
  json_max_file_size_bytes = 0;
}

-- `if (z < low) z = other;`
unfoldable pub at_least : ℕ → ℕ → ℤ → ℤ
at_least low other (pos n) = if ltb n low then pos other else pos n
at_least low other (negsuc n) = pos other

-- The same test of a `double`: no comparison with a NaN holds.
unfoldable pub at_least_double : ℕ → ℕ → Double → Double
unfolding at_least
at_least_double low other nan = nan
at_least_double low other infinity = infinity
at_least_double low other minus_infinity = finite (pos other)
at_least_double low other (finite z) = finite (at_least low other z)

-- `(size_t)mb * 1024U * 1024U`, where `mb` is raised to 0
unfoldable pub mebibytes : ℤ → ℕ
mebibytes (pos mb) = mb * 1024 % u64_mod * 1024 % u64_mod
mebibytes (negsuc n) = 0

-- The options with a value, and the flags.
pub data ValueOption : Type 0 where
  opt_interface opt_flush_sec opt_stream_flush_sec opt_idle_timeout_sec opt_max_flows
        opt_ebpf_ttl_sec opt_datapath_ttl_sec opt_bpf_object opt_resolver_ttl_sec
        opt_resolver_refresh_sec opt_json_path opt_json_max_file_size_mb :
      ValueOption

pub data FlagOption : Type 0 where
  opt_ebpf opt_no_ebpf opt_datapath opt_no_datapath opt_identity_fields opt_no_identity_fields
        opt_no_stdout opt_selftest :
      FlagOption

unfoldable pub is_help : Bytes → Bool
is_help arg = str_eq arg (codes "-h") || str_eq arg (codes "--help")

unfoldable pub value_option : Bytes → Option ValueOption
value_option arg =
    if str_eq arg (codes "-i") || str_eq arg (codes "--interface")
    then some opt_interface
    else if str_eq arg (codes "--flush-sec")
    then some opt_flush_sec
    else if str_eq arg (codes "--stream-flush-sec")
    then some opt_stream_flush_sec
    else if str_eq arg (codes "--idle-timeout-sec")
    then some opt_idle_timeout_sec
    else if str_eq arg (codes "--max-flows")
    then some opt_max_flows
    else if str_eq arg (codes "--ebpf-ttl-sec")
    then some opt_ebpf_ttl_sec
    else if str_eq arg (codes "--datapath-ttl-sec")
    then some opt_datapath_ttl_sec
    else if str_eq arg (codes "--bpf-object")
    then some opt_bpf_object
    else if str_eq arg (codes "--resolver-ttl-sec")
    then some opt_resolver_ttl_sec
    else if str_eq arg (codes "--resolver-refresh-sec")
    then some opt_resolver_refresh_sec
    else if str_eq arg (codes "--json-path")
    then some opt_json_path
    else if str_eq arg (codes "--json-max-file-size-mb")
    then some opt_json_max_file_size_mb
    else none

unfoldable pub flag_option : Bytes → Option FlagOption
flag_option arg =
    if str_eq arg (codes "--ebpf")
    then some opt_ebpf
    else if str_eq arg (codes "--no-ebpf")
    then some opt_no_ebpf
    else if str_eq arg (codes "--datapath")
    then some opt_datapath
    else if str_eq arg (codes "--no-datapath")
    then some opt_no_datapath
    else if str_eq arg (codes "--identity-fields")
    then some opt_identity_fields
    else if str_eq arg (codes "--no-identity-fields")
    then some opt_no_identity_fields
    else if str_eq arg (codes "--no-stdout")
    then some opt_no_stdout
    else if str_eq arg (codes "--selftest")
    then some opt_selftest
    else none

pub set_flag : FlagOption → AppConfig → AppConfig
set_flag opt_ebpf cfg = record cfg { use_ebpf = true }
set_flag opt_no_ebpf cfg = record cfg { use_ebpf = false }
set_flag opt_datapath cfg = record cfg { use_datapath = true }
set_flag opt_no_datapath cfg = record cfg { use_datapath = false }
set_flag opt_identity_fields cfg = record cfg { include_identity_fields = true }
set_flag opt_no_identity_fields cfg = record cfg { include_identity_fields = false }
set_flag opt_no_stdout cfg = record cfg { no_stdout = true }
set_flag opt_selftest cfg = record cfg { selftest = true }

-- The return values 1, -1 and 0.
pub data Parsed : Type 0 where
  helped unknown_option parsed : Parsed

module _ (atoi atol : Bytes → ℤ) (atof : Bytes → Double) where
  pub set_value : ValueOption → Bytes → AppConfig → AppConfig
  unfolding at_least at_least_double mebibytes
  set_value opt_interface v cfg = record cfg { interface = safe_copy [] 64 (some v) }
  set_value opt_flush_sec v cfg = record cfg { minute_flush_sec = at_least 1 60 (atoi v) }
  set_value opt_stream_flush_sec v cfg = record cfg { stream_flush_sec = at_least 1 1 (atoi v) }
  set_value opt_idle_timeout_sec v cfg = record cfg { idle_timeout_sec = at_least 1 120 (atoi v) }
  set_value opt_max_flows v cfg = record cfg { max_flows = at_least 1024 1024 (atoi v) }
  set_value opt_ebpf_ttl_sec v cfg = record cfg {
    ebpf_ttl_sec = at_least_double second second (atof v);
  }
  set_value opt_datapath_ttl_sec v cfg = record cfg {
    datapath_ttl_sec = at_least_double second second (atof v);
  }
  set_value opt_bpf_object v cfg = record cfg { bpf_object = safe_copy [] 1024 (some v) }
  set_value opt_resolver_ttl_sec v cfg = record cfg {
    resolver_ttl_sec = at_least_double second second (atof v);
  }
  set_value opt_resolver_refresh_sec v cfg = record cfg {
    resolver_refresh_sec = at_least_double 50_000_000 50_000_000 (atof v);
  }
  set_value opt_json_path v cfg = record cfg { json_path = safe_copy [] 1024 (some v) }
  set_value opt_json_max_file_size_mb v cfg = record cfg {
    json_max_file_size_bytes = mebibytes (atol v);
  }

  abbrev flagged :
      Option FlagOption → AppConfig → (AppConfig → AppConfig × Parsed) → AppConfig × Parsed
  flagged none cfg go_on = (cfg, unknown_option)
  flagged (some f) cfg go_on = go_on (set_flag f cfg)

  -- The arguments behind the program's name. An option with a value that is the last argument is
  -- unknown.
  unfoldable pub config_parse_args : List Bytes → AppConfig → AppConfig × Parsed
  unfolding set_value set_flag
  config_parse_args [] cfg = (cfg, parsed)
  config_parse_args (arg ∷ []) cfg =
      if is_help arg then (cfg, helped) else flagged (flag_option arg) cfg (λ c. (c, parsed))
  config_parse_args (arg ∷ v ∷ rest) cfg =
      if is_help arg then (cfg, helped) else elim (value_option arg) [
        | some o ↦ config_parse_args rest (set_value o v cfg)
        | none ↦ flagged (flag_option arg) cfg (config_parse_args (v ∷ rest))
      ]
