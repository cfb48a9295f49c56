-- ===== src/Vpn/System.antt =====
-- internal/vpn/system_metrics.go. A `uint64` is a number below 2 ^ 64, whose arithmetic wraps around.
pub mod Ticks
use vpn_backend.Base.{
  ℕ, ◌+◌, ◌-◌, ◌%◌, Bool, true, false, Option, none, some, List, [], ◌∷◌, String, str_eq, length,
  ltb, ◌==◌, ◌||◌, not, if◌then◌else◌,
}
use vpn_backend.Base.Int.{full_range}
use vpn_backend.Errors.{Error, message, wrapped}
use vpn_backend.Action.{Result, ok, err, Action, pure, fail, lift, ◌>>=◌, ◌>>◌, on_error}
use vpn_backend.Text.{fields, trim_space, before_colon, lookup}

-- The floating-point numbers, as far as they are computed with.
pub record Floats (F : Type 0) : Type 0 where
  pub of_uint64 : ℕ → F
  pub sub : F → F → F
  pub mul : F → F → F
  pub div : F → F → F
  pub one : F
  pub hundred : F
  pub zero : F
  pub at_most_zero : F → Bool
  pub parse : String → Result F

-- The host. `stat_line` is the first line of /proc/stat, if there is one, and `meminfo` are the lines
-- of /proc/meminfo; `sleep` is `time.Sleep` for 100 ms, and `unit_state` is what `systemctl is-active`
-- prints.
pub record Host (W : Type 0) : Type 0 where
  pub is_linux : Bool
  pub stat_line : Action W (Option String)
  pub meminfo : Action W (List String)
  pub uptime : Action W String
  pub sleep : W → W
  pub unit_state : String → Action W String
  pub parse_uint : String → Result ℕ

pub record SystemMetrics (F : Type 0) : Type 0 where
  pub cpu_usage_percent : F
  pub memory_used_pct : F
  pub disk_used_pct : F
  pub uptime_seconds : F

-- The sum that the loops over the samples compute.
unfoldable pub total_ticks : List ℕ → ℕ → ℕ
total_ticks [] total = total
total_ticks (v ∷ vs) total = total_ticks vs ((total + v) % full_range)

-- `a - b` of two `uint64`
abbrev pub sub_uint64 : ℕ → ℕ → ℕ
sub_uint64 a b = (a + full_range - b) % full_range

-- `values[3]`; a sample has four values at least.
abbrev pub idle : List ℕ → ℕ
idle (_ ∷ _ ∷ _ ∷ v ∷ _) = v
idle _ = 0

abbrev pub or_zero : Option ℕ → ℕ
or_zero none = 0
or_zero (some n) = n

module _ {W : Type 0} (host : Host W) where
  unfoldable pub parse_values : List String → Result (List ℕ)
  parse_values [] = ok []
  parse_values (f ∷ fs) =
      let rest = parse_values fs in
      elim (host.parse_uint f) [
        | err e ↦ err e
        | ok v ↦ elim rest [ err e ↦ err e | ok vs ↦ ok (v ∷ vs) ]
      ]

  -- `len(fields) < 5 || fields[0] != "cpu"`, and the values after the first field
  unfoldable pub sample_of : List String → Result (List ℕ)
  unfolding parse_values
  sample_of [] = err (message "unexpected /proc/stat format")
  sample_of (name ∷ rest) =
      if ltb (length rest) 4 || not (str_eq name "cpu")
      then err (message "unexpected /proc/stat format")
      else parse_values rest

  abbrev line_sample : Option String → Result (List ℕ)
  line_sample none = err (message "empty /proc/stat")
  line_sample (some line) = sample_of (fields line)

  -- `sample` of `readCPUUsage`
  unfoldable pub sample : Action W (List ℕ)
  sample = do line ← host.stat_line; lift (line_sample line)

module _ {W F : Type 0} (host : Host W) (float : Floats F) where
  unfoldable pub cpu_usage : (before after : List ℕ) → F
  unfolding total_ticks
  cpu_usage before after =
      let total_delta = float.of_uint64 (sub_uint64 (total_ticks after 0) (total_ticks before 0)) in
      let idle_delta = float.of_uint64 (sub_uint64 (idle after) (idle before)) in
      if float.at_most_zero total_delta
      then float.zero
      else float.mul (float.sub float.one (float.div idle_delta total_delta)) float.hundred

  unfoldable pub read_cpu_usage : Action W F
  unfolding sample cpu_usage
  read_cpu_usage = do
    before ← sample host
    λ w. (ok tt, host.sleep w)
    after ← sample host
    pure (cpu_usage before after)

  -- The map of `readMemoryUsage`: a later line takes the place of an earlier one of the same key.
  abbrev add_value : List String → List (String × ℕ) → List (String × ℕ)
  add_value (name ∷ value ∷ _) values = elim (host.parse_uint value) [
    | ok v ↦ (before_colon name, v) ∷ values
    | err e ↦ values
  ]
  add_value _ values = values

  unfoldable pub collect_values : List String → List (String × ℕ) → List (String × ℕ)
  collect_values [] values = values
  collect_values (line ∷ lines) values = collect_values lines (add_value (fields line) values)

  unfoldable pub memory_usage : List (String × ℕ) → Result F
  memory_usage values =
      let total = or_zero (lookup "MemTotal" values) in
      let available = or_zero (lookup "MemAvailable" values) in
      if total == 0
      then err (message "could not read MemTotal")
      else ok (
          float.mul
            (float.div (float.of_uint64 (sub_uint64 total available)) (float.of_uint64 total))
            float.hundred)

  unfoldable pub read_memory_usage : Action W F
  unfolding collect_values memory_usage
  read_memory_usage = do lines ← host.meminfo; lift (memory_usage (collect_values lines []))

  abbrev first_number : List String → Result F
  first_number [] = err (message "unexpected /proc/uptime format")
  first_number (f ∷ fs) = float.parse f

  unfoldable pub read_uptime : Action W F
  read_uptime = do text ← host.uptime; lift (first_number (fields text))

  unfoldable pub read_system_metrics : Action W (SystemMetrics F)
  unfolding read_cpu_usage read_memory_usage read_uptime
  read_system_metrics =
      if not host.is_linux
      then pure (record {
        cpu_usage_percent = float.zero;
        memory_used_pct = float.zero;
        disk_used_pct = float.zero;
        uptime_seconds = float.zero;
      })
      else do
        cpu ← on_error (wrapped "read cpu usage") read_cpu_usage
        mem ← on_error (wrapped "read memory usage") read_memory_usage
        uptime ← on_error (wrapped "read uptime") read_uptime
        pure (record {
          cpu_usage_percent = cpu;
          memory_used_pct = mem;
          disk_used_pct = float.zero;
          uptime_seconds = uptime;
        })

module _ {W : Type 0} (host : Host W) where
  unfoldable pub is_service_active : String → W → Bool × W
  is_service_active unit w =
      if not host.is_linux
      then (false, w)
      else let (out, w') = host.unit_state unit w in
        elim out [ err e ↦ (false, w') | ok text ↦ (str_eq (trim_space text) "active", w') ]
