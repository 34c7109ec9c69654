-- ===== src/Config.antt =====
-- src/config.rs: the settings read from the environment. A variable is a text or missing, as
-- `std::env::var` has it, and an unset `OnceLock` is filled by the first reading, so each setting is
-- a function of the variables. A `usize` has 64 bits; a text is its UTF-8 bytes.
pub mod Bounds
pub mod Proxies
use simply_firewall.Prelude.{
  ℕ, ◌+◌, ◌-◌, ◌*◌, ◌^◌, ◌%◌, Bool, true, false, not, ◌&&◌, ◌||◌, Option, none, some, List, [], ◌∷◌,
  Text, codes, trim, split, keep, map, all, any, is_empty, length, if◌then◌else◌, ltb, leb, ◌==◌,
  parse_unsigned, unwrap_or,
}

abbrev pub Env : Type 0
Env = (name : Text) → Option Text

abbrev pub u16_max : ℕ
u16_max = 2 ^ 16 - 1

abbrev pub u32_max : ℕ
u32_max = 2 ^ 32 - 1

abbrev pub u64_max : ℕ
u64_max = 2 ^ 64 - 1

abbrev pub max_of : ℕ → ℕ → ℕ
max_of a b = if ltb a b then b else a

abbrev pub min_of : ℕ → ℕ → ℕ
min_of a b = if ltb b a then b else a

read_number : (greatest default : ℕ) → Option Text → ℕ
read_number greatest default none = default
read_number greatest default (some raw) = unwrap_or (parse_unsigned greatest (trim raw)) default

-- `numeric_env::<T>`, at the greatest value of `T`.
unfoldable pub numeric_env : (greatest : ℕ) → Env → (name : Text) → (default : ℕ) → ℕ
unfolding read_number
numeric_env greatest env name default = read_number greatest default (env name)

module _ (env : Env) where
  unfoldable pub webhook_workers : ℕ
  unfolding numeric_env
  webhook_workers = max_of (numeric_env u64_max env (codes "WEBHOOK_WORKERS") 4) 1

  unfoldable pub webhook_dispatch_interval : ℕ
  unfolding numeric_env
  webhook_dispatch_interval = numeric_env u64_max env (codes "WEBHOOK_DISPATCH_INTERVAL_MS") 50

  unfoldable pub webhook_queue_capacity : ℕ
  unfolding numeric_env
  webhook_queue_capacity = max_of (numeric_env u64_max env (codes "WEBHOOK_QUEUE_CAPACITY") 4096) 1

  unfoldable pub webhook_max_retries : ℕ
  unfolding numeric_env
  webhook_max_retries = min_of (numeric_env u32_max env (codes "WEBHOOK_MAX_RETRIES") 3) 10

  unfoldable pub webhook_retry_backoff_ms : ℕ
  unfolding numeric_env
  webhook_retry_backoff_ms =
      max_of (numeric_env u64_max env (codes "WEBHOOK_RETRY_BACKOFF_MS") 1000) 1

  abbrev pub max_body_mib : ℕ
  max_body_mib = max_of (numeric_env u64_max env (codes "MAX_BODY_SIZE_MIB") 10) 1

  -- The product wraps.
  unfoldable pub max_body_bytes : ℕ
  unfolding numeric_env
  max_body_bytes = max_body_mib * 1024 % 2 ^ 64 * 1024 % 2 ^ 64

unfoldable pub clamp_pool_max : ℕ → ℕ
clamp_pool_max requested = max_of requested 1

unfoldable pub clamp_pool_min : (requested max : ℕ) → ℕ
clamp_pool_min requested max = min_of requested max

unfoldable pub clamp_acquire_timeout_secs : ℕ → ℕ
clamp_acquire_timeout_secs requested = max_of requested 1

abbrev pub sqlite_file_max_connections_ceiling : ℕ
sqlite_file_max_connections_ceiling = 10

unfoldable pub clamp_sqlite_file_max : ℕ → ℕ
unfolding clamp_pool_max
clamp_sqlite_file_max requested =
    min_of (clamp_pool_max requested) sqlite_file_max_connections_ceiling

module _ (env : Env) where
  unfoldable pub database_max_connections : ℕ
  unfolding numeric_env clamp_pool_max
  database_max_connections =
      clamp_pool_max (numeric_env u32_max env (codes "DATABASE_MAX_CONNECTIONS") 50)

  unfoldable pub database_min_connections : ℕ
  unfolding numeric_env clamp_pool_min database_max_connections
  database_min_connections =
      clamp_pool_min (numeric_env u32_max env (codes "DATABASE_MIN_CONNECTIONS") 10)
        database_max_connections

  unfoldable pub database_idle_timeout : ℕ
  unfolding numeric_env
  database_idle_timeout = numeric_env u64_max env (codes "DATABASE_IDLE_TIMEOUT_SECS") 600

  unfoldable pub database_acquire_timeout : ℕ
  unfolding numeric_env clamp_acquire_timeout_secs
  database_acquire_timeout =
      clamp_acquire_timeout_secs
        (numeric_env u64_max env (codes "DATABASE_ACQUIRE_TIMEOUT_SECS") 10)

  unfoldable pub sqlite_file_max_connections : ℕ
  unfolding numeric_env clamp_sqlite_file_max
  sqlite_file_max_connections =
      clamp_sqlite_file_max (numeric_env u32_max env (codes "DATABASE_MAX_CONNECTIONS") 10)

  unfoldable pub sqlite_file_min_connections : ℕ
  unfolding numeric_env clamp_pool_min sqlite_file_max_connections
  sqlite_file_min_connections =
      clamp_pool_min (numeric_env u32_max env (codes "DATABASE_MIN_CONNECTIONS") 2)
        sqlite_file_max_connections

abbrev pub master_key_hex_len : ℕ
master_key_hex_len = 64

abbrev pub is_ascii_digit : ℕ → Bool
is_ascii_digit c = leb b'0' c && leb c b'9'

abbrev pub is_ascii_hexdigit : ℕ → Bool
is_ascii_hexdigit c = is_ascii_digit c || (leb b'a' c && leb c b'f') || (leb b'A' c && leb c b'F')

abbrev pub is_ascii_alphanumeric : ℕ → Bool
is_ascii_alphanumeric c =
    is_ascii_digit c || (leb b'a' c && leb c b'z') || (leb b'A' c && leb c b'Z')

-- The error, less the count of characters, which only its message prints.
pub data MasterKeyCheck : Type 0 where
  valid_master_key : MasterKeyCheck
  invalid_initial_master_key : (is_hex : Bool) → MasterKeyCheck

unfoldable pub validate_initial_master_key : Text → MasterKeyCheck
validate_initial_master_key raw =
    if length raw == master_key_hex_len && all is_ascii_hexdigit raw
    then valid_master_key
    else invalid_initial_master_key (all is_ascii_hexdigit raw)
