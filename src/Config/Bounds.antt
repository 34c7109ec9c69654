-- ===== src/Config/Bounds.antt =====
-- src/config.rs: the ranges of the settings.
use simply_firewall.Prelude.{
  ℕ, ◌≤◌, ◌<◌, ◌≡◌, ◌*◌, ◌^◌, Option, none, some, Text, trim, parse_unsigned, arith, codes,
  WhereSome, parse_unsigned-le, unwrap_or,
}
use simply_firewall.Config.{
  Env, u64_max, numeric_env, read_number, webhook_workers, webhook_queue_capacity,
  webhook_max_retries, webhook_retry_backoff_ms, max_body_mib, max_body_bytes, clamp_pool_max,
  clamp_pool_min, clamp_sqlite_file_max, clamp_acquire_timeout_secs, database_max_connections,
  database_min_connections, database_acquire_timeout, sqlite_file_max_connections,
  sqlite_file_min_connections,
}

read_number-le :
    (greatest default : ℕ) (x : Option Text)
    → default ≤ greatest
    → read_number greatest default x ≤ greatest
unfolding read_number
read_number-le greatest default none h = h
read_number-le greatest default (some raw) h =
    go (parse_unsigned greatest (trim raw)) (parse_unsigned-le greatest (trim raw))
  where
    go : (x : Option ℕ) → WhereSome (λ n. n ≤ greatest) x → unwrap_or x default ≤ greatest
    go none k = h
    go (some n) k = k

pub numeric_env-le :
    (greatest : ℕ) (env : Env) (name : Text) (default : ℕ)
    → default ≤ greatest
    → numeric_env greatest env name default ≤ greatest
unfolding numeric_env
numeric_env-le greatest env name default h = read_number-le greatest default (env name) h

-- The settings that other parts rely on.
pub record AreInRange (env : Env) : Type 0 where
  pub workers : 1 ≤ webhook_workers env
  pub queue : 1 ≤ webhook_queue_capacity env
  pub retries : webhook_max_retries env ≤ 10
  pub backoff : (1 ≤ webhook_retry_backoff_ms env) × (webhook_retry_backoff_ms env ≤ u64_max)
  pub pool :
      (1 ≤ database_max_connections env)
      × (database_min_connections env ≤ database_max_connections env)
  pub sqlite_pool :
      (1 ≤ sqlite_file_max_connections env)
      × (sqlite_file_max_connections env ≤ 10)
      × (sqlite_file_min_connections env ≤ sqlite_file_max_connections env)
  pub acquire : 1 ≤ database_acquire_timeout env
  -- a body limit of at least a mebibyte, where the product does not wrap
  pub body :
      max_body_mib env < 2 ^ 44
      → (max_body_bytes env ≡ max_body_mib env * 2 ^ 20) × (2 ^ 20 ≤ max_body_bytes env)

-- Whatever the variables hold, numbers out of range or no numbers at all, there is a worker, a place
-- in the queue and a connection, at most ten retries, a backoff of 64 bits and at least a
-- millisecond, a lower bound of each pool within its upper bound, and at most ten connections to a
-- file of SQLite; and the body limit is what is asked for in mebibytes, at least one, if that is
-- under 2 ^ 44.
pub settings-AreInRange : (env : Env) → AreInRange env
unfolding webhook_workers webhook_queue_capacity webhook_max_retries webhook_retry_backoff_ms
    max_body_bytes database_max_connections database_min_connections database_acquire_timeout
    sqlite_file_max_connections sqlite_file_min_connections clamp_pool_max clamp_pool_min
    clamp_sqlite_file_max clamp_acquire_timeout_secs
settings-AreInRange env = record {
  workers = ground arith;
  queue = ground arith;
  retries = ground arith;
  backoff =
      ground
        (arith, numeric_env-le u64_max env (codes "WEBHOOK_RETRY_BACKOFF_MS") 1000 (omega arith));
  pool = ground arith;
  sqlite_pool = ground arith;
  acquire = ground arith;
  body = λ h. ground arith;
}
