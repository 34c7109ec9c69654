-- ===== src/Replay.antt =====
-- src/replay.rs: the guard against a second use of a signature. An `Instant` and a `Duration` count
-- nanoseconds, and the clock's reading is an argument of each call. A `HashMap` is a list of
-- entries with distinct keys. No thread panics with a lock in hand, so no mutex is ever poisoned.
pub mod Table
pub mod Reference
pub mod Held
use simply_firewall.Prelude.{
  ℕ, ◌+◌, ◌*◌, ◌/◌, Bool, true, false, not, ◌&&◌, ◌||◌, Option, none, some, List, [], ◌∷◌, Text,
  text_eq, if◌then◌else◌, is_some_and, ltb, leb, ◌==◌, keep, length,
}
use simply_firewall.Entities.{Uuid}

abbrev pub Instant : Type 0
Instant = ℕ

abbrev pub prune_interval_divisor : ℕ
prune_interval_divisor = 4

abbrev pub capacity_backoff_divisor : ℕ
capacity_backoff_divisor = 16

abbrev pub max_tracked_signatures : ℕ
max_tracked_signatures = 100000

pub record SignatureId : Type 0 where
  pub key_id : Uuid
  pub digest : Text

pub record Entry : Type 0 where
  pub id : SignatureId
  pub expires_at : Instant

pub record ReplayGuard : Type 0 where
  pub seen : List Entry
  pub next : Instant
  pub next_capacity : Instant
  pub window : ℕ
  pub prune_interval : ℕ
  pub capacity_backoff : ℕ

unfoldable pub same_id : SignatureId → SignatureId → Bool
same_id a b = a.key_id == b.key_id && text_eq a.digest b.digest

-- `HashMap::get` and `HashMap::insert`
unfoldable pub get : SignatureId → List Entry → Option Instant
get id [] = none
get id (e ∷ es) = let rest = get id es in if same_id id e.id then some e.expires_at else rest

unfoldable pub insert : SignatureId → Instant → List Entry → List Entry
insert id t es = record { id = id; expires_at = t } ∷ keep (λ e. not (same_id id e.id)) es

abbrev pub clamp : (low high n : ℕ) → ℕ
clamp low high n = if ltb n low then low else if ltb high n then high else n

abbrev pub seconds : ℕ → ℕ
seconds n = n * 1000000000

-- A negative window is clamped as 0 is.
unfoldable pub new : (window_seconds : ℕ) → (now : Instant) → ReplayGuard
new window_seconds now =
    let window = seconds (clamp 1 3600 window_seconds) in
    record {
      seen = [];
      next = now + window / prune_interval_divisor;
      next_capacity = now;
      window = window;
      prune_interval = window / prune_interval_divisor;
      capacity_backoff = window / capacity_backoff_divisor;
    }

abbrev pub is_live : Instant → Entry → Bool
is_live now e = ltb now e.expires_at

abbrev pub routine_due : Instant → ReplayGuard → Bool
routine_due now g = leb g.next now

abbrev pub capacity_due : Instant → ReplayGuard → Bool
capacity_due now g = leb max_tracked_signatures (length g.seen) && leb g.next_capacity now

unfoldable pub prune_if_due : Instant → ReplayGuard → ReplayGuard
prune_if_due now g = if not (routine_due now g) && not (capacity_due now g) then g else record g {
  seen = keep (is_live now) g.seen;
  next = now + g.prune_interval;
  next_capacity = if capacity_due now g then now + g.capacity_backoff else g.next_capacity;
}

-- The part below the sweep.
unfoldable pub record_if_new : Instant → SignatureId → ReplayGuard → Bool × ReplayGuard
record_if_new now id g =
    if is_some_and (get id g.seen) (λ expires_at. ltb now expires_at)
    then (false, g)
    else (true, record g { seen = insert id (now + g.window) g.seen })

unfoldable pub check_and_record : Instant → SignatureId → ReplayGuard → Bool × ReplayGuard
unfolding prune_if_due record_if_new
check_and_record now id g = record_if_new now id (prune_if_due now g)

-- The answers to a sequence of calls.
unfoldable pub answers : List (Instant × SignatureId) → ReplayGuard → List Bool
unfolding check_and_record
answers [] g = []
answers ((now, id) ∷ calls) g =
    let (answer, g') = check_and_record now id g in answer ∷ answers calls g'
