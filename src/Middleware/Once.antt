-- ===== src/Middleware/Once.antt =====
-- src/middleware.rs and src/replay.rs together: a signature that was accepted, presented again.
use simply_firewall.Prelude.{
  ℕ, ◌≡◌, ◌<◌, ◌+◌, refl, sym, subst, Bool, true, false, Option, List, [], ◌∷◌, Text,
}
use simply_firewall.Error.{Result, ok, err, unauthorized, signature_used}
use simply_firewall.Outside.{Outside}
use simply_firewall.Replay.{Instant, SignatureId, ReplayGuard, check_and_record}
use simply_firewall.Replay.Held.{
  IsHeld, check_and_record-IsHeld, check_and_record-refuses, check_and_record-accepts,
}
use simply_firewall.ClientIp.{Addresses, resolve_client_ip}
use simply_firewall.MasterPin.{Cell}
use simply_firewall.Middleware.{
  Moment, Incoming, Shared, Verified, Accepted, verify, admit, single_use, after_verify,
  auth_middleware,
}

module _ (o : Outside) (limit : ℕ) (a : Addresses) (parse_network : Text → Option a.Network) where
  -- The state after a sequence of requests.
  unfoldable pub state_after : List (Moment a × Incoming a) → Shared → Shared
  state_after [] s = s
  state_after ((m, r) ∷ rest) s = state_after rest (auth_middleware o limit a parse_network m r s).1

  abbrev pub AllBefore : Instant → List (Moment a × Incoming a) → Type 0
  AllBefore until [] = Unit
  AllBefore until ((m, r) ∷ rest) = (m.instant < until) × AllBefore until rest

  abbrev pub id_of : Verified → SignatureId
  id_of v = record { key_id = v.key.id; digest = v.digest }

  module _ (m : Moment a) (r : Incoming a) (ip : a.IpAddr) where
    admit-replay :
        (v : Verified) (s : Shared) (x : Result (Unit {0}))
        → (admit a parse_network m v ip s x).1.replay ≡ s.replay
    unfolding admit
    admit-replay v s (err e) = refl
    admit-replay v s (ok u) = refl

    single_use-replay :
        (v : Verified) (pin : Cell) (x : Bool × ReplayGuard)
        → (single_use a parse_network m v ip pin x).1.replay ≡ x.1
    unfolding single_use
    single_use-replay v pin (false, g) = refl
    single_use-replay v pin (true, g) = admit-replay v _ _

    -- Every signature verified passes through the guard, and nothing else touches it.
    after_verify-IsHeld :
        (until : Instant) (id : SignatureId) (s : Shared) (x : Result Verified)
        → m.instant < until
        → IsHeld until id s.replay
        → IsHeld until id (after_verify a parse_network m ip s x).1.replay
    unfolding after_verify
    after_verify-IsHeld until id s (err e) lt held = held
    after_verify-IsHeld until id s (ok v) lt held =
        rw (single_use-replay v s.pin (check_and_record m.instant (id_of v) s.replay))
          (check_and_record-IsHeld m.instant until id lt (id_of v) s.replay held)

    single_use-accepted :
        (v : Verified) (pin : Cell) (x : Bool × ReplayGuard) (accepted : Accepted a)
        → (single_use a parse_network m v ip pin x).0 ≡ ok accepted
        → x.0 ≡ true
    unfolding single_use
    single_use-accepted v pin (false, g) accepted h = absurd cc
    single_use-accepted v pin (true, g) accepted h = refl

    single_use-refused :
        (v : Verified) (pin : Cell) (x : Bool × ReplayGuard)
        → x.0 ≡ false
        → (single_use a parse_network m v ip pin x).0 ≡ err (unauthorized signature_used)
    unfolding single_use
    single_use-refused v pin (false, g) h = refl
    single_use-refused v pin (true, g) h = absurd cc

    after_verify-accepted :
        (s : Shared) (v : Verified) (accepted : Accepted a)
        → (after_verify a parse_network m ip s (ok v)).0 ≡ ok accepted
        → IsHeld
            (m.instant + s.replay.window)
            (id_of v)
            (after_verify a parse_network m ip s (ok v)).1.replay
    unfolding after_verify
    after_verify-accepted s v accepted h =
        let call = check_and_record m.instant (id_of v) s.replay in
        rw (single_use-replay v s.pin call) (
          check_and_record-accepts m.instant (id_of v) s.replay
            (single_use-accepted v s.pin call accepted h))

    after_verify-refused :
        (until : Instant) (id : SignatureId) (s : Shared) (v : Verified)
        → m.instant < until
        → IsHeld until id s.replay
        → id_of v ≡ id
        → (after_verify a parse_network m ip s (ok v)).0 ≡ err (unauthorized signature_used)
    unfolding after_verify
    after_verify-refused until id s v lt held same = single_use-refused v s.pin _ (
        check_and_record-refuses m.instant until (id_of v) lt s.replay
          (subst (λ j. IsHeld until j s.replay) (sym same) held))

  state_after-IsHeld :
      (until : Instant) (id : SignatureId) (calls : List (Moment a × Incoming a)) (s : Shared)
      → AllBefore until calls
      → IsHeld until id s.replay
      → IsHeld until id (state_after calls s).replay
  unfolding state_after auth_middleware
  state_after-IsHeld until id [] s b held = held
  state_after-IsHeld until id ((m, r) ∷ calls) s (lt, b) held =
      state_after-IsHeld until id calls _ b
        (after_verify-IsHeld m r _ until id s (verify o limit m r) lt held)

  -- Once a request has been let through, whatever requests come in between, another request that
  -- verifies with the same key and the same digest within the window of the guard, counted from when
  -- the first was let through, is refused.
  pub auth_middleware-once :
      (m m' : Moment a) (r r' : Incoming a) (between : List (Moment a × Incoming a)) (s : Shared)
      → (v v' : Verified) (accepted : Accepted a) → verify o limit m r ≡ ok v
      → (auth_middleware o limit a parse_network m r s).0 ≡ ok accepted
      → AllBefore (m.instant + s.replay.window) between
      → m'.instant < m.instant + s.replay.window
      → verify o limit m' r' ≡ ok v'
      → id_of v' ≡ id_of v
      → let later = state_after between (auth_middleware o limit a parse_network m r s).1 in
        (auth_middleware o limit a parse_network m' r' later).0 ≡ err (unauthorized signature_used)
  unfolding auth_middleware
  auth_middleware-once m m' r r' between s v v' accepted q h b lt q' same =
      let ip = resolve_client_ip a r.peer r.forwarding m.trusted in
      let next = (auth_middleware o limit a parse_network m r s).1 in
      let first =
        subst
          (λ x.
            (after_verify a parse_network m ip s x).0 ≡ ok accepted
            → IsHeld (m.instant + s.replay.window) (id_of v)
                (after_verify a parse_network m ip s x).1.replay)
          (sym q) (after_verify-accepted m r ip s v accepted) h in
      let held = state_after-IsHeld _ (id_of v) between next b first in
      rw q' (
        after_verify-refused m' r' (resolve_client_ip a r'.peer r'.forwarding m'.trusted) _
          (id_of v) (state_after between next) v' lt held same)
