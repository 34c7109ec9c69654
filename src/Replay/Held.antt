-- ===== src/Replay/Held.antt =====
-- src/replay.rs: how long an accepted signature stays in the map.
use simply_firewall.Prelude.{
  ◌≡◌, ◌≤◌, ◌<◌, ◌+◌, ap, subst, true, false, not, ◌&&◌, some, List, [], ◌∷◌, keep, arith,
  Bool-cases, inl, inr,
}
use simply_firewall.Replay.{
  Instant, SignatureId, Entry, ReplayGuard, get, is_live, prune_if_due, record_if_new,
  check_and_record, routine_due, capacity_due,
}
use simply_firewall.Replay.Table.{finds_live, get-insert, same_id_iff}

-- The map has the signature, with an expiry that is not before `until`.
pub record IsHeld (until : Instant) (id : SignatureId) (g : ReplayGuard) : Type 0 where
  pub expiry : Instant
  pub found : get id g.seen ≡ some expiry
  pub late : until ≤ expiry

get-keep-live :
    (now t : Instant) (id : SignatureId) (es : List Entry)
    → get id es ≡ some t
    → now < t
    → get id (keep (is_live now) es) ≡ some t
unfolding get
get-keep-live now t id [] h lt = absurd cc
get-keep-live now t id (e ∷ es) h lt = ground (arith, get-keep-live now t id es)

module _ (now until : Instant) (id : SignatureId) (lt : now < until) where
  prune-IsHeld : (g : ReplayGuard) → IsHeld until id g → IsHeld until id (prune_if_due now g)
  unfolding prune_if_due
  prune-IsHeld g held = elim (Bool-cases (not (routine_due now g) && not (capacity_due now g))) [
    | inl e ↦ simp e held
    | inr e ↦ rw e (record {
      expiry = held.expiry;
      found = get-keep-live now held.expiry id g.seen held.found (omega (arith, held.late));
      late = held.late;
    })
  ]

  record-IsHeld :
      (j : SignatureId) (g : ReplayGuard)
      → IsHeld until id g
      → IsHeld until id (record_if_new now j g).1
  unfolding record_if_new
  record-IsHeld j g held = elim (Bool-cases (finds_live now j g.seen)) [
    | inl e ↦ simp e held
    | inr e ↦ simp e (record {
      expiry = held.expiry;
      found = ground (
        arith,
        get-insert j id (now + g.window) g.seen,
        same_id_iff id j,
        held.found,
        held.late,
        λ (q : id ≡ j). ap (λ i. get i g.seen) q,
      );
      late = held.late;
    })
  ]

  held_is_refused : (g : ReplayGuard) → IsHeld until id g → (record_if_new now id g).0 ≡ false
  unfolding record_if_new
  held_is_refused g held = ground (arith, held.found, held.late)

  pub check_and_record-IsHeld :
      (j : SignatureId) (g : ReplayGuard)
      → IsHeld until id g
      → IsHeld until id (check_and_record now j g).1
  unfolding check_and_record
  check_and_record-IsHeld j g held = record-IsHeld j _ (prune-IsHeld g held)

  pub check_and_record-refuses :
      (g : ReplayGuard) → IsHeld until id g → (check_and_record now id g).0 ≡ false
  unfolding check_and_record
  check_and_record-refuses g held = held_is_refused _ (prune-IsHeld g held)

module _ (now : Instant) (id : SignatureId) (g : ReplayGuard) where
  pub prune-window : (prune_if_due now g).window ≡ g.window
  unfolding prune_if_due
  prune-window = ground arith

  record-accepts :
      (record_if_new now id g).0 ≡ true → IsHeld (now + g.window) id (record_if_new now id g).1
  unfolding record_if_new
  record-accepts h = elim (Bool-cases (finds_live now id g.seen)) [
    | inl e ↦ absurd ground (arith, e)
    | inr e ↦ simp e (record {
      expiry = now + g.window;
      found = ground (arith, get-insert id id (now + g.window) g.seen, same_id_iff id id);
      late = omega arith;
    })
  ]

module _ (now : Instant) (id : SignatureId) (g : ReplayGuard) where
  pub check_and_record-accepts :
      (check_and_record now id g).0 ≡ true
      → IsHeld (now + g.window) id (check_and_record now id g).1
  unfolding check_and_record
  check_and_record-accepts h =
      subst (λ w. IsHeld (now + w) id (record_if_new now id (prune_if_due now g)).1)
        (prune-window now id g) (record-accepts now id (prune_if_due now g) h)
