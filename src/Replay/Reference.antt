-- ===== src/Replay/Reference.antt =====
-- src/replay.rs against a reference that has no map, no expiry times and no sweeps.
use simply_firewall.Prelude.{
  ℕ, ap, ◌∙◌, ◌≡◌, ◌≤◌, ◌+◌, refl, Bool, true, false, not, ◌&&◌, List, [], ◌∷◌, if◌then◌else◌, ltb,
  any, arith, Bool-cases, inl, inr,
}
use simply_firewall.Replay.{
  Instant, SignatureId, ReplayGuard, same_id, get, new, prune_if_due, record_if_new,
  check_and_record, answers, is_live, routine_due, capacity_due,
}
use simply_firewall.Replay.Table.{
  IsMap, IsMap-keep, IsMap-insert, finds_live, finds_live-sweep, get-insert, same_id_iff,
}

abbrev pub Call : Type 0
Call = Instant × SignatureId

-- A use of the signature within the window before `now`.
abbrev pub was_used : (window : ℕ) → Instant → SignatureId → List Call → Bool
was_used window now id = any (λ c. same_id id c.1 && ltb now (c.0 + window))

-- The answers, from the calls accepted so far.
unfoldable pub reference_answers : (window : ℕ) → (accepted calls : List Call) → List Bool
reference_answers window accepted [] = []
reference_answers window accepted ((now, id) ∷ calls) =
    let used = was_used window now id accepted in
    not used ∷ reference_answers window (if used then accepted else (now, id) ∷ accepted) calls

-- The clock does not go back.
abbrev pub IsAscending : Instant → List Call → Type 0
IsAscending now [] = Unit
IsAscending now (c ∷ calls) = (now ≤ c.0) × IsAscending c.0 calls

-- From `now` on, the map and the accepted calls say the same.
record Agrees (now : Instant) (g : ReplayGuard) (accepted : List Call) : Type 0 where
  is_map : IsMap g.seen
  same :
      (t : Instant) (id : SignatureId)
      → now ≤ t
      → finds_live t id g.seen ≡ was_used g.window t id accepted

was_used_before :
    (window : ℕ) (now t : Instant) (id : SignatureId) (accepted : List Call)
    → now ≤ t
    → was_used window now id accepted ≡ false
    → was_used window t id accepted ≡ false
was_used_before window now t id [] le h = refl
was_used_before window now t id (c ∷ cs) le h =
    ground (arith, was_used_before window now t id cs le)

module _ (now : Instant) (g : ReplayGuard) (accepted : List Call) where
  prune-Agrees : Agrees now g accepted → Agrees now (prune_if_due now g) accepted
  unfolding prune_if_due
  prune-Agrees a = elim (Bool-cases (not (routine_due now g) && not (capacity_due now g))) [
    | inl e ↦ rw e a
    | inr e ↦ rw e (record {
      is_map = IsMap-keep (is_live now) g.seen a.is_map;
      same = λ t id le. rw (finds_live-sweep now t id g.seen a.is_map le) (a.same t id le);
    })
  ]

  prune-window : (prune_if_due now g).window ≡ g.window
  unfolding prune_if_due
  prune-window = ground arith

  record-Agrees :
      (id : SignatureId)
      → Agrees now g accepted
      → (b : Bool) → was_used g.window now id accepted ≡ b
      → ((record_if_new now id g).0 ≡ not b)
        × Agrees now (record_if_new now id g).1 (if b then accepted else (now, id) ∷ accepted)
        × ((record_if_new now id g).1.window ≡ g.window)
  unfolding record_if_new
  record-Agrees id a true e = rw (live ∙ e) (refl, a, refl)
    where
      live : finds_live now id g.seen ≡ was_used g.window now id accepted
      live = a.same now id (omega arith)
  record-Agrees id a false e = rw (a.same now id (omega arith) ∙ e) (
    refl,
    record {
      is_map = IsMap-insert id (now + g.window) g.seen a.is_map;
      same = λ t j le. ground (
        arith,
        get-insert id j (now + g.window) g.seen,
        a.same t j le,
        was_used_before g.window now t id accepted le e,
        same_id_iff j id,
        λ (q : j ≡ id). ap (λ i. was_used g.window t i accepted) q,
      );
    },
    refl,
  )

module _ (now later : Instant) (g : ReplayGuard) (accepted : List Call) where
  Agrees-later : now ≤ later → Agrees now g accepted → Agrees later g accepted
  Agrees-later le a = record { is_map = a.is_map; same = λ t id h. a.same t id (omega arith) }

answers_agree :
    (now : Instant) (g : ReplayGuard) (accepted calls : List Call)
    → Agrees now g accepted
    → IsAscending now calls
    → answers calls g ≡ reference_answers g.window accepted calls
unfolding answers reference_answers check_and_record
answers_agree now g accepted [] a h = refl
answers_agree now g accepted ((t, id) ∷ calls) a (le, h) =
    let pruned = prune-Agrees t g accepted (Agrees-later now t g accepted le a) in
    let same_window = prune-window t g accepted in
    let (answer, next, kept) =
      record-Agrees t (prune_if_due t g) accepted id pruned (was_used g.window t id accepted)
        (ap (λ w. was_used w t id accepted) same_window) in
    let rest = answers_agree t _ _ calls next h in rw (answer, rest, kept, same_window)

-- The map, its expiry times and both kinds of sweep never change an answer: on any calls in the
-- order of the clock, a new guard answers as the reference does, which accepts a use exactly if it
-- has not accepted the same signature of the same key within the window before it.
pub answers-reference_answers :
    (window_seconds : ℕ) (now : Instant) (calls : List Call)
    → IsAscending now calls
    → answers calls (new window_seconds now)
      ≡ reference_answers (new window_seconds now).window [] calls
unfolding new get
answers-reference_answers window_seconds now calls h =
    answers_agree now _ [] calls (record { is_map = tt; same = λ t id le. refl }) h
