-- ===== src/Retention/Purged.antt =====
-- src/retention.rs: what a purge removes.
use simply_firewall.Prelude.{
  keep, length, Bool-cases, ℕ, ◌≡◌, ◌↔◌, ◌⊎◌, ◌<◌, ◌+◌, ◌*◌, refl, ap, subst, inl, inr, Bool, true,
  false, not, ◌&&◌, Option, none, some, List, [], ◌∷◌, Member, any, ltb, ◌==◌, arith, ℤ, pos,
  negsuc, ◌≤ℤ◌, pos_part, is_some_and, InSome,
}
use simply_firewall.Entities.{Uuid, DateTime, IpRecord, Membership}
use simply_firewall.Outside.{Outside}
use simply_firewall.Store.{Db, stored, pure, execute}
use simply_firewall.Store.Lookup.{Member-keep, Member-keep_of}
use simply_firewall.Store.Aged.{delete_records, without_records}
use simply_firewall.Store.Spec.{eq_of_stored, Spec, Post, Post-mono, Post-now, Spec-execute}
use simply_firewall.Guards.Effects.{DbFailure}
use simply_firewall.Retention.{is_expired, day_seconds, purge_expired_ip_records}

-- Soft-deleted, and so more than the window before the clock.
abbrev pub IsExpired : (clock : DateTime) (days : ℕ) → IpRecord → Type 0
IsExpired clock days r = (r.is_deleted ≡ true) × InSome (λ t. t + days * 86400 < clock) r.deleted_at

-- The rows that stay are those that are not expired, and the memberships those that refer to no
-- expired row; nothing else differs.
pub record IsPurged (clock : DateTime) (days : ℕ) (db d : Db) : Type 0 where
  pub rows :
      (r : IpRecord) → Member r d.ip_records ↔ (Member r db.ip_records × (¬ IsExpired clock days r))
  pub live : (r : IpRecord) → Member r db.ip_records → r.is_deleted ≡ false → Member r d.ip_records
  pub memberships :
      (m : Membership)
      → Member m d.memberships
      → Member m db.memberships
        × ((r : IpRecord)
            → Member r db.ip_records
            → r.id ≡ m.ip_record_id
            → ¬ IsExpired clock days r)
  pub others : record d { ip_records = db.ip_records; memberships = db.memberships } ≡ db

expired_iff :
    (clock window : ℕ) (flag : Bool) (at : Option ℕ)
    → ((flag && is_some_and at (λ t. ltb (t + window) clock)) ≡ true)
      ↔ ((flag ≡ true) × InSome (λ t. t + window < clock) at)
expired_iff clock window flag none = ground arith
expired_iff clock window flag (some t) = ground arith

is_expired_iff :
    (clock : DateTime) (days : ℕ) (r : IpRecord)
    → (is_expired clock (days * day_seconds) r ≡ true) ↔ IsExpired clock days r
is_expired_iff clock days r = expired_iff clock (days * day_seconds) r.is_deleted r.deleted_at

any_of_Member :
    (p : IpRecord → Bool) (id : Uuid) (r : IpRecord) (rows : List IpRecord)
    → Member r rows
    → r.id ≡ id
    → p r ≡ true
    → any (λ x. p x && x.id == id) rows ≡ true
any_of_Member p id r [] m e h = absurd m
any_of_Member p id r (x ∷ rows) (inl same) e h =
    ground (arith, ap p same, ap (λ (y : IpRecord). y.id) same)
any_of_Member p id r (x ∷ rows) (inr m) e h = ground (arith, any_of_Member p id r rows m e h)

module _ (clock : DateTime) (days : ℕ) (db : Db) where
  abbrev expired : IpRecord → Bool
  expired = is_expired clock (days * day_seconds)

  without-IsPurged : IsPurged clock days db (without_records expired db)
  without-IsPurged = record {
    rows = λ r. (
      λ m.
          let (old, stays) = Member-keep (λ x. not (expired x)) r db.ip_records m in
          (old, λ gone. ground (arith, stays, (is_expired_iff clock days r).1 gone)),
      λ h.
          Member-keep_of (λ x. not (expired x)) r db.ip_records h.0
            (ground (arith, (is_expired_iff clock days r).0, h.1)),
    );
    live = λ r m flag.
        Member-keep_of (λ x. not (expired x)) r db.ip_records m
          (ground (arith, (is_expired_iff clock days r).0, flag));
    memberships = λ m h.
        let (old, free) =
          Member-keep (λ x. not (any (λ r. expired r && r.id == x.ip_record_id) db.ip_records)) m
            db.memberships h in
        (
          old,
          λ r in_table e gone. ground (
            arith,
            free,
            any_of_Member expired m.ip_record_id r db.ip_records in_table e
                ((is_expired_iff clock days r).1 gone),
          ),
        );
    others = refl;
  }

  delete_records-IsPurged :
      (n : ℕ) (d : Db) → delete_records expired db ≡ stored n d → IsPurged clock days db d
  unfolding delete_records
  delete_records-IsPurged n d e = subst (IsPurged clock days db) (eq_of_stored e).1 without-IsPurged

length-keep :
    {A : Type 0} (p : A → Bool) (xs : List A)
    → length (keep p xs) + length (keep (λ x. not (p x)) xs) ≡ length xs
length-keep p [] = refl
length-keep p (x ∷ xs) = ground (arith, length-keep p xs)

-- What a purge at a reading of the clock may answer: it counts the rows that are gone.
abbrev pub IsDone : (clock : DateTime) (days : ℤ) (db : Db) → ℕ → Db → Type 0
IsDone clock days db n d =
    ((days ≤ℤ pos 0) × (n ≡ 0) × (d ≡ db))
    ⊎ ((¬ (days ≤ℤ pos 0))
        × (n + length d.ip_records ≡ length db.ip_records)
        × IsPurged clock (pos_part days) db d)

delete_records-count :
    (p : IpRecord → Bool) (db d : Db) (n : ℕ)
    → delete_records p db ≡ stored n d
    → n + length d.ip_records ≡ length db.ip_records
unfolding delete_records
delete_records-count p db d n e =
    let (count, after) = eq_of_stored e in
    subst (λ k. k + length d.ip_records ≡ length db.ip_records) count
      (subst
        (λ (x : Db). length (keep p db.ip_records) + length x.ip_records ≡ length db.ip_records)
        after (length-keep p db.ip_records))

-- The part after the clock is read.
purge_at :
    (o : Outside) (db : Db) (days : ℕ) (clock : DateTime)
    → 0 < days
    → Spec
        (execute o (delete_records (is_expired clock (days * day_seconds))))
        db
        (IsDone clock (pos days) db)
        (λ e d. DbFailure e × (d ≡ db))
purge_at o db days clock positive =
    Spec-execute o db _ (λ x. (refl, refl))
      λ n d done. inr (
        (λ none_asked. omega arith),
        delete_records-count _ db d n done,
        delete_records-IsPurged clock days db n d done,
      )

pub purge_expired_ip_records-IsDone :
    (o : Outside) (db : Db) (days : ℤ) (step : ℕ)
    → Post
        (IsDone (o.clock step) days db)
        (λ e d. DbFailure e × (d ≡ db))
        (purge_expired_ip_records o days (record { db = db; step = step }))
unfolding purge_expired_ip_records pure
purge_expired_ip_records-IsDone o db (negsuc n) step = inl (omega arith, refl, refl)
purge_expired_ip_records-IsDone o db (pos days) step = elim (Bool-cases (ltb 0 days)) [
  | inl e ↦ rw e (Post-now o _ db step (purge_at o db days (o.clock step) (ground (arith, e))))
  | inr e ↦ rw e (inl (ground (arith, e), refl, refl))
]

-- For a client that has no use for the clock.
pub purge_expired_ip_records-keys :
    (o : Outside) (db : Db) (days : ℤ)
    → Spec
        (purge_expired_ip_records o days)
        db
        (λ _ d. d.api_keys ≡ db.api_keys)
        (λ _ d. d.api_keys ≡ db.api_keys)
purge_expired_ip_records-keys o db days = record {
  at = λ n.
      Post-mono {Q = IsDone (o.clock n) days db} {Q' = λ _ d. d.api_keys ≡ db.api_keys}
        {E = λ e d. DbFailure e × (d ≡ db)} {E' = λ _ d. d.api_keys ≡ db.api_keys}
        (purge_expired_ip_records o days (record { db = db; step = n })) (λ _ d. keys_after n d)
        (λ e d h. ap (λ (x : Db). x.api_keys) h.1) (purge_expired_ip_records-IsDone o db days n);
}
  where
    keys_after :
        (n : ℕ) {count : ℕ} (d : Db) → IsDone (o.clock n) days db count d → d.api_keys ≡ db.api_keys
    keys_after n d (inl h) = ap (λ (x : Db). x.api_keys) h.2
    keys_after n d (inr h) = ap (λ (x : Db). x.api_keys) h.2.others
