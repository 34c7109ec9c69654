-- ===== src/Keys/Rotate/Fresh.antt =====
-- What a rotation leaves in the table of keys, against what it answers.
use mathlib.Core.Option
use simply_firewall.Prelude.{
  ◌≡◌, refl, ◌⊎◌, inl, inr, false, none, some, [], Text, InSome, arith, ◌==◌, if◌then◌else◌,
}
use simply_firewall.Entities.{Uuid, DateTime, ApiKey}
use simply_firewall.Outside.{Outside}
use simply_firewall.Store.{Db, stored}
use simply_firewall.Store.Tables.{key_by_id, update_key}
use simply_firewall.Store.Spec.{Spec, Spec-pure, Spec-bind}
use simply_firewall.Store.Chain.{after_refuse, after_lift, after_read, after_now, after_execute}
use simply_firewall.Guards.Effects.{DbFailure}
use simply_firewall.Support.{Caller, hash_key}
use simply_firewall.Support.Effects.{Spec-create_audit_log}
use simply_firewall.Crypto.{opened, open_secret}
use simply_firewall.Crypto.Effects.{generate_random_key-Reads, generate_signing_secret-Reads}
use simply_firewall.Crypto.RoundTrip.{IsCipher, seal-open_secret}
use simply_firewall.Authority.Statements.{key_by_id-update, update_key_of_hash}
use simply_firewall.Keys.Subtree.Visibility.{Administrable, find_administrable_key-Reads}
use simply_firewall.Keys.Rotate.{RotateKeyResponse, rotated, rotate_api_key}

-- A key without its credentials.
abbrev pub identity : ApiKey → ApiKey
identity k = record k { key_hash = []; prefix = []; signing_secret = none; updated_at = 0 }

-- The row holds the credentials of the response, and is otherwise the row that was there.
abbrev pub HoldsCredentials : Outside → RotateKeyResponse → (target row : ApiKey) → Type 0
HoldsCredentials o response target row =
    (row.key_hash ≡ hash_key o response.plaintext_key)
    × InSome (λ secret. open_secret o secret ≡ opened response.signing_secret) row.signing_secret
    × (identity row ≡ identity target)

pub record IsRotated (o : Outside) (caller : ApiKey) (id : Uuid) (db : Db)
    (response : RotateKeyResponse) (d : Db) : Type 0 where
  pub target : ApiKey
  pub found : key_by_id id db ≡ some target
  pub allowed : Administrable db caller id
  pub credentials : InSome (HoldsCredentials o response target) (key_by_id id d)
  pub others : (j : Uuid) → (j == id) ≡ false → key_by_id j d ≡ key_by_id j db

module _ (o : Outside) (id : Uuid) (db d : Db) {a : Unit {0}} (hash prefix secret : Text)
    (t : DateTime) (done : update_key id (rotated hash prefix secret t) db ≡ stored a d) where
  lookup_after :
      (j : Uuid)
      → key_by_id j d ≡ (
          if j == id
          then Option.map (rotated hash prefix secret t) (key_by_id j db)
          else key_by_id j db)
  lookup_after j =
      key_by_id-update id (rotated hash prefix secret t) db d (λ k. refl) (λ k. refl) (λ k. refl)
        done j

  row_after :
      (target : ApiKey)
      → key_by_id id db ≡ some target
      → key_by_id id d ≡ some (rotated hash prefix secret t target)
  row_after target found = ground (arith, lookup_after id)

  others_after : (j : Uuid) → (j == id) ≡ false → key_by_id j d ≡ key_by_id j db
  others_after j e = ground (arith, lookup_after j)

-- A rotation that returns answers with a key whose hash the row now has, and a secret to which the
-- stored one opens, where hex and the cipher behave as documented; the rest of the row and all
-- other rows are as they were, and the caller is the master or has the target in its subtree. Else
-- the database has failed, or nothing has been written.
pub rotate_api_key-IsRotated :
    (o : Outside) (caller : Caller) (id : Uuid) (db : Db)
    → IsCipher o
    → Spec
        (rotate_api_key o caller id)
        db
        (λ response d. IsRotated o caller.key id db response d)
        (λ e d. DbFailure e ⊎ (d ≡ db))
unfolding rotate_api_key
rotate_api_key-IsRotated o caller id db laws =
    after_refuse _ _ (λ _. inr refl)
      λ _.
        after_read (find_administrable_key-Reads o db caller.key id) (λ _ _. inr refl)
          λ target found.
            after_lift _ (λ _ _. inr refl)
              λ _ _.
                after_lift _ (λ _ _. inr refl)
                  λ _ _.
                    after_read (generate_random_key-Reads o db) (λ _ h. absurd h)
                      λ plaintext _.
                        after_read (generate_signing_secret-Reads o db) (λ _ h. absurd h)
                          λ secret _.
                            after_read (seal-open_secret o db secret laws) (λ _ _. inr refl)
                              λ sealed opens. after_now o λ t.
                                after_execute o (λ _. inl refl) _
                                  λ _ d done.
                                    let update =
                                      update_key_of_hash id _ (rotated _ _ sealed t) db d done in
                                    Spec-bind {P = λ _ d'. d'.api_keys ≡ d.api_keys}
                                      (Spec-create_audit_log o d caller _ _ _ _ (λ _. inl refl)
                                        (λ row is. refl))
                                      λ _ d' same. Spec-pure d' _ (record {
                                        target = target;
                                        found = found.0;
                                        allowed = found.1;
                                        credentials =
                                            rw
                                              (
                                                same,
                                                row_after o id db d _ _ sealed t update target
                                                    found.0,
                                              )
                                              (refl, opens, refl);
                                        others = λ j e.
                                            rw same
                                              (others_after o id db d _ _ sealed t update j e);
                                      })
