-- ===== src/Middleware/Blind.antt =====
-- src/middleware.rs: what an answer depends on before the signature has been verified.
use mathlib.Core.Option
use simply_firewall.Prelude.{
  ℕ, ◌≡◌, refl, Option, none, some, List, [], ◌∷◌, map, Text, find, text_eq, arith,
}
use simply_firewall.Entities.{ApiKey}
use simply_firewall.Error.{DbErr, AppError, Result, err}
use simply_firewall.Outside.{Outside}
use simply_firewall.Store.{Db}
use simply_firewall.Crypto.{verify_signature}
use simply_firewall.ClientIp.{Addresses, Headers}
use simply_firewall.Middleware.{
  Moment, Incoming, Shared, row_of_hash, find_key, verify, after_verify, auth_middleware,
  check_shape, validate_timestamp, signing_secret_of,
}
use simply_firewall.Middleware.Results.{◌>>=◌, ok_or_err, err_along, ok_is_no_err}

module _ (f : ApiKey → Option Text) where
  abbrev rebound : ApiKey → ApiKey
  rebound k = record k { bound_ips = f k }

  -- Other networks for every key.
  abbrev pub rebind : Db → Db
  rebind db = record db { api_keys = map rebound db.api_keys }

  find-rebound :
      (hash : Text) (keys : List ApiKey)
      → find (λ k. text_eq k.key_hash hash) (map rebound keys)
        ≡ Option.map rebound (find (λ k. text_eq k.key_hash hash) keys)
  find-rebound hash [] = refl
  find-rebound hash (key ∷ keys) = ground (arith, find-rebound hash keys)

  module _ {B : Type 0} {x : AppError} (g h : ApiKey → Result B)
      (k : (key : ApiKey) → g key ≡ err x → h (rebound key) ≡ err x) where
    err_along_row :
        (e : AppError) (row : Option ApiKey)
        → (ok_or_err e row >>= g) ≡ err x
        → (ok_or_err e (Option.map rebound row) >>= h) ≡ err x
    unfolding ok_or_err ◌>>=◌
    err_along_row e none q = q
    err_along_row e (some key) q = k key q

    err_along_find :
        (failure : Option DbErr) (hash : Text) (db : Db)
        → (find_key failure hash db >>= g) ≡ err x
        → (find_key failure hash (rebind db) >>= h) ≡ err x
    unfolding find_key ◌>>=◌
    err_along_find (some e) hash db q = q
    err_along_find none hash db q =
        rw (find-rebound hash db.api_keys) (err_along_row _ (row_of_hash hash db) q)

module _ (o : Outside) (limit : ℕ) {a : Addresses} (f : ApiKey → Option Text) (m : Moment a)
    (r : Incoming a) where
  verify-rebind :
      (trusted : List a.Network) (peer : a.IpAddr) (forwarding : Headers) (e : AppError)
      → verify o limit m r ≡ err e
      → verify o limit
          (record m { db = rebind f m.db; trusted = trusted })
          (record r { peer = peer; forwarding = forwarding })
        ≡ err e
  unfolding verify
  verify-rebind trusted peer forwarding e h =
      err_along (validate_timestamp m.now r.timestamp) _ _
        (λ timestamp h1.
          err_along (ok_or_err _ r.api_key) _ _
            (λ presented h2.
              err_along (ok_or_err _ r.signature) _ _
                (λ provided h3.
                  err_along (check_shape provided) _ _
                    (λ u h4.
                      err_along_find f _ _
                        (λ key h5.
                          err_along (signing_secret_of o key.signing_secret) _ _
                            (λ secret h6.
                              err_along (ok_or_err _ (r.body limit)) _ _
                                (λ body h7.
                                  err_along
                                    (ok_or_err _ (verify_signature o secret _ _ _ body provided)) _
                                    _ (λ digest h8. ok_is_no_err h8) h7)
                                h6)
                            h5)
                        m.lookup_failure _ m.db h4)
                    h3)
                h2)
            h1)
        h

module _ (o : Outside) (limit : ℕ) (a : Addresses) (parse_network : Text → Option a.Network) where
  -- A request that the check of the signature refuses gets the same answer, and changes nothing,
  -- whatever address it comes from, whatever its forwarding headers say, whichever proxies are
  -- trusted, and whatever networks the keys are bound to: before the caller has proved that it holds
  -- the secret, no answer tells anything of them.
  pub auth_middleware-rebind :
      (f : ApiKey → Option Text) (m : Moment a) (r : Incoming a) (s : Shared)
      → (trusted : List a.Network) (peer : a.IpAddr) (forwarding : Headers) (e : AppError)
      → verify o limit m r ≡ err e
      → auth_middleware o limit a parse_network
          (record m { db = rebind f m.db; trusted = trusted })
          (record r { peer = peer; forwarding = forwarding })
          s
        ≡ (err e, s)
  unfolding auth_middleware after_verify
  auth_middleware-rebind f m r s trusted peer forwarding e h =
      rw (verify-rebind o limit f m r trusted peer forwarding e h) refl
