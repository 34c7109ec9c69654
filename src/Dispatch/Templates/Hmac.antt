-- ===== src/Dispatch/Templates/Hmac.antt =====
-- src/dispatch.rs: `resolve_hmac_template`, and its default template against src/crypto.rs.
use mathlib.Core.List.{append-nil}
use simply_firewall.Prelude.{
  ℕ, zero, suc, ◌≡◌, ◌≤◌, refl, true, List, [], ◌∷◌, Text, length, ◌==◌, arith, Bool-cases, inl,
  inr, codes, strip_prefix,
}
use simply_firewall.Crypto.{canonical_v1_payload}
use simply_firewall.Dispatch.Templates.{
  drop, hmac_loop, resolve_hmac_template, default_hmac_template,
}
use simply_firewall.Dispatch.Templates.SinglePass.{
  IsCut, IsCut-along, cut_literal, cut_escaped, replaced-IsCut,
}

abbrev pub four : List Text
four = codes "{method}" ∷ codes "{path}" ∷ codes "{timestamp}" ∷ codes "{body}" ∷ []

-- The loop with the values of the four placeholders.
abbrev pub hmac_with : (values : Text → Text) → (fuel : ℕ) → Text → Text
hmac_with values =
    hmac_loop (values (codes "{method}")) (values (codes "{path}")) (values (codes "{timestamp}"))
      (values (codes "{body}"))

abbrev nothing_left : {run : (Text → Text) → Text} → ((v : Text → Text) → run v ≡ []) → IsCut [] run
nothing_left h = record { pieces = []; is_template = refl; is_output = h }

after_backslash :
    (fuel c : ℕ) (rest : Text)
    → (c == b'\\') ≡ true
    → length (c ∷ rest) ≤ suc fuel
    → ((s : Text) → length s ≤ fuel → IsCut s (λ v. hmac_with v fuel s))
    → IsCut (c ∷ rest) (λ v. hmac_with v (suc fuel) (c ∷ rest))
unfolding hmac_loop
after_backslash fuel c [] e h ih =
    IsCut-along refl (λ v. ground (arith, e)) (cut_literal (nothing_left λ v. refl) c)
after_backslash fuel c (d ∷ rest) e h ih =
    IsCut-along (ground (arith, e)) (λ v. rw e refl) (cut_escaped (ih rest (omega arith)) d)

hmac_loop-IsCut : (fuel : ℕ) (s : Text) → length s ≤ fuel → IsCut s (λ v. hmac_with v fuel s)
unfolding hmac_loop
hmac_loop-IsCut zero [] h = nothing_left λ v. refl
hmac_loop-IsCut zero (c ∷ s) h = absurd (omega arith)
hmac_loop-IsCut (suc fuel) [] h = nothing_left λ v. refl
hmac_loop-IsCut (suc fuel) (c ∷ s) h = elim (Bool-cases (c == b'\\')) [
  | inl e ↦ after_backslash fuel c s e h (λ rest le. hmac_loop-IsCut fuel rest le)
  | inr e ↦ elim (Bool-cases (c == b'{')) [
    | inl e' ↦
        IsCut-along refl (λ v. rw (e, e') refl)
          (replaced-IsCut four (refl, (refl, (refl, (refl, tt)))) c s
            (λ v n. hmac_with v fuel (drop n (c ∷ s)))
            λ n le. hmac_loop-IsCut fuel (drop n (c ∷ s)) (omega arith))
    | inr e' ↦
        IsCut-along refl (λ v. rw (e, e') refl)
          (cut_literal (hmac_loop-IsCut fuel s (omega arith)) c)
  ]
]

-- There is one way to cut the template into characters, escapes and the four placeholders such that,
-- whatever their values are, the message signed is those pieces in that order: no value is read for
-- escapes or placeholders.
pub resolve_hmac_template-IsCut :
    (template : Text)
    → IsCut template (λ values.
      resolve_hmac_template
        (values (codes "{method}"))
        (values (codes "{path}"))
        (values (codes "{timestamp}"))
        (values (codes "{body}"))
        template)
unfolding resolve_hmac_template
resolve_hmac_template-IsCut template = hmac_loop-IsCut (length template) template (omega arith)

-- The default template signs the string that the service itself verifies.
pub resolve_hmac_template-default :
    (method path timestamp body : Text)
    → resolve_hmac_template method path timestamp body default_hmac_template
      ≡ canonical_v1_payload method path timestamp body
unfolding resolve_hmac_template canonical_v1_payload strip_prefix
resolve_hmac_template-default method path timestamp body = rw append-nil refl
