-- ===== src/Dispatch/Templates.antt =====
-- src/dispatch.rs: `resolve_hmac_template`, `substitute_placeholders` and `snippet`. The loops copy
-- one character at a time where the source copies a run of literal text; each round takes at least
-- one character, so the length of the template bounds the rounds. A text is its characters.
pub mod SinglePass
pub mod Hmac
use simply_firewall.Prelude.{
  ℕ, zero, suc, ◌+◌, ◌<◌, ◌≡◌, refl, Bool, Option, none, some, List, [], ◌∷◌, ◌++◌, Text, codes,
  length, find, take, starts_with, strip_prefix, if◌then◌else◌, ltb, ◌==◌,
}

abbrev pub drop : ℕ → Text → Text
drop zero s = s
drop (suc n) [] = []
drop (suc n) (c ∷ s) = drop n s

-- `substitutions.iter().find(|(placeholder, _)| rest.starts_with(placeholder))`
abbrev pub matching : Text → List (Text × Text) → Option (Text × Text)
matching s table = find (λ entry. starts_with s entry.0) table

module _ (table : List (Text × Text)) where
  -- The arms of the `match`, with what the rest of the text becomes.
  abbrev pub replaced : Option (Text × Text) → (c : ℕ) → (again : ℕ → Text) → Text
  replaced none c again = c ∷ again 1
  replaced (some (placeholder, value)) c again = value ++ again (length placeholder)

  unfoldable pub substitute_loop : (fuel : ℕ) → Text → Text
  substitute_loop zero s = []
  substitute_loop (suc fuel) [] = []
  substitute_loop (suc fuel) (c ∷ s) =
      let again : ℕ → Text = λ n. substitute_loop fuel (drop n (c ∷ s)) in
      if c == b'$' then replaced (matching (c ∷ s) table) c again else c ∷ again 1

unfoldable pub substitute_placeholders : (template : Text) → List (Text × Text) → Text
unfolding substitute_loop
substitute_placeholders template table = substitute_loop table (length template) template

-- The character that an escape stands for, after the backslash.
abbrev pub unescaped : ℕ → Text
unescaped c =
    if c == b'n'
    then 10 ∷ []
    else if c == b'r'
    then 13 ∷ []
    else if c == b't'
    then 9 ∷ []
    else if c == b'\\'
    then b'\\' ∷ []
    else b'\\' ∷ c ∷ []

module _ (method path timestamp body : Text) where
  abbrev pub placeholders : List (Text × Text)
  placeholders =
      (codes "{method}", method)
      ∷ (codes "{path}", path)
      ∷ (codes "{timestamp}", timestamp)
      ∷ (codes "{body}", body)
      ∷ []

  unfoldable pub hmac_loop : (fuel : ℕ) → Text → Text
  hmac_loop zero s = []
  hmac_loop (suc fuel) [] = []
  hmac_loop (suc fuel) (c ∷ s) =
      let again : ℕ → Text = λ n. hmac_loop fuel (drop n (c ∷ s)) in
      if c == b'\\'
      then escape s (again 2)
      else if c == b'{'
      then replaced placeholders (matching (c ∷ s) placeholders) c again
      else c ∷ again 1
    where
      escape : Text → Text → Text
      escape [] rest = b'\\' ∷ []
      escape (e ∷ s) rest = unescaped e ++ rest

  unfoldable pub resolve_hmac_template : (template : Text) → Text
  unfolding hmac_loop
  resolve_hmac_template template = hmac_loop (length template) template

abbrev pub default_hmac_template : Text
default_hmac_template = codes "{method}\\n{path}\\n{timestamp}\\n{body}"

abbrev pub response_snippet_max : ℕ
response_snippet_max = 500

-- The cut is after that many characters; the tail with the count of bytes is a parameter.
unfoldable pub snippet : (tail : Text → Text) → Text → Text
snippet tail body =
    if ltb response_snippet_max (length body)
    then take response_snippet_max body ++ tail body
    else body

test_default :
    resolve_hmac_template
      (codes "POST")
      (codes "/{body}")
      (codes "7")
      (codes "x\\n")
      default_hmac_template
    ≡ codes "POST\n/{body}\n7\nx\\n"
unfolding resolve_hmac_template strip_prefix
test_default = refl
