-- ===== src/Dispatch/Templates/SinglePass.antt =====
-- src/dispatch.rs: the two template loops against a cut of the template into pieces.
use mathlib.Core.Option
use simply_firewall.Prelude.{
  ℕ, zero, suc, ◌≡◌, ◌≤◌, refl, ap, ◌∙◌, true, false, some, List, [], ◌∷◌, ◌++◌, Text, map, length,
  find, is_empty, strip_prefix, ◌==◌, All, arith, Bool-cases, Option-cases, inl, inr, is_some,
  starts_with,
}
use simply_firewall.Dispatch.Templates.{
  drop, matching, replaced, substitute_loop, substitute_placeholders, unescaped,
}

-- A character as it stands, a backslash and what it escapes, or a placeholder.
pub data Piece : Type 0 where
  literal : ℕ → Piece
  escaped : ℕ → Piece
  hole : (name : Text) → Piece

-- What a piece is in the template, and in the output.
abbrev pub source : Piece → Text
source (literal c) = c ∷ []
source (escaped c) = b'\\' ∷ c ∷ []
source (hole name) = name

abbrev pub shown : (values : Text → Text) → Piece → Text
shown values (literal c) = c ∷ []
shown values (escaped c) = unescaped c
shown values (hole name) = values name

abbrev pub joined : (Piece → Text) → List Piece → Text
joined f [] = []
joined f (p ∷ ps) = f p ++ joined f ps

-- One cut of the template, and for all values the output is the pieces' own.
pub record IsCut (template : Text) (run : (Text → Text) → Text) : Type 0 where
  pub pieces : List Piece
  pub is_template : joined source pieces ≡ template
  pub is_output : (values : Text → Text) → run values ≡ joined (shown values) pieces

abbrev pub table : List Text → (Text → Text) → List (Text × Text)
table names values = map (λ n. (n, values n)) names

matching-table :
    (s : Text) (values : Text → Text) (names : List Text)
    → matching s (table names values)
      ≡ Option.map (λ n. (n, values n)) (find (λ n. starts_with s n) names)
matching-table s values [] = refl
matching-table s values (n ∷ names) = ground (arith, matching-table s values names)

append-drop : (p s : Text) → is_some (strip_prefix p s) ≡ true → p ++ drop (length p) s ≡ s
unfolding strip_prefix
append-drop [] s h = refl
append-drop (c ∷ p) [] h = absurd cc
append-drop (c ∷ p) (d ∷ s) h = ground (arith, append-drop p s)

pub length-drop : (n : ℕ) (s : Text) → length (drop n s) ≤ length s
length-drop zero s = omega arith
length-drop (suc n) [] = omega arith
length-drop (suc n) (c ∷ s) = omega (arith, length-drop n s)

find_sound :
    (s : Text) (names : List Text) (n : Text)
    → All (λ x. is_empty x ≡ false) names
    → find (λ x. starts_with s x) names ≡ some n
    → (starts_with s n ≡ true) × (is_empty n ≡ false)
find_sound s [] n h e = absurd cc
find_sound s (x ∷ names) n (k, h) e = elim (Bool-cases (starts_with s x)) [
  | inl t ↦ ground (arith, t, e)
  | inr f ↦ find_sound s names n h (ground (arith, f, e))
]

pub drop-shorter :
    (n : Text) (c : ℕ) (s : Text) → is_empty n ≡ false → length (drop (length n) (c ∷ s)) ≤ length s
drop-shorter [] c s h = absurd cc
drop-shorter (d ∷ n) c s h = length-drop (length n) s

module _ {s : Text} {run : (Text → Text) → Text} (cut : IsCut s run) where
  pub cut_literal : (c : ℕ) → IsCut (c ∷ s) (λ values. c ∷ run values)
  cut_literal c = record {
    pieces = literal c ∷ cut.pieces;
    is_template = ap (λ t. c ∷ t) cut.is_template;
    is_output = λ values. ap (λ t. c ∷ t) (cut.is_output values);
  }

  pub cut_escaped : (c : ℕ) → IsCut (b'\\' ∷ c ∷ s) (λ values. unescaped c ++ run values)
  cut_escaped c = record {
    pieces = escaped c ∷ cut.pieces;
    is_template = ap (λ t. b'\\' ∷ c ∷ t) cut.is_template;
    is_output = λ values. ap (λ t. unescaped c ++ t) (cut.is_output values);
  }

  cut_hole : (name : Text) → IsCut (name ++ s) (λ values. values name ++ run values)
  cut_hole name = record {
    pieces = hole name ∷ cut.pieces;
    is_template = ap (λ t. name ++ t) cut.is_template;
    is_output = λ values. ap (λ t. values name ++ t) (cut.is_output values);
  }

-- The same outputs, and the same template.
pub IsCut-along :
    {s s' : Text} {run run' : (Text → Text) → Text}
    → s ≡ s'
    → ((values : Text → Text) → run' values ≡ run values)
    → IsCut s run
    → IsCut s' run'
IsCut-along e h cut = record {
  pieces = cut.pieces;
  is_template = cut.is_template ∙ e;
  is_output = λ values. h values ∙ cut.is_output values;
}

module _ (names : List Text) (nonempty : All (λ n. is_empty n ≡ false) names) where
  -- A round that finds a placeholder or none, with the rounds after it.
  pub replaced-IsCut :
      (c : ℕ) (s : Text) (again : (Text → Text) → ℕ → Text)
      → ((n : ℕ) → length (drop n (c ∷ s)) ≤ length s → IsCut (drop n (c ∷ s)) (λ v. again v n))
      → IsCut (c ∷ s) (λ v. replaced (table names v) (matching (c ∷ s) (table names v)) c (again v))
  replaced-IsCut c s again h = elim (Option-cases (find (λ n. starts_with (c ∷ s) n) names)) [
    | inl e ↦
        IsCut-along refl (λ v. rw (matching-table (c ∷ s) v names, e) refl)
          (cut_literal (h 1 (omega arith)) c)
    | inr (n, e) ↦
        let (starts, long) = find_sound (c ∷ s) names n nonempty e in
        IsCut-along (append-drop n (c ∷ s) starts)
          (λ v. rw (matching-table (c ∷ s) v names, e) refl)
          (cut_hole (h (length n) (drop-shorter n c s long)) n)
  ]

  substitute_loop-IsCut :
      (fuel : ℕ) (s : Text)
      → length s ≤ fuel
      → IsCut s (λ v. substitute_loop (table names v) fuel s)
  unfolding substitute_loop
  substitute_loop-IsCut zero [] h = record {
    pieces = [];
    is_template = refl;
    is_output = λ v. refl;
  }
  substitute_loop-IsCut zero (c ∷ s) h = absurd (omega arith)
  substitute_loop-IsCut (suc fuel) [] h = record {
    pieces = [];
    is_template = refl;
    is_output = λ v. refl;
  }
  substitute_loop-IsCut (suc fuel) (c ∷ s) h =
      let again : (Text → Text) → ℕ → Text =
        λ v n. substitute_loop (table names v) fuel (drop n (c ∷ s)) in
      elim (Bool-cases (c == b'$')) [
        | inl e ↦
            IsCut-along refl (λ v. rw e refl)
              (replaced-IsCut c s again
                λ n le. substitute_loop-IsCut fuel (drop n (c ∷ s)) (omega arith))
        | inr e ↦
            IsCut-along refl (λ v. rw e refl)
              (cut_literal (substitute_loop-IsCut fuel s (omega arith)) c)
      ]

  -- There is one way to cut the template into characters and placeholders of the table such that,
  -- whatever values the table gives them, the output is the characters and the values in that order:
  -- no value is read for placeholders. The placeholders are not empty.
  pub substitute_placeholders-IsCut :
      (template : Text)
      → IsCut template (λ values. substitute_placeholders template (table names values))
  unfolding substitute_placeholders
  substitute_placeholders-IsCut template =
      substitute_loop-IsCut (length template) template (omega arith)
