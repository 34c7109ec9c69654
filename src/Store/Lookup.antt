-- ===== src/Store/Lookup.antt =====
-- Tables by identifier: what a lookup finds after a row is appended, rows are updated, or rows
-- are removed. `key` is the primary key column.
use mathlib.Core.Option
use simply_firewall.Prelude.{
  ℕ, ◌≡◌, ◌≢◌, ◌∙◌, refl, ap, ◌⊎◌, inl, inr, Bool, true, not, Option, none, some, List, [], ◌∷◌,
  ◌++◌, map, arith, if◌then◌else◌, ◌==◌, keep, find, contains, Member, sym, false,
}

module _ {A : Type 0} (key : A → ℕ) where
  abbrev pub by_key : ℕ → List A → Option A
  by_key j xs = find (λ x. key x == j) xs

  pub by_key_sound :
      (j : ℕ) (xs : List A) (a : A) → by_key j xs ≡ some a → Member a xs × (key a ≡ j)
  by_key_sound j [] a e = cc
  by_key_sound j (x ∷ xs) a e = ground (arith, by_key_sound j xs a)

  pub by_key-append :
      (j : ℕ) (xs : List A) (row : A)
      → by_key j xs ≡ none
      → by_key j (xs ++ row ∷ []) ≡ (if key row == j then some row else none)
  by_key-append j [] row e = refl
  by_key-append j (x ∷ xs) row e = ground (arith, by_key-append j xs row)

  pub by_key-append_old :
      (j : ℕ) (xs : List A) (row a : A) → by_key j xs ≡ some a → by_key j (xs ++ row ∷ []) ≡ some a
  by_key-append_old j [] row a e = cc
  by_key-append_old j (x ∷ xs) row a e = ground (arith, by_key-append_old j xs row a)

  abbrev pub update_at : ℕ → (A → A) → A → A
  update_at i f x = if key x == i then f x else x

  pub by_key-update :
      (i j : ℕ) (f : A → A) (xs : List A)
      → ((x : A) → key (f x) ≡ key x)
      → by_key j (map (update_at i f) xs)
        ≡ (if j == i then Option.map f (by_key j xs) else by_key j xs)
  by_key-update i j f [] h = ground arith
  by_key-update i j f (x ∷ xs) h = ground (arith, h x, by_key-update i j f xs h)

  pub by_key-updated :
      (i : ℕ) (f : A → A) (xs : List A) (a : A)
      → ((x : A) → key (f x) ≡ key x)
      → by_key i xs ≡ some a
      → by_key i (map (update_at i f) xs) ≡ some (f a)
  by_key-updated i f xs a h e = by_key-update i i f xs h ∙ ground (arith, e)

  pub by_key-others :
      (i j : ℕ) (f : A → A) (xs : List A)
      → ((x : A) → key (f x) ≡ key x)
      → j ≢ i
      → by_key j (map (update_at i f) xs) ≡ by_key j xs
  by_key-others i j f xs h other = by_key-update i j f xs h ∙ ground (arith, other)

  pub by_key-keep :
      (j : ℕ) (ids : List ℕ) (xs : List A)
      → by_key j (keep (λ x. not (contains (key x) ids)) xs)
        ≡ (if contains j ids then none else by_key j xs)
  by_key-keep j ids [] = ground arith
  by_key-keep j ids (x ∷ xs) =
      ground (arith, by_key-keep j ids xs, λ (e : key x ≡ j). ap (λ (i : ℕ). contains i ids) e)

module _ {A : Type 0} where
  found_or_later :
      (p : A → Bool) (x : A) (xs : List A) (a : A) (b : Bool)
      → p x ≡ b
      → (if b then some x else find p xs) ≡ some a
      → (find p xs ≡ some a → Member a xs × (p a ≡ true))
      → Member a (x ∷ xs) × (p a ≡ true)
  found_or_later p x xs a true t h rest =
      let same : x ≡ a = cc in (inl (sym same), ap p (sym same) ∙ t)
  found_or_later p x xs a false f h rest = let (m, t) = rest h in (inr m, t)

  -- What a search finds is in the list and passes the test.
  pub find_sound :
      (p : A → Bool) (xs : List A) (a : A) → find p xs ≡ some a → Member a xs × (p a ≡ true)
  find_sound p [] a e = absurd cc
  find_sound p (x ∷ xs) a e = found_or_later p x xs a (p x) refl e (find_sound p xs a)

  pub Member-keep :
      (p : A → Bool) (a : A) (xs : List A) → Member a (keep p xs) → Member a xs × (p a ≡ true)
  Member-keep p a [] m = absurd m
  Member-keep p a (x ∷ xs) m = ground (arith, Member-keep p a xs)

  pub Member-keep_of :
      (p : A → Bool) (a : A) (xs : List A) → Member a xs → p a ≡ true → Member a (keep p xs)
  Member-keep_of p a [] m e = m
  Member-keep_of p a (x ∷ xs) (inl same) e = ground (arith, ap p same)
  Member-keep_of p a (x ∷ xs) (inr m) e = ground (arith, Member-keep_of p a xs m e)

  pub Member-append :
      (a : A) (xs : List A) (row : A) → Member a (xs ++ row ∷ []) → Member a xs ⊎ (a ≡ row)
  Member-append a [] row m = ground arith
  Member-append a (x ∷ xs) row m = ground (arith, Member-append a xs row)

  pub Member-map :
      (f : A → A) (b : A) (xs : List A) → Member b (map f xs) → (a : A) × Member a xs × (b ≡ f a)
  Member-map f b [] m = absurd m
  Member-map f b (x ∷ xs) (inl e) = (x, inl refl, e)
  Member-map f b (x ∷ xs) (inr m) = let (a, later, e) = Member-map f b xs m in (a, inr later, e)
