-- ===== src/Keys/Subtree/Reach.antt =====
-- src/api/keys.rs: `collect_key_subtree` against the tree of the parent column.
use simply_firewall.Prelude.{
  ℕ, zero, suc, ◌<◌, ◌≡◌, refl, ◌⊎◌, inl, inr, ◌↔◌, true, List, [], ◌∷◌, arith, contains, length,
  sym, subst, ⊎_elim,
}
use simply_firewall.Entities.{Uuid}
use simply_firewall.Outside.{Outside}
use simply_firewall.Store.{Db}
use simply_firewall.Store.Spec.{Spec-pure}
use simply_firewall.Store.Chain.{Reads, after_query}
use simply_firewall.Guards.Effects.{DbFailure}
use simply_firewall.Keys.Subtree.{children_of, insert_all, walk, collect_key_subtree}
use simply_firewall.Keys.Subtree.Walk.{
  IsChildAmong, children_of-eq, child_ids_sound, child_ids_complete, insert_all_lem,
  insert_all_fresh, unvisited, unvisited-le-length, unvisited_falls,
}

-- The keys at or below `root`: the independent description of the subtree.
pub data Descends (db : Db) (root : Uuid) : Uuid → Type 0 where
  here : Descends db root root
  below : {p id : Uuid} → Descends db root p → IsChildAmong db.api_keys p id → Descends db root id

module _ (db : Db) (root : Uuid) where
  record Inv (frontier visited : List Uuid) : Type 0 where
    source : contains root visited ≡ true
    queued : (id : Uuid) → contains id frontier ≡ true → contains id visited ≡ true
    sound : (id : Uuid) → contains id visited ≡ true → Descends db root id
    closed :
        (p id : Uuid)
        → contains p visited ≡ true
        → IsChildAmong db.api_keys p id
        → (contains p frontier ≡ true) ⊎ (contains id visited ≡ true)

  Inv-start : Inv (root ∷ []) (root ∷ [])
  Inv-start = record {
    source = ground arith;
    queued = λ id h. h;
    sound = λ id h. subst (Descends db root) (ground arith) here;
    closed = λ p id h c. inl h;
  }

  module _ (f : Uuid) (fs visited : List Uuid) (inv : Inv (f ∷ fs) visited) where
    abbrev frontier : List Uuid
    frontier = f ∷ fs

    abbrev children : List Uuid
    children = children_of (f ∷ fs) db

    new_is_child : (id : Uuid) → contains id children ≡ true → Descends db root id
    new_is_child id h =
        let (p, q, c) =
          child_ids_sound frontier id db.api_keys
            (subst (λ cs. contains id cs ≡ true) (children_of-eq frontier db) h) in
        below (inv.sound p (inv.queued p q)) c

    child_is_new :
        (p id : Uuid)
        → contains p frontier ≡ true
        → IsChildAmong db.api_keys p id
        → contains id children ≡ true
    child_is_new p id q (k, m, e, e') =
        subst (λ cs. contains id cs ≡ true) (sym (children_of-eq frontier db))
          (child_ids_complete frontier p id k db.api_keys m e e' q)

    origin :
        (id : Uuid)
        → contains id (insert_all visited children).1 ≡ true
        → (contains id children ≡ true) ⊎ (contains id visited ≡ true)
    origin id h = ground (arith, insert_all_lem visited children id)

    fresh_or_old :
        (id : Uuid)
        → contains id (insert_all visited children).1 ≡ true
        → (contains id (insert_all visited children).0 ≡ true) ⊎ (contains id visited ≡ true)
    fresh_or_old id h = ground (arith, insert_all_lem visited children id)

    child_of_old :
        (p id : Uuid)
        → contains p visited ≡ true
        → IsChildAmong db.api_keys p id
        → contains id (insert_all visited children).1 ≡ true
    child_of_old p id h c = ground (
      arith,
      insert_all_lem visited children id,
      ⊎_elim (λ q. inl (child_is_new p id q c)) inr (inv.closed p id h c),
    )

    Inv-round : Inv (insert_all visited children).0 (insert_all visited children).1
    Inv-round = record {
      source = ground (arith, insert_all_lem visited children root, inv.source);
      queued = λ id h. ground (arith, insert_all_lem visited children id);
      sound = λ id h. ⊎_elim (new_is_child id) (inv.sound id) (origin id h);
      closed = λ p id h c. ⊎_elim inl (λ old. inr (child_of_old p id old c)) (fresh_or_old p h);
    }

    new_rows_visited :
        (c : Uuid) (rest : List Uuid)
        → (insert_all visited children).0 ≡ c ∷ rest
        → unvisited (insert_all visited children).1 db.api_keys < unvisited visited db.api_keys
    new_rows_visited c rest e =
        let (out, is_child) = insert_all_fresh visited children c rest e in
        let (p, q, (k, m, e', same)) =
          child_ids_sound frontier c db.api_keys
            (subst (λ cs. contains c cs ≡ true) (children_of-eq frontier db) is_child) in
        unvisited_falls visited (insert_all visited children).1
          (λ id h. ground (arith, insert_all_lem visited children id)) c k db.api_keys m same out
          (ground (arith, insert_all_lem visited children c))

    -- The fuel left after a round is enough for the next.
    enough_fuel :
        (fuel : ℕ)
        → unvisited visited db.api_keys < suc fuel
        → (next : List Uuid) → (insert_all visited children).0 ≡ next
        → (next ≡ []) ⊎ (unvisited (insert_all visited children).1 db.api_keys < fuel)
    enough_fuel fuel h [] e = inl refl
    enough_fuel fuel h (c ∷ rest) e = inr (omega (arith, new_rows_visited c rest e))

  -- What is visited when the frontier is empty is closed under children.
  complete :
      (visited : List Uuid)
      → Inv [] visited
      → {id : Uuid} → Descends db root id
      → contains id visited ≡ true
  complete visited inv here = inv.source
  complete visited inv (below d c) = ground (arith, inv.closed _ _ (complete visited inv d) c)

  abbrev pub IsSubtree : List Uuid → Type 0
  IsSubtree found = (id : Uuid) → (contains id found ≡ true) ↔ Descends db root id

  walk-Reads :
      (o : Outside) (fuel : ℕ) (frontier visited : List Uuid)
      → (frontier ≡ []) ⊎ (unvisited visited db.api_keys < fuel)
      → Inv frontier visited
      → Reads (walk o fuel frontier visited) db IsSubtree DbFailure
  unfolding walk
  walk-Reads o fuel [] visited h inv =
      Spec-pure db visited (refl, λ id. (inv.sound id, complete visited inv))
  walk-Reads o zero (f ∷ fs) visited h inv = absurd (ground arith)
  walk-Reads o (suc fuel) (f ∷ fs) visited h inv =
      after_query o (λ e. (refl, refl)) _ _
        (walk-Reads o fuel _ _ (enough_fuel f fs visited inv fuel (ground arith) _ refl)
          (Inv-round f fs visited inv))

  pub collect-Reads : (o : Outside) → Reads (collect_key_subtree o root) db IsSubtree DbFailure
  unfolding collect_key_subtree
  collect-Reads o = record {
    at =
        (walk-Reads o (suc (length db.api_keys)) (root ∷ []) (root ∷ [])
          (inr (omega (arith, unvisited-le-length (root ∷ []) db.api_keys))) Inv-start).at;
  }

-- The walk comes to an end on any tables, cycles of parents included: it returns exactly the ids
-- at or below the root, fails only where the database does, and changes no table.
pub collect_key_subtree-Reads :
    (o : Outside) (db : Db) (root : Uuid)
    → Reads (collect_key_subtree o root) db (IsSubtree db root) DbFailure
collect_key_subtree-Reads o db root = collect-Reads db root o
