-- ===== src/Replay/Table.antt =====
-- The map of the guard: what a lookup finds after an insertion or a sweep.
use simply_firewall.Prelude.{
  ◌≡◌, ◌≤◌, refl, ap, ◌↔◌, Bool, true, not, none, some, List, [], ◌∷◌, if◌then◌else◌, is_some_and,
  ltb, keep, text_eq_iff, arith, Bool-cases, inl, inr,
}
use simply_firewall.Replay.{Instant, SignatureId, Entry, same_id, get, insert, is_live}

pub same_id_iff : (a b : SignatureId) → (same_id a b ≡ true) ↔ (a ≡ b)
unfolding same_id
same_id_iff a b = ground (arith, text_eq_iff a.digest b.digest)

-- Keys are distinct.
abbrev pub IsMap : List Entry → Type 0
IsMap [] = Unit
IsMap (e ∷ es) = (get e.id es ≡ none) × IsMap es

abbrev without : SignatureId → List Entry → List Entry
without id es = keep (λ e. not (same_id id e.id)) es

get-without :
    (id j : SignatureId) (es : List Entry)
    → get j (without id es) ≡ (if same_id id j then none else get j es)
unfolding get
get-without id j [] = ground arith
get-without id j (e ∷ es) =
    ground (arith, get-without id j es, same_id_iff id j, same_id_iff id e.id, same_id_iff j e.id)

pub get-insert :
    (id j : SignatureId) (t : Instant) (es : List Entry)
    → get j (insert id t es) ≡ (if same_id j id then some t else get j es)
unfolding get insert
get-insert id j t es = ground (arith, get-without id j es, same_id_iff id j, same_id_iff j id)

get-keep-none :
    (p : Entry → Bool) (id : SignatureId) (es : List Entry)
    → get id es ≡ none
    → get id (keep p es) ≡ none
unfolding get
get-keep-none p id [] h = h
get-keep-none p id (e ∷ es) h = ground (arith, get-keep-none p id es)

pub IsMap-keep : (p : Entry → Bool) (es : List Entry) → IsMap es → IsMap (keep p es)
IsMap-keep p [] h = tt
IsMap-keep p (e ∷ es) (out, h) = elim (Bool-cases (p e)) [
  | inl t ↦ rw t (get-keep-none p e.id es out, IsMap-keep p es h)
  | inr f ↦ rw f (IsMap-keep p es h)
]

pub IsMap-insert :
    (id : SignatureId) (t : Instant) (es : List Entry) → IsMap es → IsMap (insert id t es)
unfolding insert
IsMap-insert id t es h = (
  ground (arith, get-without id id es, same_id_iff id id),
  IsMap-keep (λ e. not (same_id id e.id)) es h,
)

-- What a lookup finds live at `t`.
abbrev pub finds_live : Instant → SignatureId → List Entry → Bool
finds_live t id es = is_some_and (get id es) (λ expires_at. ltb t expires_at)

-- A sweep removes nothing that is live then or later.
pub finds_live-sweep :
    (now t : Instant) (id : SignatureId) (es : List Entry)
    → IsMap es
    → now ≤ t
    → finds_live t id (keep (is_live now) es) ≡ finds_live t id es
unfolding get
finds_live-sweep now t id [] h le = refl
finds_live-sweep now t id (e ∷ es) (out, h) le = ground (
  arith,
  finds_live-sweep now t id es h le,
  same_id_iff id e.id,
  λ (q : id ≡ e.id). ap (λ i. get i es) q,
)
