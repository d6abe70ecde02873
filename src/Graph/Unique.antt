-- ===== src/Graph/Unique.antt =====
-- What the loop over the entities lists for rmw_get_topic_names_and_types and
-- rmw_get_service_names_and_types.
use mathlib.Core.List.{append_assoc, append-nil}
use rmw_microxrcedds.Base.{
  ℕ, ◌+◌, ◌-◌, ◌≡◌, ◌⊎◌, refl, sym, ◌∙◌, subst, ap, ap₂, Bool, Bool-cases, inl, inr, true, false,
  ◌||◌, List, [], ◌∷◌, ◌++◌, ◌==◌, map, length, arith, eq_of_==,
}
use rmw_microxrcedds.Types.{Bytes}
use rmw_microxrcedds.RequestIds.{take}
use rmw_microxrcedds.Names.Truncation.{take-short}
use rmw_microxrcedds.Handles.{Ret, ok}
use rmw_microxrcedds.Graph.{Entity, bytes_eq}
use rmw_microxrcedds.Graph.Counting.{keep}
use rmw_microxrcedds.Graph.Listing.{
  StringArrays, NamesAndTypes, included, add_entity, list_entities,
}

pub bytes_eq_refl : (t : Bytes) → bytes_eq t t ≡ true
bytes_eq_refl [] = refl
bytes_eq_refl (c ∷ t) = let e : (c == c) ≡ true = ground arith in rw e (bytes_eq_refl t)

eq_of_bytes_eq : (t u : Bytes) → bytes_eq t u ≡ true → t ≡ u
eq_of_bytes_eq [] [] h = refl
eq_of_bytes_eq [] (d ∷ u) h = absurd cc
eq_of_bytes_eq (c ∷ t) [] h = absurd cc
eq_of_bytes_eq (c ∷ t) (d ∷ u) h = elim (Bool-cases (c == d)) [
  | inl e ↦ ap₂ (λ x y. x ∷ y) (eq_of_== c d e) (eq_of_bytes_eq t u (rw e at h))
  | inr e ↦ let f = rw e at h in absurd cc
]

pub included-append :
    (x : Bytes) (xs ys : List Bytes) → included x (xs ++ ys) ≡ (included x xs || included x ys)
included-append x [] ys = refl
included-append x (y ∷ xs) ys = ground (arith, included-append x xs ys)

-- The names of the entities that are wanted.
abbrev pub wanted_names : (wanted : Entity → Bool) → List Entity → List Bytes
wanted_names wanted es = map (λ e. e.name) (keep wanted es)

-- The arrays as rcutils has them when there is memory: their capacity is the number of strings.
pub record CountsStrings (arrays : StringArrays) : Type 0 where
  pub capacity : (n : ℕ) → arrays.capacity n ≡ n
  pub names_fit : (n : ℕ) → arrays.names_fit n ≡ true
  pub types_fit : (p n : ℕ) → arrays.types_fit p n ≡ true

-- Behind the entries `earlier` every entry is a name of `all` that is not an earlier entry, cut to
-- as many bytes as there are earlier entries.
abbrev pub Cuts : (earlier all entries : List Bytes) → Type 0
Cuts earlier all [] = Unit {0}
Cuts earlier all (x ∷ xs) =
    ((name : Bytes) × (included name all ≡ true)
      × (included name earlier ≡ false)
      × (x ≡ take (length earlier) name))
    × Cuts (earlier ++ x ∷ []) all xs

Cuts-snoc :
    (earlier all xs : List Bytes) (name : Bytes)
    → Cuts earlier all xs
    → included name all ≡ true
    → included name (earlier ++ xs) ≡ false
    → Cuts earlier all (xs ++ take (length (earlier ++ xs)) name ∷ [])
Cuts-snoc earlier all [] name c is new =
    let e = append-nil earlier in
    ((name, is, subst (λ l. included name l ≡ false) e new, ap (λ l. take (length l) name) e), tt)
Cuts-snoc earlier all (x ∷ xs) name c is new =
    let e = append_assoc earlier (x ∷ []) xs in
    (
      c.0,
      subst (λ l. Cuts (earlier ++ x ∷ []) all (xs ++ take (length l) name ∷ [])) e
          (Cuts-snoc (earlier ++ x ∷ []) all xs name c.1 is
            (subst (λ l. included name l ≡ false) (sym e) new)),
    )

-- One run of a loop over entities with these names, which are among `all`.
pub record Listed (all : List Bytes) (found : NamesAndTypes) (names : List Bytes)
    (r : Ret × NamesAndTypes) : Type 0 where
  pub no_error : r.0 ≡ ok
  pub cuts : Cuts [] all r.1.names
  pub kept : (x : Bytes) → included x found.names ≡ true → included x r.1.names ≡ true
  pub covered :
      (x : Bytes) → included x names ≡ true → (i : ℕ) × (included (take i x) r.1.names ≡ true)

module _ (arrays : StringArrays) (counts : CountsStrings arrays) where
  add_entity-names :
      (found : NamesAndTypes) (e : Entity)
      → ((add_entity arrays found e).0 ≡ ok)
        × ((add_entity arrays found e).1.names
            ≡ found.names ++ take (length found.names) e.name ∷ [])
  unfolding add_entity
  add_entity-names found e =
      let n = length found.names in
      let a = counts.names_fit (n + 1) in
      let b = counts.types_fit n (length e.types) in
      let c : arrays.capacity (n + 1) - 1 ≡ n = omega (arith, counts.capacity (n + 1)) in
      (rw (a, b) refl, rw (a, b) (ap (λ k. found.names ++ take k e.name ∷ []) c))

  -- A name is the name of the entity or one of the others.
  head-or-rest :
      (n x : Bytes) (xs : List Bytes)
      → included x (n ∷ xs) ≡ true
      → (n ≡ x) ⊎ (included x xs ≡ true)
  head-or-rest n x xs i = elim (Bool-cases (bytes_eq n x)) [
    | inl e ↦ inl (eq_of_bytes_eq n x e)
    | inr e ↦ inr (rw e at i)
  ]

  covers :
      (n : Bytes) (names entries : List Bytes) (k : ℕ)
      → included (take k n) entries ≡ true
      → ((x : Bytes) → included x names ≡ true → (i : ℕ) × (included (take i x) entries ≡ true))
      → (x : Bytes) → included x (n ∷ names) ≡ true
      → (i : ℕ) × (included (take i x) entries ≡ true)
  covers n names entries k here rest x i = elim (head-or-rest n x names i) [
    | inl e ↦ (k, subst (λ t. included (take k t) entries ≡ true) e here)
    | inr j ↦ rest x j
  ]

  pub list_entities-Listed :
      (all : List Bytes) (wanted : Entity → Bool) (es : List Entity) (found : NamesAndTypes)
      → ((x : Bytes) → included x (wanted_names wanted es) ≡ true → included x all ≡ true)
      → Cuts [] all found.names
      → Listed all found (wanted_names wanted es) (list_entities arrays wanted true es found)
  unfolding list_entities
  list_entities-Listed all wanted [] found among c = record {
    no_error = refl;
    cuts = c;
    kept = λ x i. i;
    covered = λ x i. absurd cc;
  }
  list_entities-Listed all wanted (e ∷ es) found among c = elim (Bool-cases (wanted e)) [
    | inr no' ↦ rw no' (list_entities-Listed all wanted es found (λ x i. among x (rw no' i)) c)
    | inl yes' ↦
        let first : wanted_names wanted (e ∷ es) ≡ e.name ∷ wanted_names wanted es = rw yes' refl in
        let here : included e.name all ≡ true =
          among e.name (rw (first, bytes_eq_refl e.name) refl) in
        let rest : (x : Bytes)
            → included x (wanted_names wanted es) ≡ true
            → included x all ≡ true =
          λ x i. among x (rw first (ground (arith, i))) in
        elim (Bool-cases (included e.name found.names)) [
          | inl old ↦
              let ih = list_entities-Listed all wanted es found rest c in
              let whole = take-short (length e.name) e.name (omega arith) in
              rw (yes', old)
                (record {
                  no_error = ih.no_error;
                  cuts = ih.cuts;
                  kept = ih.kept;
                  covered =
                      covers e.name (wanted_names wanted es) _ (length e.name)
                        (subst
                          (λ t.
                            included t (list_entities arrays wanted true es found).1.names ≡ true)
                          (sym whole) (ih.kept e.name old))
                        ih.covered;
                })
          | inr new ↦
              let added = add_entity-names found e in
              let n = length found.names in
              let found1 = (add_entity arrays found e).1 in
              let c1 : Cuts [] all found1.names =
                subst (λ l. Cuts [] all l) (sym added.1)
                  (Cuts-snoc [] all found.names e.name c here new) in
              let ih = list_entities-Listed all wanted es found1 rest c1 in
              let now : (x : Bytes)
                  → included x found1.names
                    ≡ (included x found.names || included x (take n e.name ∷ [])) =
                λ x.
                  ap (λ l. included x l) added.1
                  ∙ included-append x found.names (take n e.name ∷ []) in
              let self = bytes_eq_refl (take n e.name) in
              rw (yes', new)
                (rw added.0 (record {
                  no_error = ih.no_error;
                  cuts = ih.cuts;
                  kept = λ x i. ih.kept x (ground (arith, now x, i));
                  covered =
                      covers e.name (wanted_names wanted es) _ n
                        (ih.kept (take n e.name) (ground (arith, now (take n e.name), self)))
                        ih.covered;
                }))
        ]
  ]
