-- ===== src/Buffers/Taken.antt =====
-- Finding the first buffer of an owner and giving it back: what the receiving functions do to the
-- mailboxes.
use rmw_microxrcedds.Base.{
  ℕ, suc, ◌<◌, ◌≡◌, refl, sym, ap, subst, ◌∙◌, Bool, true, false, ◌⊎◌, inl, inr, Option, some, List,
  [], ◌∷◌, ◌++◌, arith, ◌==◌, if◌then◌else◌, length, Bool-cases, eq_of_==,
}
use rmw_microxrcedds.Memory.{Ptr, null, Items, Mempool, put_memory}
use rmw_microxrcedds.Memory.Lists.{DList}
use rmw_microxrcedds.Memory.Static.{IsStatic, put_memory-IsStatic}
use rmw_microxrcedds.Memory.Walk.{first, walk-first}
use rmw_microxrcedds.Types.{
  StaticInputBuffer, Owner, owner_eq, nobody, subscription, service, client,
}
use rmw_microxrcedds.Buffers.{buffer_at, find_static_input_buffer_by_owner}
use rmw_microxrcedds.Buffers.Mailbox.{mailbox, mailbox-Keeps}

pub owner_eq_refl : (a : Owner) → owner_eq a a ≡ true
unfolding owner_eq
owner_eq_refl nobody = refl
owner_eq_refl (subscription p) = ground arith
owner_eq_refl (service p) = ground arith
owner_eq_refl (client p) = ground arith

pub eq_of_owner_eq : (a b : Owner) → owner_eq a b ≡ true → a ≡ b
unfolding owner_eq
eq_of_owner_eq nobody nobody h = refl
eq_of_owner_eq (subscription p) (subscription q) h = ap subscription (eq_of_== p q h)
eq_of_owner_eq (service p) (service q) h = ap service (eq_of_== p q h)
eq_of_owner_eq (client p) (client q) h = ap client (eq_of_== p q h)
eq_of_owner_eq nobody _ h = cc
eq_of_owner_eq (subscription p) _ h = cc
eq_of_owner_eq (service p) _ h = cc
eq_of_owner_eq (client p) _ h = cc

mailbox-append :
    (m : Mempool StaticInputBuffer) (xs ys : List Ptr) (o : Owner)
    → mailbox m (xs ++ ys) o ≡ mailbox m xs o ++ mailbox m ys o
unfolding mailbox
mailbox-append m [] ys o = refl
mailbox-append m (x ∷ xs) ys o = ground (arith, mailbox-append m xs ys o)

abbrev mine : Mempool StaticInputBuffer → Owner → Ptr → Bool
mine m owner x = owner_eq (buffer_at m x).owner owner

-- `x` is the first allocated item whose buffer belongs to the owner.
pub record Found (m : Mempool StaticInputBuffer) (used : List Ptr) (owner : Owner) (x : Ptr)
    : Type 0 where
  pub before : List Ptr
  pub after : List Ptr
  pub split : used ≡ before ++ x ∷ after
  pub owned : (buffer_at m x).owner ≡ owner
  pub none_before : mailbox m before owner ≡ []

first-cases :
    (m : Mempool StaticInputBuffer) (owner : Owner) (used : List Ptr)
    → ((first (mine m owner) used ≡ null) × (mailbox m used owner ≡ []))
      ⊎ Found m used owner (first (mine m owner) used)
unfolding first mailbox
first-cases m owner [] = inl (refl, refl)
first-cases m owner (x ∷ xs) = elim (Bool-cases (mine m owner x)) [
  | inl yes' ↦ rw yes' (
      inr (record {
        before = [];
        after = xs;
        split = refl;
        owned = eq_of_owner_eq _ owner yes';
        none_before = refl;
      }))
  | inr no' ↦ rw no' (elim (first-cases m owner xs) [
    | inl (a, b) ↦ inl (a, b)
    | inr f ↦ inr (record {
      before = x ∷ f.before;
      after = f.after;
      split = ap (λ l. x ∷ l) f.split;
      owned = f.owned;
      none_before = rw no' f.none_before;
    })
  ])
]

-- What taking did: the owner's first sample `b` is gone, every other mailbox is as before.
pub record Taken (m n : Mempool StaticInputBuffer) (used idle : List Ptr) (owner : Owner)
    (b : StaticInputBuffer) : Type 0 where
  pub left : List Ptr
  pub free : Ptr
  pub static : IsStatic n left (free ∷ idle)
  pub taken : mailbox m used owner ≡ b ∷ mailbox n left owner
  pub mailboxes :
      (o : Owner)
      → mailbox m used o ≡ (if owner_eq owner o then b ∷ mailbox n left o else mailbox n left o)
  pub mutex : n.mutex ≡ m.mutex
  pub dynamic_allowed : n.is_dynamic_allowed ≡ m.is_dynamic_allowed
  pub fewer : length used ≡ suc (length left)

length-middle : (x : Ptr) (xs ys : List Ptr) → length (xs ++ x ∷ ys) ≡ suc (length (xs ++ ys))
length-middle x [] ys = refl
length-middle x (y ∷ xs) ys = ap suc (length-middle x xs ys)

module _ (m : Mempool StaticInputBuffer) (owner : Owner) (x : Ptr) (before after : List Ptr)
    (owned : (buffer_at m x).owner ≡ owner) (none_before : mailbox m before owner ≡ []) where
  mailbox-found :
      mailbox m (before ++ x ∷ after) owner ≡ buffer_at m x ∷ mailbox m (before ++ after) owner
  unfolding mailbox
  mailbox-found =
      let hit : owner_eq (buffer_at m x).owner owner ≡ true = rw owned (owner_eq_refl owner) in
      rw
        (
          mailbox-append m before (x ∷ after) owner,
          mailbox-append m before after owner,
          none_before,
        )
        (rw hit)

  mailbox-passed :
      (o : Owner)
      → owner_eq owner o ≡ false
      → mailbox m (before ++ x ∷ after) o ≡ mailbox m (before ++ after) o
  unfolding mailbox
  mailbox-passed o other =
      let miss : owner_eq (buffer_at m x).owner o ≡ false = rw owned other in
      rw (mailbox-append m before (x ∷ after) o, mailbox-append m before after o) (rw miss)

  mailbox-all :
      (o : Owner)
      → mailbox m (before ++ x ∷ after) o ≡ (
          if owner_eq owner o
          then buffer_at m x ∷ mailbox m (before ++ after) o
          else mailbox m (before ++ after) o)
  mailbox-all o = elim (Bool-cases (owner_eq owner o)) [
    | inl same ↦ rw same (
        subst
          (λ w. mailbox m (before ++ x ∷ after) w ≡ buffer_at m x ∷ mailbox m (before ++ after) w)
          (eq_of_owner_eq owner o same) mailbox-found)
    | inr other ↦ rw other (mailbox-passed o other)
  ]

  give_back-Taken :
      (idle : List Ptr)
      → IsStatic m (before ++ x ∷ after) idle
      → Taken m (put_memory false m x) (before ++ x ∷ after) idle owner (buffer_at m x)
  give_back-Taken idle is =
      let p = put_memory-IsStatic m x before after idle is in
      let n = put_memory false m x in
      let left = before ++ after in
      record {
        left = left;
        free = x;
        static = p.0;
        taken =
            mailbox-found ∙ ap (λ l. buffer_at m x ∷ l) (sym (mailbox-Keeps m n left owner p.1));
        mailboxes = λ o.
            mailbox-all o
            ∙ ap (λ l. if owner_eq owner o then buffer_at m x ∷ l else l)
                (sym (mailbox-Keeps m n left o p.1));
        mutex = p.1.mutex;
        dynamic_allowed = p.1.dynamic_allowed;
        fewer = length-middle x before after;
      }

-- The outcome of the search, and what giving the item back would do.
pub data Search (m : Mempool StaticInputBuffer) (used idle : List Ptr) (owner : Owner)
    (found : Option Ptr) : Type 0 where
  missing : found ≡ some null → mailbox m used owner ≡ [] → Search m used idle owner found
  present :
      (x : Ptr)
      → found ≡ some x
      → (x == null) ≡ false
      → Taken m (put_memory false m x) used idle owner (buffer_at m x)
      → Search m used idle owner found

not_null_of_split :
    (h : Items) (r p x : Ptr) (before after : List Ptr)
    → DList h r p (before ++ x ∷ after)
    → (x == null) ≡ false
not_null_of_split h r p x [] after d = ground (arith, d.1)
not_null_of_split h r p x (y ∷ before) after d = not_null_of_split h y (h y).next x before after d.3

-- With more fuel than allocated buffers the search for an owner ends; it returns NULL exactly if
-- the owner's mailbox is empty, and otherwise an item that holds the first sample of the mailbox
-- and whose return to the pool removes this sample and no other.
pub find-Search :
    (fuel : ℕ) (m : Mempool StaticInputBuffer) (used idle : List Ptr) (owner : Owner)
    → IsStatic m used idle
    → length used < fuel
    → Search m used idle owner (find_static_input_buffer_by_owner fuel m owner)
unfolding find_static_input_buffer_by_owner
find-Search fuel m used idle owner is lt =
    let w =
      walk-first fuel m.items null m.allocateditems (mine m owner) used is.pool.allocated lt in
    elim (first-cases m owner used) [
      | inl (e, empty) ↦ missing (w ∙ ap some e) empty
      | inr f ↦
          let x = first (mine m owner) used in
          present x w
            (not_null_of_split m.items null m.allocateditems x f.before f.after
              (subst (DList m.items null m.allocateditems) f.split is.pool.allocated))
            (subst (λ l. Taken m (put_memory false m x) l idle owner (buffer_at m x)) (sym f.split)
              (give_back-Taken m owner x f.before f.after f.owned f.none_before idle
                (subst (λ l. IsStatic m l idle) f.split is)))
    ]

-- The search, for an owner without a sample and for one with a first sample `b`.
module _ (fuel : ℕ) (m : Mempool StaticInputBuffer) (used idle : List Ptr) (owner : Owner)
    (is : IsStatic m used idle) (lt : length used < fuel) where
  pub find-none :
      mailbox m used owner ≡ [] → find_static_input_buffer_by_owner fuel m owner ≡ some null
  find-none empty = go (find-Search fuel m used idle owner is lt)
    where
      go :
          Search m used idle owner (find_static_input_buffer_by_owner fuel m owner)
          → find_static_input_buffer_by_owner fuel m owner ≡ some null
      go (missing e _) = e
      go (present x e _ t) = let w = t.taken in cc

  pub record FoundFirst (b : StaticInputBuffer) (x : Ptr) : Type 0 where
    pub found : find_static_input_buffer_by_owner fuel m owner ≡ some x
    pub not_null : (x == null) ≡ false
    pub sample : buffer_at m x ≡ b
    pub given_back : Taken m (put_memory false m x) used idle owner b

  pub find-first :
      (b : StaticInputBuffer) (rest : List StaticInputBuffer)
      → mailbox m used owner ≡ b ∷ rest
      → (x : Ptr) × FoundFirst b x
  find-first b rest e = go (find-Search fuel m used idle owner is lt)
    where
      go :
          Search m used idle owner (find_static_input_buffer_by_owner fuel m owner)
          → (x : Ptr) × FoundFirst b x
      go (missing _ none') = absurd (cc)
      go (present x f nn t) =
          let same : buffer_at m x ≡ b = let w = t.taken in cc in
          (
            x,
            record {
              found = f;
              not_null = nn;
              sample = same;
              given_back = subst (Taken m (put_memory false m x) used idle owner) same t;
            },
          )
