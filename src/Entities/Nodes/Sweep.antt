-- ===== src/Entities/Nodes/Sweep.antt =====
-- The loop of rmw_destroy_node over a pool from which it takes items.
use mathlib.Core.List.{append_assoc}
use rmw_microxrcedds.Base.{
  ℕ, zero, suc, ◌<◌, ◌≡◌, ◌≢◌, refl, sym, subst, ap, ◌∙◌, Bool, Bool-cases, inl, inr, true, false,
  some, List, [], ◌∷◌, ◌++◌, ◌==◌, length, has, has-append, has_middle, arith, if◌then◌else◌,
}
use rmw_microxrcedds.Memory.{Ptr, null, Items, Mempool}
use rmw_microxrcedds.Memory.Lists.{DList}
use rmw_microxrcedds.Memory.Static.{IsStatic}
use rmw_microxrcedds.State.{Globals}
use rmw_microxrcedds.Handles.{Ret}
use rmw_microxrcedds.Entities.Nodes.{destroy_owned}

-- The first item of a list, or NULL.
abbrev pub head_of : List Ptr → Ptr
head_of [] = null
head_of (x ∷ xs) = x

pub head_of-DList : (h : Items) (r p : Ptr) (xs : List Ptr) → DList h r p xs → p ≡ head_of xs
head_of-DList h r p [] d = d
head_of-DList h r p (x ∷ xs) d = d.0

-- Behind an item of a list the rest of the list follows.
pub DList-next :
    (h : Items) (r p x : Ptr) (before after : List Ptr)
    → DList h r p (before ++ x ∷ after)
    → (x ≢ null) × ((h x).next ≡ head_of after)
DList-next h r p x [] after (e, ne, back, d) = (ne, head_of-DList h x (h x).next after d)
DList-next h r p x (y ∷ before) after (e, ne, back, d) = DList-next h y (h y).next x before after d

-- The items that are not passed by a test.
abbrev pub others : (Ptr → Bool) → List Ptr → List Ptr
others test [] = []
others test (x ∷ xs) = if test x then others test xs else x ∷ others test xs

pub others-same :
    (test test' : Ptr → Bool) (xs : List Ptr)
    → ((a : Ptr) → has a xs ≡ true → test' a ≡ test a)
    → others test' xs ≡ others test xs
others-same test test' [] same = refl
others-same test test' (x ∷ xs) same =
    let e = same x (ground arith) in
    let ih = others-same test test' xs (λ a i. same a (ground arith)) in ground (arith, e, ih)

-- The free items once those that pass a test have been given back, one after the other.
abbrev pub released : (Ptr → Bool) → (items idle : List Ptr) → List Ptr
released test [] idle = idle
released test (x ∷ xs) idle = if test x then released test xs (x ∷ idle) else released test xs idle

released-same :
    (test test' : Ptr → Bool) (xs idle : List Ptr)
    → ((a : Ptr) → has a xs ≡ true → test' a ≡ test a)
    → released test' xs idle ≡ released test xs idle
released-same test test' [] idle same = refl
released-same test test' (x ∷ xs) idle same =
    let e = same x (ground arith) in
    let ih = released-same test test' xs idle (λ a i. same a (ground arith)) in
    let ih' = released-same test test' xs (x ∷ idle) (λ a i. same a (ground arith)) in
    rw (e, ih, ih') refl

module _ {M A : Type 0} (pool : Globals M → Mempool A) (owner_node : Globals M → Ptr → Ptr)
    (destroy : Globals M → Ptr → Ret × Globals M) (custom_node : Ptr)
    (Good : Globals M → List Ptr → Type 0) where
  -- What destroying an item has to do; `idle` are then the free items, the destroyed one first.
  pub record Removed (g g' : Globals M) (before after idle : List Ptr) : Type 0 where
    pub static : IsStatic (pool g') (before ++ after) idle
    pub good : Good g' (before ++ after)
    pub owners : (a : Ptr) → owner_node g' a ≡ owner_node g a

  abbrev pub owned : Globals M → Ptr → Bool
  owned g a = owner_node g a == custom_node

  -- What the loop leaves of the items in `todo`, behind those in `kept`.
  pub record Swept (g g' : Globals M) (kept todo idle : List Ptr) : Type 0 where
    pub static : IsStatic (pool g') (kept ++ others (owned g) todo) (released (owned g) todo idle)
    pub good : Good g' (kept ++ others (owned g) todo)
    pub owners : (a : Ptr) → owner_node g' a ≡ owner_node g a

  module _
      (step : (g : Globals M) (x : Ptr) (before after idle : List Ptr)
        → IsStatic (pool g) (before ++ x ∷ after) idle
        → Good g (before ++ x ∷ after)
        → Removed g (destroy g x).1 before after (x ∷ idle)) where
    pub destroy_owned-Swept :
        (fuel : ℕ) (g : Globals M) (kept todo idle : List Ptr) (ret : Ret)
        → length todo < fuel
        → IsStatic (pool g) (kept ++ todo) idle
        → Good g (kept ++ todo)
        → (r : Ret) × (g' : Globals M) × (destroy_owned fuel
              (λ s p. (pool s).items p)
              owner_node
              destroy
              custom_node
              g
              (head_of todo)
              ret
            ≡ some (r, g'))
          × Swept g g' kept todo idle
    unfolding destroy_owned
    destroy_owned-Swept zero g kept todo idle ret lt is good = absurd (omega arith)
    destroy_owned-Swept (suc fuel) g kept [] idle ret lt is good =
        (ret, g, refl, record { static = is; good = good; owners = λ a. refl })
    destroy_owned-Swept (suc fuel) g kept (x ∷ rest) idle ret lt is good =
        let (ne, next) =
          DList-next (pool g).items null (pool g).allocateditems x kept rest is.pool.allocated in
        let f : (x == null) ≡ false = ground arith in
        let own : ((pool g).items x).element ≡ x =
          is.own x
            (ground (arith, has-append x (kept ++ x ∷ rest) idle, has_middle x x kept rest)) in
        let shift : (l : List Ptr) → (kept ++ x ∷ []) ++ l ≡ kept ++ x ∷ l =
          λ l. append_assoc kept (x ∷ []) l in
        elim (Bool-cases (owned g x)) [
          | inl mine ↦
              let s = step g x kept rest idle is good in
              let (r, g', e, w) =
                destroy_owned-Swept fuel (destroy g x).1 kept rest (x ∷ idle) (destroy g x).0
                  (omega arith) s.static s.good in
              let same =
                others-same (owned g) (owned (destroy g x).1) rest
                  (λ a i. ap (λ o. o == custom_node) (s.owners a)) in
              let gone : others (owned g) (x ∷ rest) ≡ others (owned g) rest = rw mine refl in
              let l = same ∙ sym gone in
              let given =
                released-same (owned g) (owned (destroy g x).1) rest (x ∷ idle)
                  (λ a i. ap (λ o. o == custom_node) (s.owners a)) in
              let back : released (owned g) (x ∷ rest) idle ≡ released (owned g) rest (x ∷ idle) =
                rw mine refl in
              (
                r,
                g',
                rw (destroy_owned, f, own, mine, next) e,
                record {
                  static =
                      subst (λ i. IsStatic (pool g') (kept ++ others (owned g) (x ∷ rest)) i)
                        (given ∙ sym back)
                        (subst
                          (λ k.
                            IsStatic (pool g') (kept ++ k)
                              (released (owned (destroy g x).1) rest (x ∷ idle)))
                          l w.static);
                  good = subst (λ k. Good g' (kept ++ k)) l w.good;
                  owners = λ a. w.owners a ∙ s.owners a;
                },
              )
          | inr other ↦
              let (r, g', e, w) =
                destroy_owned-Swept fuel g (kept ++ x ∷ []) rest idle ret (omega arith)
                  (subst (λ k. IsStatic (pool g) k idle) (sym (shift rest)) is)
                  (subst (λ k. Good g k) (sym (shift rest)) good) in
              let stays : others (owned g) (x ∷ rest) ≡ x ∷ others (owned g) rest = rw other refl in
              let unchanged : released (owned g) (x ∷ rest) idle ≡ released (owned g) rest idle =
                rw other refl in
              let l = shift (others (owned g) rest) ∙ sym (ap (λ k. kept ++ k) stays) in
              (
                r,
                g',
                rw (destroy_owned, f, own, other, next) e,
                record {
                  static =
                      subst (λ i. IsStatic (pool g') (kept ++ others (owned g) (x ∷ rest)) i)
                        (sym unchanged)
                        (subst (λ k. IsStatic (pool g') k (released (owned g) rest idle)) l
                          w.static);
                  good = subst (λ k. Good g' k) l w.good;
                  owners = w.owners;
                },
              )
        ]
