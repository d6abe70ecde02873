-- ===== src/Memory/Walk.antt =====
-- The loop that most of the code runs over a pool: `item = mem->allocateditems; while (item !=
-- NULL) { if (test) break; item = item->next; }`.
use rmw_microxrcedds.Base.{
  ℕ, zero, suc, ◌<◌, ◌≡◌, Bool, true, false, Option, none, some, List, [], ◌∷◌, arith, ◌==◌,
  if◌then◌else◌, length, Bool-cases, inl, inr,
}
use rmw_microxrcedds.Memory.{Ptr, null, Items}
use rmw_microxrcedds.Memory.Lists.{DList}

-- `none` means that the fuel ran out; `some null` that no item passed the test.
unfoldable pub walk : (fuel : ℕ) → Items → Ptr → (Ptr → Bool) → Option Ptr
walk zero h p test = none
walk (suc fuel) h p test =
    let rest = walk fuel h (h p).next test in
    if p == null then some null else (if test p then some p else rest)

unfoldable pub first : (Ptr → Bool) → List Ptr → Ptr
first test [] = null
first test (x ∷ xs) = if test x then x else first test xs

-- Over a list the loop ends, if the fuel exceeds the length, and finds the first item.
pub walk-first :
    (fuel : ℕ) (h : Items) (r p : Ptr) (test : Ptr → Bool) (xs : List Ptr)
    → DList h r p xs
    → length xs < fuel
    → walk fuel h p test ≡ some (first test xs)
unfolding walk first
walk-first zero h r p test xs d lt = absurd (omega arith)
walk-first (suc fuel) h r p test [] d lt = let e : (p == null) ≡ true = ground arith in rw e
walk-first (suc fuel) h r p test (x ∷ xs) (e, ne, _, d) lt =
    let f : (x == null) ≡ false = ground arith in
    let ih = walk-first fuel h x (h x).next test xs d (omega arith) in
    rw (e, f) (elim (Bool-cases (test x)) [ inl t ↦ rw t | inr t ↦ rw t ih ])
