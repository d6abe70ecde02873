-- ===== src/Gids.antt =====
-- src/rmw_get_gid_for_publisher.c and src/rmw_compare_gids_equal.c.
pub mod Compare
use rmw_microxrcedds.Base.{
  ℕ, zero, suc, ◌+◌, ◌-◌, ◌≤◌, ◌≡◌, ◌≢◌, refl, sym, ap, subst, Bool, true, false, not, ◌&&◌, Option,
  none, some, List, [], ◌∷◌, ◌++◌, ltb, ◌==◌, length, length-append, arith, if◌then◌else◌,
}
use rmw_microxrcedds.Memory.{Ptr}
use rmw_microxrcedds.Handles.{Ret, ok, error, invalid_argument, incorrect_rmw_implementation}

-- `rmw_gid_t`. The identifiers are compared by their addresses.
pub record Gid : Type 0 where
  pub implementation_identifier : Ptr
  pub bytes : List ℕ

-- `rmw_publisher_t`
pub record PublisherHandle : Type 0 where
  pub implementation_identifier : Ptr
  pub element : Ptr

-- `memset` with 0, of a buffer that is written from its start.
unfoldable pub zeros : ℕ → List ℕ
zeros zero = []
zeros (suc n) = 0 ∷ zeros n

-- `memcmp(…) == 0` on the first bytes of two places in memory.
unfoldable pub memcmp_is_zero : ℕ → List ℕ → List ℕ → Bool
memcmp_is_zero zero xs ys = true
memcmp_is_zero (suc n) [] ys = false
memcmp_is_zero (suc n) (x ∷ xs) [] = false
memcmp_is_zero (suc n) (x ∷ xs) (y ∷ ys) = (x == y) && memcmp_is_zero n xs ys

-- `identifier` is the address that `rmw_get_implementation_identifier` returns, `id_size` is
-- `sizeof(uxrObjectId)`, `storage` is RMW_GID_STORAGE_SIZE, and `publisher_id` gives the bytes that
-- stand in memory for the field `publisher_id` of a publisher.
module _ (identifier : Ptr) (id_size storage : ℕ) (publisher_id : Ptr → List ℕ) where
  unfoldable pub rmw_get_gid_for_publisher : Option PublisherHandle → Option Gid → Ret × Option Gid
  unfolding zeros
  rmw_get_gid_for_publisher none gid = (invalid_argument, gid)
  rmw_get_gid_for_publisher (some publisher) none = (invalid_argument, none)
  rmw_get_gid_for_publisher (some publisher) (some gid) =
      if not (publisher.implementation_identifier == identifier)
      then (incorrect_rmw_implementation, some gid)
      else if ltb storage id_size
      then (error, some gid)
      else (
        ok,
        some (record (gid) { bytes = publisher_id publisher.element ++ zeros (storage - id_size) }),
      )

-- `gid_size` is `sizeof(rmw_gid_t)`, and `beyond1` and `beyond2` are what stands in memory behind
-- the bytes of the two gids. The last component is the flag `result`.
unfoldable pub rmw_compare_gids_equal :
    (identifier : Ptr)
    → (gid_size : ℕ) → (beyond1 beyond2 : List ℕ) → (gid1 gid2 : Option Gid) → (result : Bool)
    → Ret × Bool
unfolding memcmp_is_zero
rmw_compare_gids_equal identifier gid_size beyond1 beyond2 none gid2 result =
    (invalid_argument, result)
rmw_compare_gids_equal identifier gid_size beyond1 beyond2 (some gid1) none result =
    (invalid_argument, result)
rmw_compare_gids_equal identifier gid_size beyond1 beyond2 (some gid1) (some gid2) result =
    if not (gid1.implementation_identifier == identifier)
    then (incorrect_rmw_implementation, result)
    else if not (gid2.implementation_identifier == identifier)
    then (incorrect_rmw_implementation, result)
    else (ok, memcmp_is_zero gid_size (gid1.bytes ++ beyond1) (gid2.bytes ++ beyond2))
