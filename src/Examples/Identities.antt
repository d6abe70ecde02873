-- ===== src/Examples/Identities.antt =====
-- The theorem on the comparison of gids, applied to two gids of one publisher. A gid is eight bytes
-- larger than its bytes, and what stands behind them differs: the gids are not equal.
use rmw_microxrcedds.Base.{ℕ, ◌≡◌, refl, arith, false, true, some, List, [], ◌∷◌}
use rmw_microxrcedds.Handles.{ok}
use rmw_microxrcedds.Gids.{
  Gid, PublisherHandle, memcmp_is_zero, rmw_compare_gids_equal, rmw_get_gid_for_publisher,
}
use rmw_microxrcedds.Gids.Compare.{rmw_compare_gids_equal-publishers}

abbrev publisher_id : ℕ → List ℕ
publisher_id p = p ∷ 0 ∷ 3 ∷ 0 ∷ []

abbrev publisher : PublisherHandle
publisher = record { implementation_identifier = 700; element = 5 }

abbrev empty_gid : Gid
empty_gid = record { implementation_identifier = 700; bytes = [] }

rmw_compare_gids_equal-publishers_example :
    rmw_compare_gids_equal 700 32
      (1 ∷ 1 ∷ 1 ∷ 1 ∷ 1 ∷ 1 ∷ 1 ∷ 1 ∷ [])
      (1 ∷ 1 ∷ 1 ∷ 1 ∷ 1 ∷ 1 ∷ 1 ∷ 2 ∷ [])
      (rmw_get_gid_for_publisher 700 4 24 publisher_id (some publisher) (some empty_gid)).1
      (rmw_get_gid_for_publisher 700 4 24 publisher_id (some publisher) (some empty_gid)).1
      true
    ≡ (ok, false)
unfolding memcmp_is_zero
rmw_compare_gids_equal-publishers_example =
    rmw_compare_gids_equal-publishers 700 4 24 publisher_id (omega arith) publisher publisher
      empty_gid empty_gid 8 (1 ∷ 1 ∷ 1 ∷ 1 ∷ 1 ∷ 1 ∷ 1 ∷ 1 ∷ [])
      (1 ∷ 1 ∷ 1 ∷ 1 ∷ 1 ∷ 1 ∷ 1 ∷ 2 ∷ []) true refl refl refl refl refl refl
