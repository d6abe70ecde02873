-- ===== src/Xml/Profiles.antt =====
-- When a profile name fits, and which topic names reach the agent whole.
use rmw_microxrcedds.Base.{
  ℕ, ◌-◌, ◌<◌, ◌≡◌, ◌↔◌, ap, true, [], ◌∷◌, ◌++◌, length, length-append, arith,
}
use rmw_microxrcedds.Types.{Bytes}
use rmw_microxrcedds.RequestIds.{take, drop}
use rmw_microxrcedds.Names.Truncation.{take-short}
use rmw_microxrcedds.Xml.{
  bytes, build_profile, build_topic_profile, build_datawriter_profile, build_datareader_profile,
}

-- Is the profile the whole text, in a buffer that holds it?
abbrev pub IsWhole : (profile : Bytes) → (topic_name subfix : Bytes) → (buffer_size : ℕ) → Type 0
IsWhole profile topic_name subfix buffer_size =
    (profile ≡ drop 1 topic_name ++ subfix) × (length profile < buffer_size)

build_profile-IsWhole :
    (c : ℕ) (subfix topic_name : Bytes) (size : ℕ)
    → let r = build_profile (c ∷ subfix) topic_name size in
      (r.1 ≡ true) ↔ IsWhole r.0 topic_name (c ∷ subfix) size
unfolding build_profile
build_profile-IsWhole c subfix topic_name size =
    let text = drop 1 topic_name ++ c ∷ subfix in
    let n = length-append (drop 1 topic_name) (c ∷ subfix) in
    (
      λ h.
          let lt : length text < size = ground arith in
          let e = take-short (size - 1) text (omega arith) in (e, rw e lt),
      λ w.
          let l : length (take (size - 1) text) ≡ length text = ap length w.0 in
          let lt : length text < size = omega (arith, w.1) in ground arith,
    )

-- The three functions that name a profile return true exactly if the buffer holds the whole name:
-- the topic name without its first byte, and the subfix of the kind of entity.
pub build_profiles-IsWhole :
    (topic_name : Bytes) (size : ℕ)
    → (((build_topic_profile topic_name size).1 ≡ true)
        ↔ IsWhole (build_topic_profile topic_name size).0 topic_name (bytes "__t") size)
      × (((build_datawriter_profile topic_name size).1 ≡ true)
          ↔ IsWhole (build_datawriter_profile topic_name size).0 topic_name (bytes "__dw") size)
      × (((build_datareader_profile topic_name size).1 ≡ true)
          ↔ IsWhole (build_datareader_profile topic_name size).0 topic_name (bytes "__dr") size)
unfolding build_topic_profile build_datawriter_profile build_datareader_profile
build_profiles-IsWhole topic_name size = (
  build_profile-IsWhole 95 (95 ∷ 116 ∷ []) topic_name size,
  build_profile-IsWhole 95 (95 ∷ 100 ∷ 119 ∷ []) topic_name size,
  build_profile-IsWhole 95 (95 ∷ 100 ∷ 114 ∷ []) topic_name size,
)
