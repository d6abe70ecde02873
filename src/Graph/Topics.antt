-- ===== src/Graph/Topics.antt =====
-- What the lists of topics and of services hold of the names.
use Prim.Native.String.{String}
use rmw_microxrcedds.Base.{ℕ, ◌≡◌, Bool, true, List, [], ◌∷◌, ◌++◌}
use rmw_microxrcedds.Types.{Bytes}
use rmw_microxrcedds.RequestIds.{take}
use rmw_microxrcedds.Graph.{Entity, Graph}
use rmw_microxrcedds.Graph.Listing.{NamesAndTypes, included}
use rmw_microxrcedds.Graph.Unique.{Cuts, wanted_names}

-- The names of the wanted entities of all nodes.
abbrev pub names_of_graph : (wanted : Entity → Bool) → Graph → List Bytes
names_of_graph wanted [] = []
names_of_graph wanted (n ∷ nodes) = wanted_names wanted n.entities ++ names_of_graph wanted nodes

-- Of every name some cut is an entry.
abbrev pub HaveCuts : (names entries : List Bytes) → Type 0
HaveCuts [] entries = Unit {0}
HaveCuts (x ∷ names) entries =
    ((i : ℕ) × (included (take i x) entries ≡ true)) × HaveCuts names entries

-- Every entry is one of the names that is not an earlier entry, cut to as many bytes as entries
-- stand before it, and of every name some cut is an entry.
abbrev pub ListsCuts : (found : NamesAndTypes) → (names : List Bytes) → Type 0
ListsCuts found names = Cuts [] names found.names × HaveCuts names found.names
