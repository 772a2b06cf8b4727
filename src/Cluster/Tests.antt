-- ===== src/Cluster/Tests.antt =====
-- Concrete clusters, on which each property of them applies.
use mcvirt.Base.{true, [], ◌∷◌, ◌≡◌, refl}
use mcvirt.Base.Lists.{contains, remove}
use mcvirt.Base.Exec.{ok}
use mcvirt.Cluster.{Members, all_nodes, get_compatible_nodes}
use mcvirt.Cluster.Compatible.{in_every, get_compatible_nodes-contains}
use mcvirt.Cluster.Skipped.{all_different, kept, get_compatible_nodes-kept}

abbrev members : Members
members = record { hostname = "a"; nodes = "b" ∷ "c" ∷ [] }

different : all_different (all_nodes true members) ≡ true
unfolding all_different all_nodes contains
different = refl

found_all : get_compatible_nodes (("a" ∷ []) ∷ []) members ≡ ok ("c" ∷ "a" ∷ [])
unfolding get_compatible_nodes contains remove
found_all = refl

suits_example : contains ("c" ∷ "a" ∷ []) "a" ≡ true
unfolding all_nodes contains in_every
suits_example =
    get_compatible_nodes-contains (("a" ∷ []) ∷ []) members ("c" ∷ "a" ∷ []) "a" found_all refl refl

kept_example :
    get_compatible_nodes (("a" ∷ []) ∷ []) members ≡ ok (kept ("a" ∷ []) (all_nodes true members))
kept_example = get_compatible_nodes-kept ("a" ∷ []) members different
