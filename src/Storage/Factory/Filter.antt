-- ===== src/Storage/Factory/Filter.antt =====
-- Which storage backends `get_all` of mcvirt/storage/factory.py lists.
use mcvirt.Base.{
  String, Bool, true, false, Option, none, some, List, [], ◌∷◌, eq_refl, ◌≡◌, refl, arith,
}
use mcvirt.Base.Lists.{contains, filter}
use mcvirt.Base.Dict.{Dict, keys, lookup}
use mcvirt.Base.Exec.{ok}
use mcvirt.Storage.Backend.{Storage, Backend, local_backends, assert_manage}
use mcvirt.Storage.Factory.{Wanted, listed, select, get_all}
use mcvirt.Storage.Factory.Meets.{meets, Gives, and_then-Gives, contains-lookup, IsListable}
use mcvirt.Storage.Factory.Matches.{listed-Gives}

found_meets : Wanted → String → Option Backend → Bool
unfolding meets
found_meets w host none = false
found_meets w host (some config) = meets w host config

-- The ids of the backends whose configuration meets the filter, in the order of the configuration.
pub meeting : Wanted → String → Dict Backend → List String → List String
unfolding found_meets
meeting w host backends ids = filter (λ id. found_meets w host (lookup id backends)) ids

module _ {K : Type 0} (s : Storage K) (w : Wanted) (granted : assert_manage s ≡ (ok tt, s))
    (listable : (id : String) (config : Backend)
      → lookup id (local_backends s) ≡ some config
      → IsListable w s.hostname config) where
  -- The loop, over ids that the configuration has.
  select-Gives :
      (ids : List String)
      → ((id : String) → contains ids id ≡ true → contains (keys (local_backends s)) id ≡ true)
      → Gives (select w ids s) s (meeting w s.hostname (local_backends s) ids)
  unfolding select meeting filter found_meets contains
  select-Gives [] present = refl
  select-Gives (id ∷ ids) present =
      let (config, found) =
        contains-lookup id (local_backends s) (present id (ground (arith, eq_refl id))) in
      and_then-Gives (listed w id s) _ s (meets w s.hostname config) _
        (listed-Gives s id config granted found w (listable id config found))
        (and_then-Gives (select w ids s) _ s (meeting w s.hostname (local_backends s) ids) _
          (select-Gives ids (λ other there. present other (ground arith))) (rw found refl))

  -- For a request that may manage storage and has been checked, and where the types of the backends
  -- and the one that is asked for are known, and this node has every backend if a default location
  -- is asked for, the list is that of the backends in the configuration of this node that meet the
  -- filter, in order, where a type that is asked for is met by the backends of all other types;
  -- nothing is changed.
  pub get_all-meeting :
      get_all w s ≡ (ok (meeting w s.hostname (local_backends s) (keys (local_backends s))), s)
  unfolding get_all
  get_all-meeting = select-Gives (keys (local_backends s)) (λ id present. present)
