-- ===== src/Storage/Cluster/Update.antt =====
-- What `update_config` of a storage backend leaves in the configurations of the nodes.
use mcvirt.Base.{
  String, false, none, some, ◌==◌, ◌≡◌, refl, sym, ap, subst, ◌∙◌, if◌then◌else◌, inl, inr,
  Option-cases,
}
use mcvirt.Base.Dict.{Dict, lookup, insert}
use mcvirt.Base.Exec.{Result, ok, err, and_then, modify, reads, ◌>>=◌, Result-cases, ok_injective}
use mcvirt.Exceptions.{Exception}
use mcvirt.Auth.Groups.{item, found_item}
use mcvirt.Auth.Permission.{Request, assert_permission}
use mcvirt.Storage.Backend.{Storage, Backend, local_backends, assert_manage, get_backend, call}
use mcvirt.Storage.Cluster.{set_local, update_backend}

-- The configuration of a backend on every node, after that of one node was changed.
abbrev pub Updated : {K : Type 0} → String → String → Backend → Storage K → Storage K → Type 0
Updated host id changed before after =
    (node : String)
    → after.backends node
      ≡ (if node == host then insert id changed (before.backends host) else before.backends node)

item-found : {V : Type 0} (d : Dict V) (k : String) (v : V) → item d k ≡ ok v → lookup k d ≡ some v
unfolding item found_item
item-found d k v found = elim (Option-cases (lookup k d)) [
  | inl missing ↦
      subst (λ o. found_item o ≡ ok v → lookup k d ≡ some v) (sym missing) (λ e. cc) found
  | inr (w, present) ↦
      present
      ∙ subst (λ o. found_item o ≡ ok v → some w ≡ some v) (sym present)
          (λ e. ap some (ok_injective e)) found
]

module _ {K : Type 0} where
  stored :
      (s : Storage K) (id : String) (f : Backend → Result Exception Backend)
      (found : Result Exception Backend)
      → item (local_backends s) id ≡ found
      → (and_then
          (found, s)
          (λ config. reads (λ _. f config) >>= λ changed.
            modify (λ t. set_local (insert id changed (local_backends t)) t))).0
        ≡ ok tt
      → (config : Backend) × (changed : Backend) × (lookup id (local_backends s) ≡ some config)
        × (f config ≡ ok changed)
        × Updated s.hostname id changed s
            (and_then
              (found, s)
              (λ config. reads (λ _. f config) >>= λ changed.
                modify (λ t. set_local (insert id changed (local_backends t)) t))).1
  unfolding item set_local
  stored s id f (err e) same = λ done. cc
  stored s id f (ok config) same = elim (Result-cases (f config)) [
    | inr (e, fails) ↦ rw fails (λ done. cc)
    | inl (changed, works) ↦ rw works (λ done.
        (config, changed, item-found (local_backends s) id config same, works, (λ node. refl)))
  ]

  asserted :
      (r : Result Exception (Unit {0})) (q : Request) (s : Storage K) (id : String)
      (f : Backend → Result Exception Backend)
      → (and_then
          (and_then (r, record s { request = q }) (λ _. reads (λ t. item (local_backends t) id)))
          (λ config. reads (λ _. f config) >>= λ changed.
            modify (λ t. set_local (insert id changed (local_backends t)) t))).0
        ≡ ok tt
      → (config : Backend) × (changed : Backend) × (lookup id (local_backends s) ≡ some config)
        × (f config ≡ ok changed)
        × Updated s.hostname id changed s
            (and_then
              (and_then
                (r, record s { request = q })
                (λ _. reads (λ t. item (local_backends t) id)))
              (λ config. reads (λ _. f config) >>= λ changed.
                modify (λ t. set_local (insert id changed (local_backends t)) t))).1
  asserted (err e) q s id f = λ done. cc
  asserted (ok u) q s id f =
      stored (record s { request = q }) id f (item (local_backends s) id) refl

  -- An update of a backend that returns has found the backend on the node itself, and has stored
  -- there what the update makes of its configuration; the other nodes are as they were.
  pub update_backend-Updated :
      (s : Storage K) (id : String) (f : Backend → Result Exception Backend)
      → (update_backend id f s).0 ≡ ok tt
      → (config : Backend) × (changed : Backend) × (lookup id (local_backends s) ≡ some config)
        × (f config ≡ ok changed)
        × Updated s.hostname id changed s (update_backend id f s).1
  unfolding update_backend get_backend assert_manage call
  update_backend-Updated s id f =
      let a = assert_permission "MANAGE_STORAGE_BACKEND" none false s.request in
      asserted a.0 a.1 s id f
