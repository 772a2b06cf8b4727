-- ===== src/Storage/Cluster/Spread.antt =====
-- What a change of a storage backend's configuration establishes, it establishes on every node of the
-- cluster that it has returned on: `run_on_remote_nodes` for the operations of mcvirt/storage/base.py.
use mcvirt.Base.{
  String, true, false, not, ◌&&◌, none, some, List, [], ◌∷◌, ◌==◌, ◌≡◌, refl, sym, ap, subst, ◌∙◌,
  arith, if◌then◌else◌, inl, inr, Bool-cases, eq_refl, eq_iff,
}
use mcvirt.Base.Lists.{contains, contains-append}
use mcvirt.Base.Dict.{Dict, lookup, insert, lookup-insert}
use mcvirt.Base.Exec.{Result, ok, and_then_returns, and_then_holds, and_then-eq_ok}
use mcvirt.Exceptions.{Exception}
use mcvirt.Storage.Backend.{Storage, StorageMethod, Backend, get_backend, assert_manage, call}
use mcvirt.Storage.Cluster.{
  with_node, on_remote, on_others, on_nodes, on_cluster, get_nodes, update_backend, set_local,
}
use mcvirt.Storage.Cluster.Update.{update_backend-Updated}

-- What is looked up where a value was just stored is that value.
stored_value :
    (id : String) (b c : Backend) (d : Dict Backend) → lookup id (insert id b d) ≡ some c → b ≡ c
stored_value id b c d found =
    ap (λ o. elim o [ none ↦ b | some v ↦ v ])
      (sym (lookup-insert id id b d ∙ ap (λ t. if t then some b else lookup id d) (eq_refl id))
        ∙ found)

-- A property holds of a backend in a configuration that has it.
abbrev Holds : String → (Backend → Type 0) → Dict Backend → Type 0
Holds id P backends = (config : Backend) → lookup id backends ≡ some config → P config

-- A change, and what holds of every configuration that it yields.
module _ {K : Type 0} (id : String) (f : Backend → Result Exception Backend) (P : Backend → Type 0)
    (established : (config changed : Backend) → f config ≡ ok changed → P changed) where
  abbrev change : StorageMethod K (Unit {0})
  change = update_backend id f

  changed-Everywhere :
      (s : Storage K) (x : String)
      → (change s).0 ≡ ok tt
      → (x == s.hostname ≡ false → Holds id P (s.backends x))
      → Holds id P ((change s).1.backends x)
  changed-Everywhere s x done before =
      let (config, changed, found, works, updated) = update_backend-Updated s id f done in
      subst (Holds id P) (sym (updated x)) (elim (Bool-cases (x == s.hostname)) [
        | inl here ↦ rw here (λ c there.
            subst P (stored_value id changed c (s.backends s.hostname) there)
              (established config changed works))
        | inr elsewhere ↦ rw elsewhere (before elsewhere)
      ])

  on_remote-with_node :
      (h : String) (s : Storage K)
      → (on_remote h change s).0 ≡ ok tt
      → on_remote h change s ≡ with_node h change s
  unfolding on_remote
  on_remote-with_node h s = elim (Bool-cases s.is_cluster_master) [
    | inr slave ↦ rw slave (λ done. cc)
    | inl master ↦ elim (Bool-cases (contains s.remote_nodes h)) [
      | inr unknown ↦ rw (master, unknown) (λ done. cc)
      | inl known ↦ rw (master, known) (λ done. refl)
    ]
  ]

  with_node-Everywhere :
      (h : String) (s : Storage K) (x : String)
      → (with_node h change s).0 ≡ ok tt
      → (x == h ≡ false → Holds id P (s.backends x))
      → Holds id P ((with_node h change s).1.backends x)
  unfolding with_node
  with_node-Everywhere h s x done before =
      changed-Everywhere
        (record s { hostname = h; request = s.peer_request; is_cluster_master = false }) x done
        before

  others-Everywhere :
      (nodes : List String) (s : Storage K) (x : String)
      → (on_others change nodes s).0 ≡ ok tt
      → ((contains nodes x && not (x == s.hostname)) ≡ false → Holds id P (s.backends x))
      → Holds id P ((on_others change nodes s).1.backends x)
  unfolding on_others contains with_node
  others-Everywhere [] s x = λ done before. before refl
  others-Everywhere (h ∷ nodes) s x = elim (Bool-cases (h == s.hostname)) [
    | inl here ↦ rw here (λ done before.
        others-Everywhere nodes s x done
          (λ absent. before (ground (arith, eq_iff h x, eq_iff h s.hostname, eq_iff x s.hostname))))
    | inr elsewhere ↦ rw elsewhere (λ done before.
        let (u, (ran, rest)) =
          and_then_returns (on_remote h change s) (λ _. on_others change nodes) tt done in
        let there = on_remote-with_node h s (ap (λ r. r.0) ran) in
        let whole =
          and_then-eq_ok (on_remote h change s) (λ _. on_others change nodes) tt
            (ap (λ r. r.0) ran) in
        subst (λ r. Holds id P (r.1.backends x))
          (sym (whole ∙ ap (λ q. on_others change nodes q.1) there))
          (others-Everywhere nodes (with_node h change s).1 x
            (subst (λ q. (on_others change nodes q.1).0 ≡ ok tt) there rest)
            (λ absent.
              with_node-Everywhere h s x (sym (ap (λ r. r.0) there) ∙ ap (λ r. r.0) ran)
                (λ apart. before (ground (arith, eq_iff h x, eq_iff x h))))))
  ]

  change-host : (s : Storage K) → (change s).1.hostname ≡ s.hostname
  unfolding update_backend get_backend assert_manage call set_local
  change-host s =
      and_then_holds (λ t. t.hostname ≡ s.hostname) (get_backend id s) _
        (and_then_holds (λ t. t.hostname ≡ s.hostname) (assert_manage s) _ refl (λ _ t same. same))
        (λ config t same.
          and_then_holds (λ u. u.hostname ≡ s.hostname) (f config, t) _ same (λ _ u kept. kept))

  get_nodes-local : (s : Storage K) → contains (get_nodes s) s.hostname ≡ true
  unfolding get_nodes contains
  get_nodes-local s = elim (Bool-cases s.is_cluster_master) [
    | inl master ↦ rw master (
        contains-append s.remote_nodes (s.hostname ∷ []) s.hostname
        ∙ ground (arith, eq_refl s.hostname))
    | inr slave ↦ rw slave (ground (arith, eq_refl s.hostname))
  ]

  -- When the change has returned on the nodes of the cluster, the property holds on all of them.
  pub on_cluster-Everywhere :
      (s : Storage K) (x : String)
      → (on_cluster change s).0 ≡ ok tt
      → contains (get_nodes s) x ≡ true
      → Holds id P ((on_cluster change s).1.backends x)
  unfolding on_cluster on_nodes
  on_cluster-Everywhere s x = rw (get_nodes-local s) (λ done member.
      let (u, (ran, rest)) =
        and_then_returns (change s) (λ _. on_others change (get_nodes s)) tt done in
      subst (λ r. Holds id P (r.1.backends x))
        (sym
          (and_then-eq_ok (change s) (λ _. on_others change (get_nodes s)) tt (ap (λ r. r.0) ran)))
        (others-Everywhere (get_nodes s) (change s).1 x rest (λ outside.
          changed-Everywhere s x (ap (λ r. r.0) ran)
            (λ apart. absurd (ground (arith, change-host s))))))
