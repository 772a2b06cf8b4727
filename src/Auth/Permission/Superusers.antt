-- ===== src/Auth/Permission/Superusers.antt =====
-- Adding and deleting superusers, of mcvirt/auth/auth.py.
use mcvirt.Base.{
  String, Bool, true, false, Option, List, [], ◌∷◌, ◌++◌, map, ◌≡◌, refl, sym, ap, arith, eq_refl,
  inl, inr, Bool-cases,
}
use mcvirt.Base.Lists.{All, contains, contains-append, append_nil, remove_fresh}
use mcvirt.Base.Exec.{Result, ok, err, ◌>>◌}
use mcvirt.Exceptions.{Exception}
use mcvirt.Auth.Users.{
  User, Config, cluster_user, get_user_by_username, search_types, get_all_usernames, get_user_types,
}
use mcvirt.Auth.Permission.{
  Request, get_current_user_object, get_proxy_user_object, proxy_of, check_user_type, or_else,
  superuser_among, is_superuser, set_superusers, add_local_superuser, delete_local_superuser,
  Cluster, then_nodes, run_remote_command, after_local, remotely, add_superuser, delete_superuser,
}

get_current_user_object-set_superusers :
    (superusers : List String) (r : Request)
    → get_current_user_object (set_superusers superusers r) ≡ get_current_user_object r
unfolding get_current_user_object set_superusers get_user_by_username search_types get_all_usernames
    get_user_types
get_current_user_object-set_superusers superusers r = refl

proxy_of_config :
    (current : Result Exception User) (name : Option String) (superusers : List String)
    (config : Config)
    → proxy_of current name (record config { superusers = superusers })
      ≡ proxy_of current name config
unfolding proxy_of get_user_by_username search_types get_all_usernames get_user_types
proxy_of_config (err e) name superusers config = refl
proxy_of_config (ok current) name superusers config = refl

remains_superuser :
    (user : User) (proxy : Result Exception User) (type : Result Exception Bool)
    (superusers : List String)
    → or_else type (superuser_among superusers proxy) ≡ ok true
    → or_else type (superuser_among (superusers ++ (user.username ∷ [])) proxy) ≡ ok true
unfolding or_else superuser_among
remains_superuser user proxy (err e) superusers super = super
remains_superuser user proxy (ok true) superusers super = super
remains_superuser user (err e) (ok false) superusers super = super
remains_superuser user (ok proxy) (ok false) superusers super =
    rw (contains-append superusers (user.username ∷ []) proxy.username)
      (elim (Bool-cases (contains superusers proxy.username)) [
        | inl present ↦ simp present
        | inr absent ↦ ground arith
      ])

-- A node on which a request of a superuser runs, where `user` is known and no superuser.
pub record IsReady (user : User) (r : Request) : Type 0 where
  pub allowed : is_superuser r ≡ ok true
  pub known : get_user_by_username user.username r.config ≡ ok user
  pub absent : contains r.config.superusers user.username ≡ false

-- The node once `user` is a superuser.
abbrev pub with_superuser : User → Request → Request
with_superuser user r = set_superusers (r.config.superusers ++ (user.username ∷ [])) r

is_superuser-with_superuser :
    (user : User) (r : Request) → IsReady user r → is_superuser (with_superuser user r) ≡ ok true
unfolding is_superuser check_user_type get_proxy_user_object set_superusers
is_superuser-with_superuser user r ready =
    let superusers = r.config.superusers ++ (user.username ∷ []) in
    rw
      (
        get_current_user_object-set_superusers superusers r,
        proxy_of_config (get_current_user_object r) r.proxy_user superusers r.config,
      )
      (remains_superuser user (get_proxy_user_object r) (check_user_type (cluster_user ∷ []) r)
        r.config.superusers ready.allowed)

add_local :
    (user : User) (ignore : Bool) (r : Request)
    → IsReady user r
    → add_local_superuser user ignore r ≡ (ok tt, with_superuser user r)
unfolding add_local_superuser
add_local user ignore r ready = simp (ready.allowed, ready.absent)

delete_local :
    (user : User) (r : Request)
    → IsReady user r
    → delete_local_superuser user (with_superuser user r) ≡ (ok tt, r)
unfolding delete_local_superuser
delete_local user r ready =
    simp
      (
        is_superuser-with_superuser user r ready,
        contains-append r.config.superusers (user.username ∷ []) user.username,
        ready.absent,
        remove_fresh r.config.superusers [] user.username ready.absent,
        append_nil r.config.superusers,
      )
      (unfold set_superusers contains in simp (eq_refl user.username))

remote_adds :
    (user : User) (ignore : Bool) (nodes : List Request)
    → All (IsReady user) nodes
    → run_remote_command (remotely (λ remote. add_local_superuser remote ignore) user) nodes
      ≡ (ok tt, map (with_superuser user) nodes)
unfolding run_remote_command remotely then_nodes
remote_adds user ignore [] ready = refl
remote_adds user ignore (r ∷ nodes) (first, ready) =
    simp (first.known, add_local user ignore r first, remote_adds user ignore nodes ready)

known-with_superuser :
    (user : User) (r : Request)
    → IsReady user r
    → get_user_by_username user.username (with_superuser user r).config ≡ ok user
unfolding get_user_by_username search_types get_all_usernames get_user_types set_superusers
known-with_superuser user r ready = ready.known

remote_deletes :
    (user : User) (nodes : List Request)
    → All (IsReady user) nodes
    → run_remote_command (remotely delete_local_superuser user) (map (with_superuser user) nodes)
      ≡ (ok tt, nodes)
unfolding run_remote_command remotely then_nodes
remote_deletes user [] ready = refl
remote_deletes user (r ∷ nodes) (first, ready) =
    simp (
      known-with_superuser user r first,
      delete_local user r first,
      remote_deletes user nodes ready,
    )

-- On every node of a cluster that is asked by a superuser and knows the user, who is a superuser on
-- none: adding him and deleting him again both succeed, and every node is then as it was.
pub add-delete_superuser :
    (user : User) (ignore : Bool) (c : Cluster)
    → IsReady user c.local
    → All (IsReady user) c.nodes
    → (add_superuser user ignore >> delete_superuser user) c ≡ (ok tt, c)
unfolding add_superuser delete_superuser after_local
add-delete_superuser user ignore c local nodes = elim (Bool-cases c.is_cluster_master) [
  | inl master ↦
      simp
        (
          add_local user ignore c.local local,
          delete_local user c.local local,
          master,
          remote_adds user ignore c.nodes nodes,
          remote_deletes user c.nodes nodes,
        )
        (ap (λ b. (ok tt, record c { is_cluster_master = b })) (sym master))
  | inr other ↦
      simp (add_local user ignore c.local local, delete_local user c.local local, other)
        (ap (λ b. (ok tt, record c { is_cluster_master = b })) (sym other))
]
