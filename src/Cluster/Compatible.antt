-- ===== src/Cluster/Compatible.antt =====
-- Which nodes are found to suit a virtual machine.
use mcvirt.Base.{
  ℕ, zero, suc, String, Bool, true, false, ◌&&◌, Option, none, some, List, [], ◌∷◌, ◌==◌, ◌≡◌, refl,
  subst, ◌∙◌, arith, inl, inr, Bool-cases, eq_iff,
}
use mcvirt.Base.Lists.{contains, remove, length, get_elem?}
use mcvirt.Base.Exec.{Result, ok, err, ok_injective}
use mcvirt.Exceptions.{Exception}
use mcvirt.Cluster.{
  Members, all_nodes, dropped, follow, check_lists, check_from, get_compatible_nodes,
}

-- Every list has the node.
unfoldable pub in_every : String → List (List String) → Bool
in_every node [] = true
in_every node (node_list ∷ node_lists) = contains node_list node && in_every node node_lists

pub contains-remove :
    (xs : List String) (x y : String) → x == y ≡ false → contains (remove xs x) y ≡ contains xs y
unfolding contains remove
contains-remove [] x y apart = refl
contains-remove (z ∷ xs) x y apart =
    ground (arith, eq_iff z x, eq_iff x y, eq_iff z y, contains-remove xs x y apart)

pub apart_of :
    (l : List String) (a b : String) → contains l a ≡ false → contains l b ≡ true → a == b ≡ false
apart_of l a b lacks has = elim (Bool-cases (a == b)) [
  | inr apart ↦ apart
  | inl same ↦ absurd (ground (arith, eq_iff a b))
]

-- A round keeps every node that all lists have.
check_lists-contains :
    (node x : String) (node_lists : List (List String)) (available rest : List String)
    → contains available x ≡ true
    → in_every x node_lists ≡ true
    → check_lists node node_lists available ≡ ok rest
    → contains rest x ≡ true
unfolding check_lists dropped in_every
check_lists-contains node x [] available rest present suits =
    λ same. subst (λ l. contains l x ≡ true) (ok_injective same) present
check_lists-contains node x (node_list ∷ node_lists) available rest present suits =
    elim (Bool-cases (contains node_list node)) [
      | inl has ↦
          rw has (check_lists-contains node x node_lists available rest present (ground arith))
      | inr lacks ↦ elim (Bool-cases (contains available node)) [
        | inr gone ↦ rw (lacks, gone) (λ same. cc)
        | inl there ↦
            rw (lacks, there)
              (check_lists-contains node x node_lists (remove available node) rest
                (contains-remove available node x (apart_of node_list node x lacks (ground arith))
                  ∙ present)
                (ground arith))
      ]
    ]

-- One round keeps such a node, if the rounds that follow do.
module _ (next : List String → Result Exception (List String)) (node_lists : List (List String))
    (available found : List String) (x : String) (present : contains available x ≡ true)
    (suits : in_every x node_lists ≡ true)
    (later : (rest : List String)
      → contains rest x ≡ true
      → next rest ≡ ok found
      → contains found x ≡ true) where
  followed-contains :
      (node : String) (r : Result Exception (List String))
      → check_lists node node_lists available ≡ r
      → follow r next ≡ ok found
      → contains found x ≡ true
  followed-contains node (err e) is = λ done. cc
  followed-contains node (ok rest) is =
      later rest (check_lists-contains node x node_lists available rest present suits is)

  round-contains :
      (o : Option String)
      → (elim o [
        | none ↦ ok available
        | some node ↦ follow (check_lists node node_lists available) next
      ])
        ≡ ok found
      → contains found x ≡ true
  round-contains none done = subst (λ l. contains l x ≡ true) (ok_injective done) present
  round-contains (some node) done =
      followed-contains node (check_lists node node_lists available) refl done

check_from-contains :
    (rounds index : ℕ) (x : String) (node_lists : List (List String))
    (available found : List String)
    → contains available x ≡ true
    → in_every x node_lists ≡ true
    → check_from rounds index node_lists available ≡ ok found
    → contains found x ≡ true
unfolding check_from
check_from-contains zero index x node_lists available found present suits same =
    subst (λ l. contains l x ≡ true) (ok_injective same) present
check_from-contains (suc rounds) index x node_lists available found present suits same =
    round-contains (check_from rounds (suc index) node_lists) node_lists available found x present
      suits (λ rest here. check_from-contains rounds (suc index) x node_lists rest found here suits)
      (get_elem? available index) same

-- Whenever the search for compatible nodes returns, each node of the cluster that every list has is
-- among those that it returns.
pub get_compatible_nodes-contains :
    (node_lists : List (List String)) (c : Members) (found : List String) (x : String)
    → get_compatible_nodes node_lists c ≡ ok found
    → contains (all_nodes true c) x ≡ true
    → in_every x node_lists ≡ true
    → contains found x ≡ true
unfolding get_compatible_nodes
get_compatible_nodes-contains node_lists c found x same member suits =
    check_from-contains (length (all_nodes true c)) 0 x node_lists (all_nodes true c) found member
      suits same
