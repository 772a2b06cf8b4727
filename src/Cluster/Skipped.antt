-- ===== src/Cluster/Skipped.antt =====
-- Which nodes the search leaves out of its tests, and where it raises.
use mcvirt.Base.{
  ℕ, zero, suc, ◌≤◌, String, Bool, true, false, not, ◌&&◌, Option, none, some, List, [], ◌∷◌, ◌≡◌,
  refl, ap, ◌∙◌, arith, if◌then◌else◌, inl, inr, Bool-cases, eq_refl, eq_iff,
}
use mcvirt.Base.Lists.{contains, remove, length, get_elem?}
use mcvirt.Base.Exec.{Result, ok, err}
use mcvirt.Exceptions.{Exception, value_error}
use mcvirt.Cluster.{
  Members, all_nodes, dropped, follow, check_lists, check_from, get_compatible_nodes,
}
use mcvirt.Cluster.Compatible.{contains-remove, apart_of}

-- The names are different.
unfoldable pub all_different : List String → Bool
all_different [] = true
all_different (x ∷ xs) = not (contains xs x) && all_different xs

-- What the loop keeps for one list: after a node that is removed, it does not look at the next one.
unfoldable pub kept : List String → List String → List String
kept node_list [] = []
kept node_list (x ∷ []) = if contains node_list x then x ∷ [] else []
kept node_list (x ∷ y ∷ rest) =
    let looked = kept node_list (y ∷ rest) in
    let skipped = kept node_list rest in if contains node_list x then x ∷ looked else y ∷ skipped

get_elem-contains :
    (xs : List String) (i : ℕ) (x : String) → get_elem? xs i ≡ some x → contains xs x ≡ true
unfolding contains
get_elem-contains [] i x = λ same. cc
get_elem-contains (y ∷ xs) zero x = λ same. ground (arith, eq_iff y x)
get_elem-contains (y ∷ xs) (suc i) x = λ same. ground (arith, get_elem-contains xs i x same)

-- One round of the loop for a single list, behind a node that the index has passed.
module _ (next next' : List String → Result Exception (List String)) (x : String)
    (node_list : List String) (rest : List String) (fresh : contains rest x ≡ false)
    (later : (l : List String)
      → contains l x ≡ false
      → next (x ∷ l) ≡ follow (next' l) (λ found. ok (x ∷ found))) where
  round-cons :
      (o : Option String)
      → ((node : String) → o ≡ some node → contains rest node ≡ true)
      → (elim o [
        | none ↦ ok (x ∷ rest)
        | some node ↦ follow (check_lists node (node_list ∷ []) (x ∷ rest)) next
      ])
        ≡ follow
            (elim o [
              | none ↦ ok rest
              | some node ↦ follow (check_lists node (node_list ∷ []) rest) next'
            ])
            (λ found. ok (x ∷ found))
  unfolding check_lists dropped contains remove
  round-cons none member = refl
  round-cons (some node) member = elim (Bool-cases (contains node_list node)) [
    | inl has ↦ rw has (later rest fresh)
    | inr lacks ↦
        let there = member node refl in
        let apart = apart_of rest x node fresh there in
        rw (lacks, apart, there)
          (later (remove rest node)
            (contains-remove rest node x (ground (arith, eq_iff x node, eq_iff node x)) ∙ fresh))
  ]

-- A node that the index has passed stays in front.
check_from-cons :
    (rounds index : ℕ) (x : String) (node_list rest : List String)
    → contains rest x ≡ false
    → check_from rounds (suc index) (node_list ∷ []) (x ∷ rest)
      ≡ follow (check_from rounds index (node_list ∷ []) rest) (λ found. ok (x ∷ found))
unfolding check_from
check_from-cons zero index x node_list rest fresh = refl
check_from-cons (suc rounds) index x node_list rest fresh =
    round-cons (check_from rounds (suc (suc index)) (node_list ∷ []))
      (check_from rounds (suc index) (node_list ∷ [])) x node_list rest fresh
      (λ l. check_from-cons rounds (suc index) x node_list l) (get_elem? rest index)
      (λ node. get_elem-contains rest index node)

-- Behind the end of the list the loop stops.
check_from-end :
    (rounds index : ℕ) (node_lists : List (List String)) (available : List String)
    → get_elem? available index ≡ none
    → check_from rounds index node_lists available ≡ ok available
unfolding check_from
check_from-end zero index node_lists available past = refl
check_from-end (suc rounds) index node_lists available past =
    ap
      (λ o. elim o [
        | none ↦ ok available
        | some node ↦
            follow (check_lists node node_lists available)
              (check_from rounds (suc index) node_lists)
      ])
      past

check_from-kept :
    (rounds : ℕ) (node_list available : List String)
    → length available ≤ rounds
    → all_different available ≡ true
    → check_from rounds 0 (node_list ∷ []) available ≡ ok (kept node_list available)
unfolding check_from check_lists dropped kept all_different contains remove
check_from-kept zero node_list [] enough different = refl
check_from-kept zero node_list (x ∷ available) enough different = absurd (omega arith)
check_from-kept (suc rounds) node_list [] enough different = refl
check_from-kept (suc rounds) node_list (x ∷ []) enough different =
    elim (Bool-cases (contains node_list x)) [
      | inl has ↦ rw has (check_from-end rounds 1 (node_list ∷ []) (x ∷ []) refl)
      | inr lacks ↦ rw (lacks, eq_refl x) (check_from-end rounds 1 (node_list ∷ []) [] refl)
    ]
check_from-kept (suc rounds) node_list (x ∷ y ∷ rest) enough different =
    elim (Bool-cases (contains node_list x)) [
      | inl has ↦ rw has (
          check_from-cons rounds 0 x node_list (y ∷ rest) (ground arith)
          ∙ ap (λ r. follow r (λ found. ok (x ∷ found)))
              (check_from-kept rounds node_list (y ∷ rest) (omega arith) (ground arith)))
      | inr lacks ↦
          rw (lacks, eq_refl x)
            (check_from-cons rounds 0 y node_list rest (ground arith)
              ∙ ap (λ r. follow r (λ found. ok (y ∷ found)))
                  (check_from-kept rounds node_list rest (omega arith) (ground arith)))
    ]

-- If one list of nodes is required, and the names in the cluster are different, the search returns
-- the nodes that the list has, and with each node that it removes the one behind it, which it does
-- not look at.
pub get_compatible_nodes-kept :
    (node_list : List String) (c : Members)
    → all_different (all_nodes true c) ≡ true
    → get_compatible_nodes (node_list ∷ []) c ≡ ok (kept node_list (all_nodes true c))
unfolding get_compatible_nodes
get_compatible_nodes-kept node_list c different =
    check_from-kept (length (all_nodes true c)) node_list (all_nodes true c) (omega arith) different

-- If the names in the cluster are different, and its first node is missing from the first two
-- lists, the search raises a ValueError.
pub get_compatible_nodes_twice :
    (first second : List String) (node_lists : List (List String)) (c : Members) (x : String)
    (others : List String)
    → all_nodes true c ≡ x ∷ others
    → contains first x ≡ false
    → contains second x ≡ false
    → all_different (all_nodes true c) ≡ true
    → get_compatible_nodes (first ∷ second ∷ node_lists) c ≡ err value_error
unfolding get_compatible_nodes check_from check_lists dropped contains remove all_different
get_compatible_nodes_twice first second node_lists c x others nodes lacks lacks' =
    rw nodes (λ different.
      let fresh : contains others x ≡ false = ground arith in
      rw (lacks, lacks', eq_refl x, fresh) refl)
