-- ===== src/ArgumentValidator/Names.antt =====
-- Which names the validators of mcvirt/argument_validator.py accept.
use mcvirt.Base.{
  ℕ, ◌<◌, ◌≤◌, String, Bool, true, false, ◌||◌, List, [], ◌∷◌, ◌++◌, ◌≡◌, ◌↔◌, inl, inr, refl,
  subst, sym, ap, ◌∙◌, arith, nat_eq, ltb, if◌then◌else◌, Bool-cases, both_true,
}
use mcvirt.Base.Lists.{length, All}
use mcvirt.Base.Text.{codes}
use mcvirt.Base.Exec.{ok, err}
use mcvirt.Exceptions.{mcvirt_type_error}
use mcvirt.ArgumentValidator.{
  is_alphanumeric, dash, is_name_character, search_other, starts_with_dash, ends_with_dash,
  check_name, validate_hostname, is_volume_character, match_rest, match_volume, validate_vg_name,
}

-- A name that is made of 1 to 64 letters, digits and dashes, and starts and ends with a letter or digit.
pub record IsName (name : List ℕ) : Type 0 where
  pub nonempty : 0 < length name
  pub short : length name ≤ 64
  pub characters : All (λ c. is_name_character c ≡ true) name
  pub first : (c : ℕ) (rest : List ℕ) → name ≡ c ∷ rest → is_alphanumeric c ≡ true
  pub last : (c : ℕ) (init : List ℕ) → name ≡ init ++ (c ∷ []) → is_alphanumeric c ≡ true

search_other-All :
    (p : ℕ → Bool) (name : List ℕ) → search_other p name ≡ false → All (λ c. p c ≡ true) name
unfolding search_other
search_other-All p [] none_other = tt
search_other-All p (c ∷ name) none_other =
    (ground (arith, none_other), search_other-All p name (ground (arith, none_other)))

All-search_other :
    (p : ℕ → Bool) (name : List ℕ) → All (λ c. p c ≡ true) name → search_other p name ≡ false
unfolding search_other
All-search_other p [] all = refl
All-search_other p (c ∷ name) all = ground (arith, all.0, All-search_other p name all.1)

alphanumeric_unless_dash :
    (c : ℕ) → is_name_character c ≡ true → nat_eq c dash ≡ false → is_alphanumeric c ≡ true
unfolding is_name_character
alphanumeric_unless_dash c allowed other = ground (arith, allowed, other)

no_dash : (c : ℕ) → is_alphanumeric c ≡ true → nat_eq c dash ≡ false
unfolding is_alphanumeric
no_dash c alphanumeric = ground (arith, alphanumeric)

ends_with_dash-append : (init : List ℕ) (c : ℕ) → ends_with_dash (init ++ (c ∷ [])) ≡ nat_eq c dash
unfolding ends_with_dash
ends_with_dash-append [] c = refl
ends_with_dash-append (d ∷ []) c = refl
ends_with_dash-append (d ∷ e ∷ init) c = ends_with_dash-append (e ∷ init) c

All-last : (P : ℕ → Type 0) (init : List ℕ) (c : ℕ) → All P (init ++ (c ∷ [])) → P c
All-last P [] c all = all.0
All-last P (d ∷ init) c all = All-last P init c all.1

last_of : (c : ℕ) (name : List ℕ) → (init : List ℕ) × (d : ℕ) × (c ∷ name ≡ init ++ (d ∷ []))
last_of c [] = ([], c, refl)
last_of c (d ∷ name) = let (init, e, same) = last_of d name in (c ∷ init, e, ap (λ l. c ∷ l) same)

guards :
    (a b c : Bool)
    → (if a
        then err mcvirt_type_error
        else (if b then err mcvirt_type_error else (if c then err mcvirt_type_error else ok tt)))
      ≡ ok (tt {0})
    → (a ≡ false) × (b ≡ false) × (c ≡ false)
guards true b c passes = cc
guards false true c passes = cc
guards false false true passes = cc
guards false false false passes = (refl, refl, refl)

passing :
    (a b c : Bool)
    → a ≡ false
    → b ≡ false
    → c ≡ false
    → (if a
        then err mcvirt_type_error
        else (if b then err mcvirt_type_error else (if c then err mcvirt_type_error else ok tt)))
      ≡ ok (tt {0})
passing a b c not_a not_b not_c = rw (not_a, not_b, not_c) refl

matched : (b : Bool) → ((if b then ok tt else err mcvirt_type_error) ≡ ok (tt {0})) ↔ (b ≡ true)
matched true = ((λ _. refl), (λ _. refl))
matched false = ((λ e. absurd (cc e)), (λ e. ground (arith, e)))

first_lem :
    (name : List ℕ)
    → All (λ c. is_name_character c ≡ true) name
    → starts_with_dash name ≡ false
    → (c : ℕ) (rest : List ℕ) → name ≡ c ∷ rest
    → is_alphanumeric c ≡ true
unfolding starts_with_dash
first_lem name all clean c rest e =
    alphanumeric_unless_dash c (subst (All (λ c. is_name_character c ≡ true)) e all).0
      (subst (λ l. starts_with_dash l ≡ false) e clean)

last_lem :
    (name : List ℕ)
    → All (λ c. is_name_character c ≡ true) name
    → ends_with_dash name ≡ false
    → (c : ℕ) (init : List ℕ) → name ≡ init ++ (c ∷ [])
    → is_alphanumeric c ≡ true
last_lem name all clean c init e =
    alphanumeric_unless_dash c
      (All-last (λ c. is_name_character c ≡ true) init c
        (subst (All (λ c. is_name_character c ≡ true)) e all))
      (sym (ends_with_dash-append init c) ∙ subst (λ l. ends_with_dash l ≡ false) e clean)

check_name-IsName : (name : List ℕ) → check_name name ≡ ok tt → IsName name
unfolding check_name
check_name-IsName name passes =
    let (bounds, characters, dashes) =
      guards (ltb 64 (length name) || nat_eq (length name) 0) (search_other is_name_character name)
        (starts_with_dash name || ends_with_dash name) passes in
    let all = search_other-All is_name_character name characters in
    record {
      nonempty = ground (arith, bounds);
      short = ground (arith, bounds);
      characters = all;
      first = first_lem name all (ground (arith, dashes));
      last = last_lem name all (ground (arith, dashes));
    }

IsName-check_name : (name : List ℕ) → IsName name → check_name name ≡ ok tt
unfolding check_name
IsName-check_name [] n = ground (arith, n.nonempty)
IsName-check_name (c ∷ name) n =
    let (init, d, same) = last_of c name in
    let short : (ltb 64 (length (c ∷ name)) || nat_eq (length (c ∷ name)) 0) ≡ false =
      ground (arith, n.short) in
    let characters = All-search_other is_name_character (c ∷ name) n.characters in
    let starts : starts_with_dash (c ∷ name) ≡ false =
      unfold starts_with_dash in no_dash c (n.first c name refl) in
    let ends : ends_with_dash (c ∷ name) ≡ false =
      ap ends_with_dash same ∙ ends_with_dash-append init d ∙ no_dash d (n.last d init same) in
    passing (ltb 64 (length (c ∷ name)) || nat_eq (length (c ∷ name)) 0)
      (search_other is_name_character (c ∷ name))
      (starts_with_dash (c ∷ name) || ends_with_dash (c ∷ name)) short characters
      (rw (starts, ends) refl)

-- A host name is accepted exactly if it has 1 to 64 characters, all of them letters, digits or dashes,
-- of which the first and the last are no dashes.
pub validate_hostname-IsName :
    (hostname : String) → (validate_hostname hostname ≡ ok tt) ↔ IsName (codes hostname)
unfolding validate_hostname
validate_hostname-IsName hostname =
    (check_name-IsName (codes hostname), IsName-check_name (codes hostname))

match_rest-All :
    (text : List ℕ) → All (λ c. is_volume_character c ≡ true) text → match_rest text ≡ true
unfolding match_rest
match_rest-All [] all = refl
match_rest-All (c ∷ []) all = ground (arith, all.0)
match_rest-All (c ∷ d ∷ text) all = ground (arith, all.0, match_rest-All (d ∷ text) all.1)

match_rest-newline :
    (text : List ℕ)
    → All (λ c. is_volume_character c ≡ true) text
    → match_rest (text ++ (10 ∷ [])) ≡ true
unfolding match_rest
match_rest-newline [] all = ground arith
match_rest-newline (c ∷ []) all = ground (arith, all.0)
match_rest-newline (c ∷ d ∷ text) all = ground (arith, all.0, match_rest-newline (d ∷ text) all.1)

-- The texts that are made of volume characters, with or without a newline at the end.
pub data IsLine (text : List ℕ) : Type 0 where
  plain : All (λ c. is_volume_character c ≡ true) text → IsLine text
  newline :
      (line : List ℕ)
      → text ≡ line ++ (10 ∷ [])
      → All (λ c. is_volume_character c ≡ true) line
      → IsLine text

IsLine-cons :
    (c : ℕ) (text : List ℕ) → is_volume_character c ≡ true → IsLine text → IsLine (c ∷ text)
IsLine-cons c text allowed (plain all) = plain (allowed, all)
IsLine-cons c text allowed (newline line same all) =
    newline (c ∷ line) (ap (λ l. c ∷ l) same) (allowed, all)

last_character : (c : ℕ) → (is_volume_character c || nat_eq c 10) ≡ true → IsLine (c ∷ [])
last_character c e = elim (Bool-cases (is_volume_character c)) [
  | inl allowed ↦ plain (allowed, tt)
  | inr other ↦
      let same : c ≡ 10 = ground (arith, e, other) in newline [] (ap (λ d. d ∷ []) same) tt
]

match_rest-IsLine : (text : List ℕ) → match_rest text ≡ true → IsLine text
unfolding match_rest
match_rest-IsLine [] e = plain tt
match_rest-IsLine (c ∷ []) e = last_character c e
match_rest-IsLine (c ∷ d ∷ text) e =
    IsLine-cons c (d ∷ text) (ground (arith, e)) (match_rest-IsLine (d ∷ text) (ground (arith, e)))

IsLine-match_rest : (text : List ℕ) → IsLine text → match_rest text ≡ true
IsLine-match_rest text (plain all) = match_rest-All text all
IsLine-match_rest text (newline line same all) = ap match_rest same ∙ match_rest-newline line all

-- A name of a volume group is accepted exactly if its first character is a letter, digit, underscore or
-- dash, and so are the others, but for a newline that may stand at the very end.
pub validate_vg_name-IsLine :
    (name : String) (c : ℕ) (rest : List ℕ)
    → codes name ≡ c ∷ rest
    → (validate_vg_name name ≡ ok tt) ↔ ((is_volume_character c ≡ true) × IsLine rest)
unfolding validate_vg_name match_volume
validate_vg_name-IsLine name c rest spelled =
    let here = ap match_volume spelled in
    let outcome = matched (match_volume (codes name)) in
    (
      (λ passes.
          let both =
            both_true (is_volume_character c) (match_rest rest) (sym here ∙ outcome.0 passes) in
          (both.0, match_rest-IsLine rest both.1)),
      (λ line. outcome.1 (here ∙ rw (line.0, IsLine-match_rest rest line.1) refl)),
    )
