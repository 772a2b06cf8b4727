-- ===== src/ArgumentValidator.antt =====
-- The validators of names of mcvirt/argument_validator.py. The source's regular expressions are
-- written out on the codes of the characters; a name is a byte string.
pub mod Names
mod Tests
use Prim.Native.Char.{code}
use mcvirt.Base.{
  ℕ, String, Bool, true, false, not, ◌&&◌, ◌||◌, List, [], ◌∷◌, nat_eq, ltb, leb, ◌==◌,
  if◌then◌else◌,
}
use mcvirt.Base.Lists.{length}
use mcvirt.Base.Text.{codes}
use mcvirt.Base.Exec.{Result, ok, err}
use mcvirt.Exceptions.{Exception, mcvirt_type_error}

-- [A-Z\d], ignoring case
unfoldable pub is_alphanumeric : ℕ → Bool
is_alphanumeric c = leb 48 c && leb c 57 || leb 65 c && leb c 90 || leb 97 c && leb c 122

abbrev pub dash : ℕ
dash = 45

-- [A-Z\d-], ignoring case
unfoldable pub is_name_character : ℕ → Bool
unfolding is_alphanumeric
is_name_character c = is_alphanumeric c || nat_eq c dash

-- re.compile(r"[^...]").search(text): whether a character is not of the class
unfoldable pub search_other : (ℕ → Bool) → List ℕ → Bool
search_other allowed [] = false
search_other allowed (c ∷ text) = not (allowed c) || search_other allowed text

unfoldable pub starts_with_dash : List ℕ → Bool
starts_with_dash [] = false
starts_with_dash (c ∷ text) = nat_eq c dash

unfoldable pub ends_with_dash : List ℕ → Bool
ends_with_dash [] = false
ends_with_dash (c ∷ []) = nat_eq c dash
ends_with_dash (c ∷ d ∷ text) = ends_with_dash (d ∷ text)

-- The tests that the validators of host, network, storage and group names share.
unfoldable pub check_name : List ℕ → Result Exception (Unit {0})
unfolding search_other is_name_character starts_with_dash ends_with_dash
check_name name =
    if ltb 64 (length name) || nat_eq (length name) 0
    then err mcvirt_type_error
    else (if search_other is_name_character name
        then err mcvirt_type_error
        else (if starts_with_dash name || ends_with_dash name
            then err mcvirt_type_error
            else ok tt))

unfoldable pub validate_hostname : String → Result Exception (Unit {0})
unfolding check_name codes
validate_hostname hostname = check_name (codes hostname)

unfoldable pub validate_group_name : String → Result Exception (Unit {0})
unfolding check_name codes
validate_group_name group_name = check_name (codes group_name)

-- DEFAULT_LIBVIRT_NETWORK_NAME
unfoldable pub validate_network_name : String → Result Exception (Unit {0})
unfolding check_name codes
validate_network_name name =
    if name == "default" then err mcvirt_type_error else check_name (codes name)

-- DEFAULT_STORAGE_NAME
unfoldable pub validate_storage_name : String → Result Exception (Unit {0})
unfolding check_name codes
validate_storage_name name =
    if name == "default" then err mcvirt_type_error else check_name (codes name)

-- [A-Z0-9a-z_-]
unfoldable pub is_volume_character : ℕ → Bool
unfolding is_name_character
is_volume_character c = is_name_character c || nat_eq c 95

-- The rest of the pattern [A-Z0-9a-z_-]*$, where `$` also matches before a newline at the very end.
unfoldable pub match_rest : List ℕ → Bool
unfolding is_volume_character
match_rest [] = true
match_rest (c ∷ []) = is_volume_character c || nat_eq c 10
match_rest (c ∷ d ∷ text) = is_volume_character c && match_rest (d ∷ text)

match_volume : List ℕ → Bool
unfolding match_rest is_volume_character
match_volume [] = false
match_volume (c ∷ text) = is_volume_character c && match_rest text

-- validate_vg_name and validate_logical_volume_name
unfoldable pub validate_vg_name : String → Result Exception (Unit {0})
unfolding match_volume codes
validate_vg_name name = if match_volume (codes name) then ok tt else err mcvirt_type_error
