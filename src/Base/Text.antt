-- ===== src/Base/Text.antt =====
-- Python's text[::-1], strip and split, and the codes of the characters of a text.
use Prim.Native.Nat.{ℕ}
use mathlib.Core.Bool.{Bool, ◌||◌, ◌&&◌}
use Prim.Native.Char.{code}
use Prim.Native.String.{String, [], ◌∷◌, ◌++◌}
use mathlib.Core.List.{List, [] as nil, ◌∷◌ as cons}
use mcvirt.Base.Tests.{leb, nat_eq, if◌then◌else◌}

reverse_onto : String → String → String
reverse_onto [] done = done
reverse_onto (c ∷ text) done = reverse_onto text (c ∷ done)

unfoldable pub reverse : String → String
unfolding reverse_onto
reverse text = reverse_onto text []

unfoldable pub codes : String → List ℕ
codes [] = nil
codes (c ∷ text) = cons (code c) (codes text)

is_space : ℕ → Bool
is_space c = nat_eq c b' ' || leb 9 c && leb c 13

strip_left : String → String
unfolding is_space
strip_left [] = []
strip_left (c ∷ text) = let rest = strip_left text in if is_space (code c) then rest else c ∷ text

-- text.strip()
unfoldable pub strip : String → String
unfolding strip_left reverse
strip text = reverse (strip_left (reverse (strip_left text)))

add_to_first : String → List String → List String
add_to_first c nil = cons c nil
add_to_first c (cons part parts) = cons (c ++ part) parts

-- text.split(separator), of one character
unfoldable pub split : ℕ → String → List String
unfolding add_to_first
split separator [] = cons [] nil
split separator (c ∷ text) =
    let parts = split separator text in
    if nat_eq (code c) separator then cons [] parts else add_to_first (c ∷ []) parts
