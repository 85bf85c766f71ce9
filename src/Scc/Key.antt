-- ===== src/Scc/Key.antt =====
-- `pathSafe` of internal/scc/finding.go: a finding text as a part of an object name.
use Prim.Native.Char.{Char, code}
use Prim.Native.String.{String, [], ◌∷◌}
use ai_k8s.Prelude.{
  ℕ, zero, suc, Bool, ◌&&◌, ◌||◌, if◌then◌else◌, leb, ◌==◌, Eq-nat, Eq-string, ◌≡◌, refl,
}
use ai_k8s.Text.{contains, replace_all, size, trim}

unfoldable pub is_alphanumeric : ℕ → Bool
is_alphanumeric c =
    (leb b'a' c && leb c b'z') || (leb b'A' c && leb c b'Z') || (leb b'0' c && leb c b'9')

-- The runes that are kept.
unfoldable pub is_kept : ℕ → Bool
unfolding is_alphanumeric
is_kept c = is_alphanumeric c || c == b'-' || c == b'_' || c == b'.' || c == b':' || c == b'/'

abbrev pub underscore : Char
underscore = "_"

-- The loop over the runes.
unfoldable pub replace_unsafe : String → String
unfolding is_kept
replace_unsafe [] = []
replace_unsafe (c ∷ s) = (if is_kept (code c) then c else underscore) ∷ replace_unsafe s

-- `for strings.Contains(out, old) { out = strings.ReplaceAll(out, old, new) }`, with fuel.
unfoldable pub replace_while : ℕ → String → String → String → String
unfolding contains replace_all
replace_while zero old new s = s
replace_while (suc fuel) old new s =
    let rest = replace_while fuel old new (replace_all s old new) in
    if contains s old then rest else s

unfoldable pub is_edge : ℕ → Bool
is_edge c = c == b'/' || c == b'_'

-- Each round of a loop shortens the text, so its size is fuel enough.
unfoldable pub path_safe : String → String
unfolding replace_unsafe replace_while is_edge trim size
path_safe s =
    let out = replace_unsafe s in
    let dots = replace_while (size out) ".." "." out in
    let slashes = replace_while (size dots) "//" "/" dots in trim is_edge slashes

path_safe_test : path_safe "//org s/../x...y//_" ≡ "org_s/./x.y"
unfolding path_safe
path_safe_test = refl
