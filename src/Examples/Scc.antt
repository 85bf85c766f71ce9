-- ===== src/Examples/Scc.antt =====
-- Texts, envelopes and identities at concrete inputs (internal/scc, internal/notify).
use ai_k8s.Prelude.{arith, ◌≤◌, ◌≡◌, String, false}
use ai_k8s.Text.{contains, size, trim, replace_all}
use ai_k8s.Text.Trim.{NoLead, NoTrail}
use ai_k8s.Scc.Key.{is_edge, path_safe, replace_while, replace_unsafe}
use ai_k8s.Scc.Segments.{contains-path_safe, path_safe_ends}

abbrev hostile : String
hostile = "/org/../...//x y/"

contains-path_safe_example :
    (contains (path_safe hostile) ".." ≡ false)
    × (contains (path_safe hostile) "//" ≡ false)
    × NoLead is_edge (path_safe hostile)
    × NoTrail is_edge (path_safe hostile)
contains-path_safe_example = contains-path_safe hostile

small : size (replace_unsafe hostile) ≤ 17
unfolding size replace_unsafe
small = omega arith

still_small : size (replace_while 17 ".." "." (replace_unsafe hostile)) ≤ 17
unfolding size replace_unsafe replace_while replace_all contains
still_small = omega arith

path_safe_ends_example :
    (path_safe hostile
      ≡ trim is_edge
          (replace_while 17 "//" "/" (replace_while 17 ".." "." (replace_unsafe hostile))))
    × (contains (replace_while 17 ".." "." (replace_unsafe hostile)) ".." ≡ false)
    × (contains
          (replace_while 17 "//" "/" (replace_while 17 ".." "." (replace_unsafe hostile)))
          "//"
        ≡ false)
path_safe_ends_example = path_safe_ends hostile 17 17 small still_small
