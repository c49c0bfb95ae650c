-- ===== src/Paths/Tests.antt =====
-- The path functions at concrete inputs.
use viking_ftpd.Prelude.{◌≡◌, refl, false, [], All, codes, equal}
use viking_ftpd.Paths.{
  split_path, elements, clean, join, dot_dot, is_abs, keep_parts, split, join_slash, enter_all,
  enter, back_up,
}
use viking_ftpd.Paths.Parts.{IsPart, split_path-IsPart}

cleaned :
    (clean (codes "/players//x/../y/.") ≡ codes "/players/y")
    × (clean (codes "/../../etc") ≡ codes "/etc")
    × (clean (codes "../a/../..") ≡ codes "../..")
    × (join (codes "/") (codes "d/x/") ≡ codes "/d/x")
    × (split_path (codes "/") ≡ [])
unfolding clean join split_path elements keep_parts split join_slash enter_all enter back_up is_abs
    equal
cleaned = (refl, refl, refl, refl, refl)

split_path-IsPart_example :
    All IsPart (split_path (codes "/../d//x"))
    × All (λ x. equal x dot_dot ≡ false) (split_path (codes "/../d//x"))
unfolding is_abs
split_path-IsPart_example = split_path-IsPart (codes "/../d//x") refl
