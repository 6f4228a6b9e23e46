-- ===== src/Tests/Paths.antt =====
-- Tests of the functions on paths.
use ts_restic_server.Common.{◌≡◌, refl, [], ◌∷◌}
use ts_restic_server.Common.Text.{codes, eqs, split, join}
use ts_restic_server.Common.Paths.{clean, clean_elements, join_path, dir_of, split_last}

cleaned : clean (codes "/a/./b//../c/") ≡ codes "/a/c"
unfolding clean clean_elements split join eqs
cleaned = refl

cleaned_above : clean (codes "a/../../b") ≡ codes "../b"
unfolding clean clean_elements split join eqs
cleaned_above = refl

joined : join_path (codes "/srv/" ∷ [] ∷ codes "a" ∷ codes "config" ∷ []) ≡ codes "/srv/a/config"
unfolding join_path clean clean_elements split join eqs
joined = refl

directory : dir_of (codes "/srv/a/config") ≡ codes "/srv/a"
unfolding dir_of split_last clean clean_elements split join eqs
directory = refl

directory_of_name : dir_of (codes "config") ≡ codes "."
unfolding dir_of split_last clean clean_elements split join eqs
directory_of_name = refl
