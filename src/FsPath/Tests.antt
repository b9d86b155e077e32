-- ===== src/FsPath/Tests.antt =====
-- Runs of the path operations on the cases that `std::path` documents.
use omne_runtime.Base.{◌≡◌, refl, true, false, none, some, [], ◌∷◌, codes}
use omne_runtime.FsPath.{
  root_dir, cur_dir, parent_dir, normal, components, file_name, parent, push, path_starts_with,
  path_equals,
}

components_absolute :
    components (codes "//usr/./bin/../x/")
    ≡ root_dir ∷ normal (codes "usr") ∷ normal (codes "bin") ∷ parent_dir ∷ normal (codes "x") ∷ []
unfolding components codes
components_absolute = refl

components_relative :
    (components (codes "./a/b") ≡ cur_dir ∷ normal (codes "a") ∷ normal (codes "b") ∷ [])
    × (components (codes "a/./b") ≡ normal (codes "a") ∷ normal (codes "b") ∷ [])
unfolding components codes
components_relative = (refl, refl)

file_names :
    (file_name (codes "/usr/bin/") ≡ some (codes "bin"))
    × (file_name (codes "tmp/foo.txt/.") ≡ some (codes "foo.txt"))
    × (file_name (codes "foo.txt/..") ≡ none)
    × (file_name (codes "/") ≡ none)
unfolding file_name codes
file_names = (refl, refl, refl, refl)

parents :
    (parent (codes "/foo/bar") ≡ some (codes "/foo"))
    × (parent (codes "/foo") ≡ some (codes "/"))
    × (parent (codes "/") ≡ none)
    × (parent (codes "foo/bar") ≡ some (codes "foo"))
    × (parent (codes "foo") ≡ some [])
    × (parent (codes "/a//b/./") ≡ some (codes "/a"))
unfolding parent codes
parents = (refl, refl, refl, refl, refl, refl)

pushes :
    (push (codes "/tmp") (codes "x") ≡ codes "/tmp/x")
    × (push (codes "/") (codes "x") ≡ codes "/x")
    × (push [] (codes "x") ≡ codes "x")
    × (push (codes "/tmp") (codes "/x") ≡ codes "/x")
unfolding push codes
pushes = (refl, refl, refl, refl)

prefixes :
    (path_starts_with (codes "/work/a") (codes "/work/") ≡ true)
    × (path_starts_with (codes "/work2/a") (codes "/work") ≡ false)
    × (path_equals (codes "/work/./a") (codes "/work/a/") ≡ true)
unfolding path_starts_with path_equals codes
prefixes = (refl, refl, refl)
