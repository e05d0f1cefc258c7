-- ===== src/Path/Tests.antt =====
-- The path "/a//bb" in a tree of three inodes.
use os_lab.Base.{ltb, if◌then◌else◌, ℕ, ◌+◌, ◌≡◌, refl, true, false, none, some, List, [], ◌∷◌}
use os_lab.Path.{
  skip_slashes, span_elem, skipelem, ilock, iunlock, iput, iget, Tree, Answer, round, namex_loop,
  namex,
}
use os_lab.Path.Namex.{Named, namex-Named}

abbrev path : List ℕ
path = b'/' ∷ b'a' ∷ b'/' ∷ b'/' ∷ b'b' ∷ b'b' ∷ []

-- The directories 1 and 2, and the file 3.
abbrev tree : Tree
tree = record { is_dir = λ i. ltb i 3; look = λ i name. if ltb i 3 then some (i + 1) else none }

found :
    namex tree false path 1 9
    ≡ some (
      some 3,
      b'b' ∷ b'b' ∷ [],
      iget 1 ∷ ilock 1 ∷ iget 2 ∷ iunlock 1 ∷ iput 1 ∷ ilock 2 ∷ iget 3 ∷ iunlock 2 ∷ iput 2 ∷ [],
    )
unfolding namex namex_loop skipelem skip_slashes span_elem round
found = refl

namex-Named_example : (a : Answer) × (namex tree true path 1 9 ≡ some a) × Named tree true path 1 a
namex-Named_example = namex-Named tree true path 1 9
