-- ===== src/Tests/TreeTests.antt =====
-- The search trees of include/chaistl/containers/tree at concrete inputs.
use chaistl.Common.{ℕ, ◌≡◌, refl, [], ◌∷◌, none, ltb}
use chaistl.Tree.Node.{Tree, null, node, from_left, from_right, Place}
use chaistl.Tree.Search.{find_search}
use chaistl.Common.{arith}
use chaistl.Tree.Node.{root_of}
use chaistl.Tree.Treap.Order.{IsTreap}
use chaistl.Tree.Node.{root_of}

-- The values 10, 20, 20, 30, without extensions.
abbrev small : Tree Unit ℕ
small = node (node null 10 tt null) 20 tt (node (node null 20 tt null) 30 tt null)

-- The node with 20 below 30.
abbrev inner : Place Unit ℕ
inner = record {
  left = null;
  value = 20;
  ext = tt;
  right = null;
  above = from_left 30 tt null ∷ from_right (node null 10 tt null) 20 tt ∷ [];
}

find_search_run : (find_search {E = Unit} (λ x. x) ltb 15 small).result ≡ none
unfolding find_search
find_search_run = refl

-- A treap of 10, 20, 30 with the priorities 7, 3, 9.
abbrev heaped : Tree ℕ ℕ
heaped = node (node null 10 7 null) 20 3 (node null 30 9 null)

abbrev at_20 : Place ℕ ℕ
at_20 = record {
  left = node null 10 7 null;
  value = 20;
  ext = 3;
  right = node null 30 9 null;
  above = [];
}

heaped-IsTreap : IsTreap heaped
heaped-IsTreap = ((omega arith, ((tt, tt), (tt, tt))), (omega arith, ((tt, tt), (tt, tt))))

at_20-IsTreap : IsTreap (root_of at_20)
unfolding root_of
at_20-IsTreap = heaped-IsTreap
