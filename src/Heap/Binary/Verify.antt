-- ===== src/Heap/Binary/Verify.antt =====
-- What the visitors of `verify` in skew_heap.hpp and leftist_heap.hpp, under
-- include/chaistl/containers/heap/policy, both test at a node.
use chaistl.Common.{Bool}
use chaistl.Heap.Link.{Link, null, node}
use chaistl.Heap.Link.Order.{HasTwo, IsBinary, Below, IsHeap}
use chaistl.Heap.Link.Verify.{EveryNode}

module _ {ℓ} {E : Type 0} {A : Type ℓ} (cmp : A → A → Bool) where
  -- What the visitor of `verify` tests.
  abbrev pub NodeOk : Link E A → Type ℓ
  NodeOk null = Unit
  NodeOk (node f n e v) = HasTwo f × Below cmp v f

  pub NodeOk-all : (h : Link E A) → IsBinary h → IsHeap cmp h → EveryNode NodeOk h
  NodeOk-all null b i = tt
  NodeOk-all (node f n e v) b i = ((b.0, i.0), NodeOk-all f b.1 i.1, NodeOk-all n b.2 i.2)

  pub all-NodeOk : (h : Link E A) → EveryNode NodeOk h → IsBinary h × IsHeap cmp h
  all-NodeOk null b = (tt, tt)
  all-NodeOk (node f n e v) b =
      let ih = all-NodeOk f b.1 in
      let jh = all-NodeOk n b.2 in ((b.0.0, ih.0, jh.0), (b.0.1, ih.1, jh.1))
