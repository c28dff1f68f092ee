-- ===== src/Tree/BinarySearchTree/Policies.antt =====
-- The policies of include/chaistl/containers/tree/policy as policies of a tree container:
-- treap_tree.hpp, splay_tree.hpp and order_statistic_tree.hpp, with the generator of priorities
-- detail/splitmix64.hpp.
use chaistl.Common.{true, false, ℕ, ◌+◌, ◌*◌, ◌/◌, ◌%◌, ◌^◌, ◌≡◌, refl, sym, arith, some, none}
use Prim.Native.Nat.{bit_xor}
use chaistl.Tree.Node.{Tree, null, node, elements}
use chaistl.Tree.Node.Order.{elements-root_of}
use chaistl.Tree.Treap
use chaistl.Tree.Treap.{root_less, verify_heap}
use chaistl.Tree.Treap.Order.{IsTreap, AtMost}
use chaistl.Tree.Treap.Laws as TreapLaws
use chaistl.Tree.Splay
use chaistl.Tree.Splay.Laws as SplayLaws
use chaistl.Tree.OrderStatistic
use chaistl.Tree.OrderStatistic.{Ext}
use chaistl.Tree.OrderStatistic.Sizes.{HasSizes}
use chaistl.Tree.OrderStatistic.Laws as OrderStatisticLaws
use chaistl.Tree.BinarySearchTree.{BalancePolicy}
use chaistl.Tree.BinarySearchTree.Policy.{IsBalancePolicy}

-- `splitmix64::next()`: the state afterwards and the number, which are 64 bits wide.
unfoldable pub next : ℕ → ℕ × ℕ
next state =
    let z = (state + 11400714819323198485) % 2 ^ 64 in
    let y = (bit_xor z (z / 2 ^ 30) * 13787848793156543929) % 2 ^ 64 in
    let x = (bit_xor y (y / 2 ^ 27) * 10723151780598845931) % 2 ^ 64 in (z, bit_xor x (x / 2 ^ 31))

-- The state of a new generator.
abbrev pub seed : ℕ
seed = 11400714819323198485

module _ {ℓ} {A : Type ℓ} where
  -- `treap_tree_policy`, whose state is that of the generator
  unfoldable pub treap_tree_policy : BalancePolicy ℕ ℕ A
  unfolding next Treap.insert_and_rebalance Treap.unlink_and_rebalance Treap.verify
  treap_tree_policy = record {
    insert_and_rebalance =
        λ s x slot. let (s', priority) = next s in (s', Treap.insert_and_rebalance x priority slot);
    unlink_and_rebalance = Treap.unlink_and_rebalance;
    after_access = none;
    verify = Treap.verify;
  }

  -- `splay_tree_policy`, with no state and no extension
  unfoldable pub splay_tree_policy : BalancePolicy Unit Unit A
  unfolding Splay.insert_and_rebalance Splay.unlink_and_rebalance Splay.after_access
  splay_tree_policy = record {
    insert_and_rebalance = λ s x slot. (s, Splay.insert_and_rebalance x tt slot);
    unlink_and_rebalance = Splay.unlink_and_rebalance;
    after_access = some Splay.after_access;
    verify = λ root. true;
  }

  -- `order_statistic_tree_policy`
  unfoldable pub order_statistic_tree_policy : BalancePolicy ℕ Ext A
  unfolding next OrderStatistic.insert_and_rebalance OrderStatistic.unlink_and_rebalance
      OrderStatistic.verify
  order_statistic_tree_policy = record {
    insert_and_rebalance = λ s x slot.
        let (s', priority) = next s in (s', OrderStatistic.insert_and_rebalance x priority slot);
    unlink_and_rebalance = OrderStatistic.unlink_and_rebalance;
    after_access = none;
    verify = OrderStatistic.verify;
  }

  -- The treap policy keeps the contract, with the heap order of the priorities as its invariant.
  pub treap_tree_policy-IsBalancePolicy : IsBalancePolicy treap_tree_policy IsTreap
  unfolding treap_tree_policy
  treap_tree_policy-IsBalancePolicy = record {
    on_null = tt;
    on_insert = λ s x slot b.
        let r = TreapLaws.insert_and_rebalance-IsTreap x (next s).1 slot b in
        record { balanced = r.0; content = r.1 };
    on_unlink = λ z b.
        let r = TreapLaws.unlink_and_rebalance-IsTreap z b in
        record { balanced = r.0; content = r.1 };
    on_access = tt;
  }

  -- The splay policy keeps it with any tree as balanced.
  pub splay_tree_policy-IsBalancePolicy : IsBalancePolicy splay_tree_policy (λ t. Unit)
  unfolding splay_tree_policy elements
  splay_tree_policy-IsBalancePolicy = record {
    on_null = tt;
    on_insert = λ s x slot b.
        let r = SplayLaws.insert_and_rebalance-RootIs x tt slot in
        record { balanced = tt; content = rw (r.shape, r.is_front, r.is_back) refl };
    on_unlink =
        λ z b. record { balanced = tt; content = SplayLaws.elements-unlink_and_rebalance z };
    on_access = λ x b.
        let r = SplayLaws.after_access-RootIs x in
        record {
          balanced = tt;
          content = rw (r.shape, r.is_front, r.is_back) (sym (elements-root_of x));
        };
  }

  -- The order statistic policy keeps it with the sizes of the subtrees as its invariant.
  pub order_statistic_tree_policy-IsBalancePolicy :
      IsBalancePolicy order_statistic_tree_policy HasSizes
  unfolding order_statistic_tree_policy
  order_statistic_tree_policy-IsBalancePolicy = record {
    on_null = tt;
    on_insert = λ s x slot b.
        let r = OrderStatisticLaws.insert_and_rebalance-HasSizes x (next s).1 slot b in
        record { balanced = r.0; content = r.1 };
    on_unlink = λ z b.
        let r = OrderStatisticLaws.unlink_and_rebalance-HasSizes z b in
        record { balanced = r.0; content = r.1 };
    on_access = tt;
  }

  -- `verify` of the treap policy accepts its invariant.
  pub IsTreap-verify : (t : Tree ℕ A) → IsTreap t → treap_tree_policy.verify t ≡ true
  unfolding treap_tree_policy Treap.verify verify_heap root_less
  IsTreap-verify null h = refl
  IsTreap-verify (node l v p r) h =
      let left = IsTreap-verify l h.0.1 in
      let right = IsTreap-verify r h.1.1 in
      let near = at_most p l h.0.0 in
      let far = at_most p r h.1.0 in rw (left, right, near, far) refl
    where
      at_most : (p : ℕ) (t : Tree ℕ A) → AtMost p t → root_less t p ≡ false
      at_most p null h = refl
      at_most p (node l v q r) h = ground (arith, h)
