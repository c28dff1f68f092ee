-- ===== src/Lib.antt =====
-- Models of the containers and algorithms of chaistl, and the theorems that make them correct.
--
-- chaistl is a C++ library of containers. The models are functions on values: a container is its
-- state, an operation gives the new state, and an operation that needs a precondition gives an Option
-- whose `none` is the failed CHAI_HARDENED check or the access out of range. A comparator is a
-- function into Bool that returns; the concept std::strict_weak_order that the containers require of
-- it is IsStrictWeak (Order).
--
-- Parts, files and code (paths from the repository's root, under include/chaistl):
--
--   Common, Order: shared names, Boolean tests and lists over the native numbers, the comparator.
--
--   Heap: containers/heap.
--     Heap/Link: heap_node of node.hpp, with first_child and next_sibling; prev_or_parent mirrors
--       them and is not stored, and a handle is the path of edges to its node. link_first_child,
--       link_root_front, for_each_node and count_nodes are the functions of these names.
--     Heap/Policy: the contract of a node heap policy, policy/concepts.hpp (node_heap_policy,
--       mutable_node_heap_policy), as operations (NodeHeapPolicy) with laws (IsLawful).
--     Heap/PriorityQueue: priority_queue.hpp over any policy: push, push_range, pop, top, join,
--       verify, erase, modify. Its laws take IsLawful as a parameter, and each policy below fills it.
--     Heap/Skew, Heap/Leftist, Heap/Pairing, Heap/Binomial: policy/skew_heap.hpp, leftist_heap.hpp,
--       pairing_heap.hpp and binomial_heap.hpp. Heap/Binary has the two-child helpers that skew and
--       leftist share.
--
--   Sort: algorithm/sort.hpp. An array is a list, and a position splits it into what is before,
--     nearest first, and what is from there on. insertion_sort, partial_insertion_sort, merge_sort,
--     stable_sort, bottom_up_merge_sort, selection_sort and bubble_sort are the functions of these
--     names.
--
--   Tree: containers/tree. A node pointer with its parent pointers is a node with the frames above
--     it, and the header is `none`; its leftmost and rightmost pointers follow from the frames.
--     Tree/Node: node.hpp, the steps in order and the rotations.
--     Tree/Search: the lookups of algorithm.hpp, and the insert positions.
--     Tree/Hint: the hinted insert positions.
--     Tree/Treap: policy/treap_tree.hpp, for any priority that the generator gives.
--     Tree/Splay: policy/splay_tree.hpp.
--     Tree/OrderStatistic: policy/order_statistic_tree.hpp, for any priority.
--     Tree/BinarySearchTree: binary_search_tree.hpp over any policy. The state is the tree, the
--       policy object and node_count_. A policy (BalancePolicy) is its operations as functions, and
--       IsBalancePolicy (Policy) is what the container relies on; Policies has the three policies above
--       with the generator splitmix64 as the policy object, and that they keep it. An iterator is the
--       node with the frames above it, or the header; after an operation that moves nodes, the
--       iterator to the same element is found again by its position in order (place_at, rank). Insert
--       (hinted, of node handles, of ranges), Erase (of a position, a range, a key; extraction),
--       Lookup, Transfer (merge), Copy (copy, move, swap, destruction), Validate and Rank (order
--       statistics) are the member functions of these names. A node handle is its value or nothing.
--
--   Hash: containers/hash.
--     Hash/Policy: prime_rehash_policy.hpp. The floating-point arithmetic with the load factor is not
--       under the repository's control: it is the parameter Load, and IsLoad (Table/Grow) says that
--       the rounded quotient is repaired in a bounded number of steps.
--     Hash/Table: hash_table.hpp with unique keys. A node is linked twice, in the chain of its bucket
--       and in the list in order of iteration; both hold its address, cached hash and value, and the
--       invariant (Invariant, over Chains) says that the two agree. Emplace has the other insertions and the
--       bucket interface; Grow, Insert, Erase, Clear, Copy and Merge are what is proved of the member
--       functions.
--
--   Sequence: containers/sequence.
--     Sequence/LinkedList: list.hpp. A list is the values of its nodes in order, which stand for the
--       links of both directions, and size_; a position is the number of nodes before it. Splice, Merge,
--       Sort (the counters of a bottom-up merge sort) and Remove (remove_if, unique) are what is proved
--       of these member functions; Range has the copies, resize and the ranges that are linked node by
--       node. insert of a count or a range, and assign, have no model: they leave the back links of
--       their nodes null, and the model has no back links.
--
--   Associative: containers/associative.
--     Associative/FlatSet: flat_set.hpp over the values of keys_. std::lower_bound, as a halving
--       search, and std::unique are written out; std::ranges::sort is a function that the insertion of
--       ranges takes, and its theorem asks that it sorts. Insert and Bulk compare with the insertion into a binary search tree, by
--       the reference set_insert of Tree/BinarySearchTree/Insert/Reference.
--
--   Tests: runs at concrete inputs, and instances of the theorems.
--
-- Bounds. Counts, degrees and priorities are natural numbers: a container that fits in memory does
-- not reach the 64-bit limit. The state of splitmix64 wraps around at 2 ^ 64, written out. Loops that
-- do not follow the data take fuel: meld of a skew heap the number of nodes, meld of a leftist heap the
-- sum of the two null path lengths, the outer loops of the sorts the length of the array, the
-- destruction of a tree twice its size and one, its merge the size of the source, its validation the
-- number of nodes that are left, the merge of two lists one more than their sizes, the search in a flat
-- set its size. Each operation starts its loop with that fuel. The repair of the rounding in a hash
-- table takes the number of steps that Load gives.
--
-- Not modelled: allocation, moves and destruction of values (a slot that was moved from keeps its
-- value), comparators, hash functions and constructors that throw, containers with unequal allocators,
-- and the storage of the back pointers. Of hash tables, equivalent keys, equality, the iterators of buckets
-- and the power-of-two policy have no model; a merge of hash tables takes both with the same hash
-- function. The other sequence containers, the other flat containers, the skip lists and the other
-- balance policies have no model here.
pub mod Common
pub mod Order
pub mod Heap
pub mod Sort
pub mod Tree
pub mod Tests
pub mod Hash
pub mod Sequence
pub mod Associative
