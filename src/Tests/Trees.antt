-- ===== src/Tests/Trees.antt =====
-- A red-black tree of three nodes: 4 and 12, red, under 8, black.
use ming.RbTree.Lookup.{rbt_lookup-Found, Found}
use ming.RbTree.InsertNode.{rbt_insert-IsRedBlack, linked, linked-Zip}
use ming.RbTree.Moves.{down_left}
use ming.RbTree.Update.{rbt_insert}
use ming.RbTree.Balance.{IsRedBlack, Balanced, NoRedPair}
use ming.RbTree.Search.{rbt_lookup_insert-Answer, Answer, height}
use ming.RbTree.Fix.{depth, Rooted}
use ming.RbTree.Shape.{
  after, before, addresses, top, ApartTrail, Apart, IsTrail, leaf, node, in_tree, left_child, Trail,
  Tree, in_trail, IsAddress, Zip, IsTree, plug,
}
use ming.RbTree.{rbt_lookup, left_of, rbt_lookup_insert, RbTreeOps, RbTree}
use ming.Base.{
  ◌∷◌, none, ◌++◌, ◌-◌, pos, negsuc, ltb, false, true, ◌≡◌, ◌≤◌, refl, update, arith, if◌then◌else◌,
  ℕ, ◌<◌, Returns,
}

abbrev three : RbTree
three = record {
  root = 8;
  pcolor = update (update (update (λ _. 0) 8 1) 4 8) 12 8;
  left = update (λ _. 0) 8 4;
  right = update (λ _. 0) 8 12;
}

abbrev red_4 : Tree
red_4 = node leaf 4 false leaf

abbrev red_12 : Tree
red_12 = node leaf 12 false leaf

abbrev black_8 : Tree
black_8 = node red_4 8 true red_12

three-Zip : Zip three black_8 top
unfolding IsTree IsTrail in_tree Apart ApartTrail in_trail
three-Zip = record {
  place = 8;
  tree = (
    refl,
    record { nonnull = omega arith; even = refl },
    refl,
    (refl, record { nonnull = omega arith; even = refl }, refl, refl, refl),
    (refl, record { nonnull = omega arith; even = refl }, refl, refl, refl),
  );
  trail = refl;
  apart = (
    refl,
    refl,
    λ b h. ground arith,
    (refl, refl, λ b h. refl, tt, tt),
    (refl, refl, λ b h. refl, tt, tt),
  );
  apart_trail = tt;
  outside = λ b h. refl;
}

abbrev under_4 : Trail
under_4 = left_child 4 false leaf (left_child 8 true red_12 top)

under_4-Zip : Zip three leaf under_4
under_4-Zip =
    down_left three leaf 4 false leaf (left_child 8 true red_12 top)
      (down_left three red_4 8 true red_12 top three-Zip)

two-IsAddress : IsAddress 2
two-IsAddress = record { nonnull = omega arith; even = refl }

not_two : in_trail 2 under_4 ≡ false
unfolding in_trail in_tree
not_two = refl

two_Rooted : Rooted under_4
unfolding Rooted
two_Rooted = refl

two_depth : (n : ℕ) → 3 ≤ n → depth under_4 < n
unfolding depth
two_depth n h = omega (arith, h)

two_linked : Zip (linked three 2 under_4) (node leaf 2 false leaf) under_4
two_linked = linked-Zip under_4 three 2 under_4-Zip two-IsAddress not_two

three-IsRedBlack : IsRedBlack (plug under_4 leaf)
unfolding plug NoRedPair Balanced
three-IsRedBlack = record {
  black_root = refl;
  no_red_pair = (λ e. cc, (λ _. (refl, refl), tt, tt), (λ _. (refl, refl), tt, tt));
  height = 1;
  balanced = (0, refl, (0, refl, refl, refl), (0, refl, refl, refl));
}

rbt_insert-IsRedBlack_example : Returns (rbt_insert 3 4 (left_of 4) 2 three) (λ _ u.
    (t : Tree) × Zip u t top
    × IsRedBlack t
    × (addresses (plug under_4 leaf) ≡ before under_4 ++ after under_4)
    × (addresses t ≡ before under_4 ++ 2 ∷ after under_4))
rbt_insert-IsRedBlack_example =
    rbt_insert-IsRedBlack three under_4 2 3 under_4-Zip three-IsRedBlack two-IsAddress not_two
      (two_depth 3 (omega arith))

-- Nodes compared by their addresses.
abbrev address_ops : RbTreeOps
address_ops = record {
  get_key = λ n. n;
  cmp = λ j k. if ltb j k then negsuc 0 else pos (j - k);
  free_node = none;
}

three_height : height black_8 < 3
unfolding height
three_height = omega arith

rbt_lookup_insert-Answer_example :
    Returns
      (rbt_lookup_insert address_ops 3 12 three)
      (λ r u. (u ≡ three) × Answer address_ops 12 three black_8 r)
rbt_lookup_insert-Answer_example =
    rbt_lookup_insert-Answer address_ops 12 three black_8 3 three-Zip three_height

rbt_lookup-Found_example :
    Returns
      (rbt_lookup address_ops 3 5 three)
      (λ r u. (u ≡ three) × Found address_ops 5 three black_8 r)
rbt_lookup-Found_example = rbt_lookup-Found address_ops 5 three black_8 3 three-Zip three_height
