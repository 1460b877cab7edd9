-- ===== src/RbTree/Moves.antt =====
-- Up and down between the views of one tree, and what the accessors give at a subtree.
use ming.RbTree.Shape.{
  node, right_child, left_child, Zip, Trail, Tree, ApartTrail, Apart, in_trail, in_tree, IsTrail,
  IsTree,
}
use ming.RbTree.{RbTree}
use ming.Base.{refl, subst, arith, Bool, ℕ}

pub up_left :
    (s : RbTree) (t : Tree) (a : ℕ) (c : Bool) (r : Tree) (k : Trail)
    → Zip s t (left_child a c r k)
    → Zip s (node t a c r) k
unfolding IsTree IsTrail in_tree in_trail Apart ApartTrail
up_left s t a c r k z = record {
  place = a;
  tree = (refl, z.trail.0, z.trail.2, rw (z.trail.1) (z.tree), z.trail.3);
  trail = z.trail.4;
  apart = (
    ground (arith, z.outside a),
    z.apart_trail.0,
    λ b h. ground (arith, z.outside b h),
    z.apart,
    z.apart_trail.3,
  );
  apart_trail = z.apart_trail.4;
  outside = λ b h. ground (arith, z.outside b, z.apart_trail.2 b);
}

pub up_right :
    (s : RbTree) (l : Tree) (a : ℕ) (c : Bool) (t : Tree) (k : Trail)
    → Zip s t (right_child l a c k)
    → Zip s (node l a c t) k
unfolding IsTree IsTrail in_tree in_trail Apart ApartTrail
up_right s l a c t k z = record {
  place = a;
  tree = (refl, z.trail.0, z.trail.2, z.trail.3, rw (z.trail.1) (z.tree));
  trail = z.trail.4;
  apart = (
    z.apart_trail.0,
    ground (arith, z.outside a),
    λ b h. ground (arith, z.outside b),
    z.apart_trail.3,
    z.apart,
  );
  apart_trail = z.apart_trail.4;
  outside = λ b h. ground (arith, z.outside b, z.apart_trail.2 b);
}

pub down_left :
    (s : RbTree) (l : Tree) (a : ℕ) (c : Bool) (r : Tree) (k : Trail)
    → Zip s (node l a c r) k
    → Zip s l (left_child a c r k)
unfolding IsTree IsTrail in_tree in_trail Apart ApartTrail
down_left s l a c r k z = record {
  place = s.left a;
  tree = z.tree.3;
  trail = (z.tree.1, refl, z.tree.2, z.tree.4, subst (λ p. IsTrail s p k) z.tree.0 z.trail);
  apart = z.apart.3;
  apart_trail = (
    z.apart.1,
    ground (arith, z.outside a),
    λ b h. ground (arith, z.outside b),
    z.apart.4,
    z.apart_trail,
  );
  outside = λ b h. ground (arith, z.outside b, z.apart.2 b);
}

pub down_right :
    (s : RbTree) (l : Tree) (a : ℕ) (c : Bool) (r : Tree) (k : Trail)
    → Zip s (node l a c r) k
    → Zip s r (right_child l a c k)
unfolding IsTree IsTrail in_tree in_trail Apart ApartTrail
down_right s l a c r k z = record {
  place = s.right a;
  tree = z.tree.4;
  trail = (z.tree.1, refl, z.tree.2, z.tree.3, subst (λ p. IsTrail s p k) z.tree.0 z.trail);
  apart = z.apart.4;
  apart_trail = (
    z.apart.0,
    ground (arith, z.outside a),
    λ b h. ground (arith, z.outside b),
    z.apart.3,
    z.apart_trail,
  );
  outside = λ b h. ground (arith, z.outside b, z.apart.2 b);
}
