-- ===== src/Tests/Lists.antt =====
-- A ring of three nodes behind a head, and a single linked list of two.
use ming.List.Remove.{list_remove-IsRing}
use ming.List.Insert.{list_append-IsRing}
use ming.List.Traverse.{list_foreach_safe-remove}
use ming.SList.{slist_pop, slist_foreach_safe, slist_push, SLinks}
use ming.List.Ring.{SameOutside, IsRing}
use ming.List.{list_append, list_remove, list_foreach_safe, Links}
use ming.SList.Ends.{slist_foreach_safe-visits, slist_push-pop, IsSList}
use ming.Base.{false, arith, elem, ◌++◌, refl, [], some, update, ◌≡◌, List, Returns, Run, ◌∷◌, ℕ}

-- The links 1 → 2 → 3 → 4 → 1.
abbrev links : Links
links = record {
  prev = update (update (update (update (λ _. 0) 1 4) 2 1) 3 2) 4 3;
  next = update (update (update (update (λ _. 0) 1 2) 2 3) 3 4) 4 1;
}

abbrev nodes : List ℕ
nodes = 2 ∷ 3 ∷ 4 ∷ []

links-IsRing : IsRing links 1 nodes
links-IsRing = record {
  chain = ((refl, refl), ((refl, refl), ((refl, refl), (refl, refl))));
  nonnull = refl;
  distinct = (refl, (refl, (refl, (refl, tt))));
}

list_append-IsRing_example :
    Returns
      (list_append 1 9 links)
      (λ _ t. IsRing t 1 (nodes ++ 9 ∷ []) × SameOutside (9 ∷ 1 ∷ nodes) links t)
list_append-IsRing_example = list_append-IsRing links 1 9 nodes links-IsRing refl

list_remove-IsRing_example :
    Returns
      (list_remove 3 links)
      (λ _ t. IsRing t 1 (2 ∷ 4 ∷ []) × SameOutside (1 ∷ 2 ∷ 4 ∷ []) links t)
list_remove-IsRing_example = list_remove-IsRing links 1 3 (2 ∷ []) (4 ∷ []) links-IsRing

list_foreach_safe-remove_example :
    Returns
      (list_foreach_safe list_remove 4 1 links)
      (λ visited t. (visited ≡ nodes) × IsRing t 1 [])
list_foreach_safe-remove_example =
    list_foreach_safe-remove links 1 nodes 4 links-IsRing (omega arith)

-- The links 1 → 2 → 3 → NULL.
abbrev slinks : SLinks
slinks = record { next = update (update (λ _. 0) 1 2) 2 3 }

abbrev snodes : List ℕ
snodes = 2 ∷ 3 ∷ []

slinks-IsSList : IsSList slinks 1 snodes
slinks-IsSList = record {
  chain = (refl, omega arith, refl, (refl, omega arith, refl, refl));
  head_nonnull = omega arith;
  apart = refl;
}

slist_push-pop_example : Returns (slist_push 1 7 slinks) (λ _ t.
    IsSList t 1 (7 ∷ snodes) × Returns (slist_pop 1 t) (λ n u. (n ≡ 7) × IsSList u 1 snodes))
slist_push-pop_example = slist_push-pop slinks 1 7 snodes slinks-IsSList (omega arith) refl

-- A `free` that fills the node with a pattern.
abbrev poison : ℕ → Run SLinks (Unit {0})
poison a s = some (tt, record { next = update s.next a 0xdead })

slist_foreach_safe-visits_example :
    Returns (slist_foreach_safe poison 3 1 slinks) (λ visited t.
      (visited ≡ snodes) × ((a : ℕ) → elem a snodes ≡ false → t.next a ≡ slinks.next a))
slist_foreach_safe-visits_example =
    slist_foreach_safe-visits poison (λ _ _. 0xdead) slinks 1 snodes 3 slinks-IsSList (λ a s. refl)
      (omega arith)
