-- ===== src/Tree/Remove/Outcome.antt =====
-- common/src/tree/tree.c: `BStree_remove` on a tree of nodes in the heap.
use morning_projects.Common.{
  ℕ, suc, ◌+◌, ◌-◌, ◌%◌, ◌^◌, ◌≤◌, ◌<◌, ◌≡◌, refl, sym, ◌∙◌, ap, subst, true, false, none, some,
  List, [], ◌∷◌, ◌++◌, ◌==◌, arith, ◌>>=◌, append_assoc,
}
use Prim.Native.Nat.{Ordering}
use morning_projects.Tree.{Ptr, exit_success, exit_failure, compare_data}
use morning_projects.Tree.Strict.{Strict, delete, delete_right, Strict-parts}
use morning_projects.Tree.Remove.{HeapTree, passed, remove_found, bstree_remove, lookup_at}
use morning_projects.Tree.Remove.Placed.{
  Placed, leaf, node, address, inorder, Lies, Frame, went_left, went_right, plug, parent, LiesAbove,
  count, count-plug, inorder-plug, before, behind, size,
}
use morning_projects.Tree.Remove.Located.{
  Spot, smallest, Answers, Found, locate, locate-Found, lookup_at-locate,
}
use morning_projects.Tree.Remove.Removal.{Once, Holds, refill, remove_found-alone, alone-Holds}
use morning_projects.Tree.Remove.Replaced.{
  remove_found-replaced, final-Holds, spot, rest, spot-Lies, replaced,
}
use morning_projects.Tree.Remove.Lost.{Looped, remove_found_root, remove_found_lost}

-- a node that is removed well: without right child, or with one that has a left child
abbrev pub IsSafe : Placed → Type 0
IsSafe leaf = Unit
IsSafe (node leaf b m y) = ⊥
IsSafe (node (node x d n z) b m y) = Unit

-- The node of `k` has gone, and nothing else.
pub record Without (t u : HeapTree) (s : Placed) (k : Ptr) : Type 0 where
  pub left : Placed
  pub holds : Holds u left
  pub before_it : List Ptr
  pub behind_it : List Ptr
  pub was : inorder s ≡ before_it ++ (k ∷ behind_it)
  pub is : inorder left ≡ before_it ++ behind_it
  pub num_nodes : u.num_nodes ≡ (t.num_nodes + 2 ^ 32 - 1) % 2 ^ 32

size-plug : (fs : List Frame) (t : Placed) → size t ≤ size (plug fs t)
size-plug [] t = omega arith
size-plug (went_left a k r ∷ fs) t = omega (arith, size-plug fs (node t a k r))
size-plug (went_right l a k ∷ fs) t = omega (arith, size-plug fs (node l a k t))

refill_num : (t : HeapTree) (fs : List Frame) (x : ℕ) → (refill t fs x).num_nodes ≡ t.num_nodes
refill_num t [] x = refl
refill_num t (f ∷ fs) x = refl

smallest-before :
    (l : Placed) (a : ℕ) (k : Ptr) (r : Placed) (fs : List Frame)
    → before fs ≡ []
    → before (smallest l a k r fs).0 ≡ []
smallest-before leaf a k r fs e = e
smallest-before (node x b m y) a k r fs e = smallest-before x b m y (went_left a k r ∷ fs) e

module _ (fuel : ℕ) (t : HeapTree) where
  inorder_at :
      (fs : List Frame) (l : Placed) (a : ℕ) (k : Ptr) (r : Placed)
      → inorder (plug fs (node l a k r))
        ≡ (before fs ++ inorder l) ++ (k ∷ (inorder r ++ behind fs))
  inorder_at fs l a k r =
      inorder-plug fs (node l a k r)
      ∙ (ap (λ xs. before fs ++ xs) (append_assoc (inorder l) (k ∷ inorder r) (behind fs))
          ∙ sym (append_assoc (before fs) (inorder l) (k ∷ (inorder r ++ behind fs))))

  counted_out :
      {n : ℕ} → n ≡ t.num_nodes → (n + 2 ^ 32 - 1) % 2 ^ 32 ≡ (t.num_nodes + 2 ^ 32 - 1) % 2 ^ 32
  counted_out e = ap (λ n. (n + 2 ^ 32 - 1) % 2 ^ 32) e

  inorder-rest :
      (fs : List Frame) (l : Placed) (a : ℕ) (k : Ptr) (x : Placed) (d : ℕ) (n : Ptr) (z : Placed)
      (b : ℕ) (m : Ptr) (y : Placed) (p : LiesAbove t.heap fs (suc a))
      (lies : Lies t.heap (node l a k (node (node x d n z) b m y)))
      (once : Once fs (node l a k (node (node x d n z) b m y)))
      → inorder (node (node x d n z) b m y)
        ≡ (spot t fs l a k x d n z b m y p lies once).2
          ∷ inorder (rest t fs l a k x d n z b m y p lies once)
  inorder-rest fs l a k x d n z b m y p lies once =
      let (gs, c, ck, cy) = spot t fs l a k x d n z b m y p lies once in
      let none_before = smallest-before x d n z (went_left b m y ∷ []) refl in
      sym (ap inorder (spot-Lies t fs l a k x d n z b m y p lies once).2)
      ∙ (inorder-plug gs (node leaf c ck cy)
          ∙ (ap (λ xs. xs ++ (ck ∷ (inorder cy ++ behind gs))) none_before
              ∙ ap (λ xs. ck ∷ xs)
                  (sym
                    (inorder-plug gs cy ∙ ap (λ xs. xs ++ (inorder cy ++ behind gs)) none_before))))

  remove_found-Without :
      (fs : List Frame) (l : Placed) (a : ℕ) (k : Ptr) (r : Placed)
      → size r < fuel
      → t.root ≡ address (plug fs (node l a k r))
      → LiesAbove t.heap fs (suc a)
      → Lies t.heap (node l a k r)
      → Once fs (node l a k r)
      → IsSafe r
      → (u : HeapTree) × (remove_found fuel t (suc a, parent fs)
          ≡ some (exit_success, u, passed t k))
        × Without t u (plug fs (node l a k r)) k
  remove_found-Without fs l a k leaf enough root p lies once safe = (
    _,
    remove_found-alone t fs l a k p lies once fuel,
    record {
      left = plug fs l;
      holds = alone-Holds t fs l a k p lies once root;
      before_it = before fs ++ inorder l;
      behind_it = behind fs;
      was = inorder_at fs l a k leaf;
      is = inorder-plug fs l ∙ sym (append_assoc (before fs) (inorder l) (behind fs));
      num_nodes = counted_out (refill_num t fs (address l));
    },
  )
  remove_found-Without fs l a k (node leaf b m y) enough root p lies once safe = absurd safe
  remove_found-Without fs l a k (node (node x d n z) b m y) enough root p lies once safe = (
    _,
    remove_found-replaced t fs l a k x d n z b m y p lies once fuel enough,
    record {
      left = plug fs (replaced t fs l a k x d n z b m y p lies once);
      holds = final-Holds t fs l a k x d n z b m y p lies once root;
      before_it = before fs ++ inorder l;
      behind_it = inorder (node (node x d n z) b m y) ++ behind fs;
      was = inorder_at fs l a k (node (node x d n z) b m y);
      is =
          inorder_at fs l (spot t fs l a k x d n z b m y p lies once).1
            (spot t fs l a k x d n z b m y p lies once).2
            (rest t fs l a k x d n z b m y p lies once)
          ∙ ap (λ xs. (before fs ++ inorder l) ++ (xs ++ behind fs))
              (sym (inorder-rest fs l a k x d n z b m y p lies once));
      num_nodes = counted_out (refill_num t fs (suc (spot t fs l a k x d n z b m y p lies once).1));
    },
  )

  lookup_located :
      (deref : Ptr → ℕ) (q : Ptr) (s : Placed)
      → Holds t s
      → size s < fuel
      → Answers deref q (lookup_at fuel deref t.heap t.root q 0) (locate deref q s [])
  lookup_located deref q s holds enough =
      subst (λ x. Answers deref q (lookup_at fuel deref t.heap x q 0) (locate deref q s []))
        (sym holds.root) (lookup_at-locate deref q t.heap fuel s [] enough holds.lies)

  asked :
      (deref : Ptr → ℕ) (q : Ptr) (s : Placed) (found : ℕ × ℕ)
      → Holds t s
      → (address s == 0) ≡ false
      → lookup_at fuel deref t.heap t.root q 0 ≡ some found
      → bstree_remove fuel deref t q ≡ remove_found fuel t found
  unfolding bstree_remove
  asked deref q s found holds more e =
      let some_root : (t.root == 0) ≡ false = rw holds.root more in
      rw some_root (ap (λ o. o >>= λ f. remove_found fuel t f) e)

  located_root :
      (deref : Ptr → ℕ) (q : Ptr) (s : Placed) (spot : Spot)
      → locate deref q s [] ≡ some spot
      → (address s == 0) ≡ false
  located_root deref q leaf spot e = cc
  located_root deref q (node l a k r) spot e = ground arith

  not_found :
      (deref : Ptr → ℕ) (q : Ptr) (s : Placed)
      → Holds t s
      → size s < fuel
      → locate deref q s [] ≡ none
      → bstree_remove fuel deref t q ≡ some (exit_failure, t, [])
  unfolding bstree_remove
  not_found deref q leaf holds enough e =
      let no_root : (t.root == 0) ≡ true = rw holds.root refl in rw no_root refl
  not_found deref q (node l a k r) holds enough e =
      let (p, answer) =
        subst (Answers deref q (lookup_at fuel deref t.heap t.root q 0)) e
          (lookup_located deref q (node l a k r) holds enough) in
      asked deref q (node l a k r) (0, p) holds (ground arith) answer

  -- the node at the end of the search, with what is known of it
  found_at :
      (deref : Ptr → ℕ) (q : Ptr) (s : Placed) (fs : List Frame) (l : Placed) (a : ℕ) (k : Ptr)
      (r : Placed)
      → Holds t s
      → Once [] s
      → size s < fuel
      → locate deref q s [] ≡ some (fs, l, a, k, r)
      → (bstree_remove fuel deref t q ≡ remove_found fuel t (suc a, parent fs))
        × Found deref q t.heap s (some (fs, l, a, k, r))
        × Once fs (node l a k r)
        × (size r < fuel)
  found_at deref q s fs l a k r holds once enough e =
      let found =
        subst (Found deref q t.heap s) e (locate-Found deref q t.heap s [] tt holds.lies) in
      let answer =
        subst (Answers deref q (lookup_at fuel deref t.heap t.root q 0)) e
          (lookup_located deref q s holds enough) in
      (
        asked deref q s (suc a, parent fs) holds (located_root deref q s (fs, l, a, k, r) e) answer,
        found,
        (λ x.
            let split = count-plug x fs (node l a k r) in
            let same = ap (count x) found.2 in omega (arith, once x, split, same)),
        let below = size-plug fs (node l a k r) in
            let same = ap size found.2 in omega (arith, enough, below, same),
      )

equal_data :
    (deref : Ptr → ℕ) (q k : Ptr) → compare_data deref q k ≡ Ordering.eq → deref q ≡ deref k
equal_data deref q k e = ground arith

delete-gone :
    (deref : Ptr → ℕ) (q k : Ptr) (xs ys : List Ptr)
    → Strict deref (xs ++ (k ∷ ys))
    → deref q ≡ deref k
    → delete deref q (xs ++ (k ∷ ys)) ≡ xs ++ ys
delete-gone deref q k xs ys strict e =
    let (_, below, _, _) = Strict-parts deref xs k ys strict in
    delete_right deref q (deref k) xs (k ∷ ys) (omega (arith, e)) below ∙ ground (arith, e)

Without-delete :
    (deref : Ptr → ℕ) (t u : HeapTree) (s : Placed) (q k : Ptr) (w : Without t u s k)
    → deref q ≡ deref k
    → Strict deref (inorder s)
    → inorder w.left ≡ delete deref q (inorder s)
Without-delete deref t u s q k w e strict =
    w.is
    ∙ (sym (delete-gone deref q k w.before_it w.behind_it (subst (Strict deref) w.was strict) e)
        ∙ ap (delete deref q) (sym w.was))

-- Let the nodes of a tree lie in the heap at different addresses, and the fuel be more than their
-- number. Where `lookup` finds no node, `BStree_remove` fails and changes nothing. Where it finds one
-- without right child, or whose right child has a left child, it succeeds: a tree without that node
-- lies in the heap, its in-order sequence, if the old one is strictly sorted, is the old one with the
-- datum deleted, and the count is one less modulo 2 ^ 32. Where the right child has no left child, it
-- reads through NULL at the root; below the root it succeeds, but the right child becomes its own
-- right child, and the parent's left child is what that right child was.
pub bstree_remove-Without :
    (deref : Ptr → ℕ) (t : HeapTree) (s : Placed) (q : Ptr) (fuel : ℕ)
    → Holds t s
    → Once [] s
    → size s < fuel
    → (locate deref q s [] ≡ none → bstree_remove fuel deref t q ≡ some (exit_failure, t, []))
      × ((fs : List Frame) (l : Placed) (a : ℕ) (k : Ptr) (r : Placed)
          → locate deref q s [] ≡ some (fs, l, a, k, r)
          → IsSafe r
          → (u : HeapTree) × (bstree_remove fuel deref t q ≡ some (exit_success, u, passed t k))
            × (w : Without t u s k) × (Strict deref (inorder s)
                → inorder w.left ≡ delete deref q (inorder s)))
      × ((l : Placed) (a : ℕ) (k : Ptr) (b : ℕ) (m : Ptr) (y : Placed)
          → locate deref q s [] ≡ some ([], l, a, k, node leaf b m y)
          → bstree_remove fuel deref t q ≡ none)
      × ((f : Frame) (fs : List Frame) (l : Placed) (a : ℕ) (k : Ptr) (b : ℕ) (m : Ptr) (y : Placed)
          → locate deref q s [] ≡ some (f ∷ fs, l, a, k, node leaf b m y)
          → (u : HeapTree) × (bstree_remove fuel deref t q ≡ some (exit_success, u, passed t k))
            × Looped t l a k b m y (parent (f ∷ fs)) u)
bstree_remove-Without deref t s q fuel holds once enough = (
  not_found fuel t deref q s holds enough,
  λ fs l a k r e safe.
      let (asks, (path, lies, same, equal), apart, below) =
        found_at fuel t deref q s fs l a k r holds once enough e in
      let (u, removed, w) =
        remove_found-Without fuel t fs l a k r below (holds.root ∙ ap address (sym same)) path lies
          apart safe in
      (
        u,
        asks ∙ removed,
        subst (λ x. Without t u x k) same w,
        Without-delete deref t u s q k (subst (λ x. Without t u x k) same w)
            (equal_data deref q k equal),
      ),
  λ l a k b m y e.
      let (asks, (path, lies, same, equal), apart, below) =
        found_at fuel t deref q s [] l a k (node leaf b m y) holds once enough e in
      asks ∙ remove_found_root t l a k b m y fuel (omega (arith, enough)) lies,
  λ f fs l a k b m y e.
      let (asks, (path, lies, same, equal), apart, below) =
        found_at fuel t deref q s (f ∷ fs) l a k (node leaf b m y) holds once enough e in
      let (u, removed, looped) =
        remove_found_lost t l a k b m y fuel f fs (omega (arith, enough)) path lies apart in
      (u, asks ∙ removed, looped),
)
