-- ===== src/Tree/Remove/Placed.antt =====
-- common/src/tree/tree.c: trees of nodes at their addresses, paths into them, and how they lie in a
-- heap.
use morning_projects.Common.{
  ℕ, suc, ◌+◌, ◌≤◌, ◌≡◌, refl, sym, ◌∙◌, ap, Option, some, List, [], ◌∷◌, ◌++◌, ◌==◌, if◌then◌else◌,
  arith, append_assoc, append-nil,
}
use morning_projects.Tree.{Ptr}
use morning_projects.Tree.Remove.{TreeCell, NodeHeap, store_node}

-- the node at address `suc a`
pub data Placed : Type 0 where
  leaf : Placed
  node : Placed → ℕ → Ptr → Placed → Placed

abbrev pub address : Placed → ℕ
address leaf = 0
address (node l a k r) = suc a

abbrev pub inorder : Placed → List Ptr
inorder leaf = []
inorder (node l a k r) = inorder l ++ (k ∷ inorder r)

abbrev pub size : Placed → ℕ
size leaf = 0
size (node l a k r) = size l + size r + 1

abbrev pub tree_cell : ℕ → Ptr → ℕ → Option TreeCell
tree_cell x k y = some (record { left_child = x; right_child = y; datum = k })

-- the tree lies in the heap
abbrev pub Lies : NodeHeap → Placed → Type 0
Lies h leaf = Unit
Lies h (node l a k r) = (h (suc a) ≡ tree_cell (address l) k (address r)) × Lies h l × Lies h r

-- a step down, with the node and its other child
pub data Frame : Type 0 where
  went_left : ℕ → Ptr → Placed → Frame
  went_right : Placed → ℕ → Ptr → Frame

abbrev pub plug : List Frame → Placed → Placed
plug [] t = t
plug (went_left a k r ∷ fs) t = plug fs (node t a k r)
plug (went_right l a k ∷ fs) t = plug fs (node l a k t)

-- the address of the innermost node of the path
abbrev pub parent : List Frame → ℕ
parent [] = 0
parent (went_left a k r ∷ fs) = suc a
parent (went_right l a k ∷ fs) = suc a

-- the path lies in the heap, with `x` below it
abbrev pub LiesAbove : NodeHeap → List Frame → ℕ → Type 0
LiesAbove h [] x = Unit
LiesAbove h (went_left a k r ∷ fs) x =
    (h (suc a) ≡ tree_cell x k (address r)) × Lies h r × LiesAbove h fs (suc a)
LiesAbove h (went_right l a k ∷ fs) x =
    (h (suc a) ≡ tree_cell (address l) k x) × Lies h l × LiesAbove h fs (suc a)

-- how often an address occurs
abbrev pub hit : ℕ → ℕ → ℕ
hit x a = if x == a then 1 else 0

abbrev pub count : ℕ → Placed → ℕ
count x leaf = 0
count x (node l a k r) = hit x a + count x l + count x r

abbrev pub count_path : ℕ → List Frame → ℕ
count_path x [] = 0
count_path x (went_left a k r ∷ fs) = hit x a + count x r + count_path x fs
count_path x (went_right l a k ∷ fs) = hit x a + count x l + count_path x fs

pub Lies-plug :
    (h : NodeHeap) (fs : List Frame) (t : Placed)
    → LiesAbove h fs (address t)
    → Lies h t
    → Lies h (plug fs t)
Lies-plug h [] t p l = l
Lies-plug h (went_left a k r ∷ fs) t (e, lr, p) l = Lies-plug h fs (node t a k r) p (e, l, lr)
Lies-plug h (went_right q a k ∷ fs) t (e, lr, p) l = Lies-plug h fs (node q a k t) p (e, lr, l)

pub store_self : (h : NodeHeap) (a : ℕ) (v : Option TreeCell) → store_node h a v a ≡ v
store_self h a v = ground arith

pub store_apart :
    (h : NodeHeap) (a b : ℕ) (v : Option TreeCell)
    → hit b a ≡ 0
    → store_node h (suc a) v (suc b) ≡ h (suc b)
store_apart h a b v e = ground arith

hit_self : (x : ℕ) → hit x x ≡ 1
hit_self x = ground arith

-- a heap with the same cells at the addresses of the tree, and of the path
pub Lies-agree :
    (h g : NodeHeap) (t : Placed)
    → ((b : ℕ) → 1 ≤ count b t → g (suc b) ≡ h (suc b))
    → Lies h t
    → Lies g t
Lies-agree h g leaf same l = tt
Lies-agree h g (node l a k r) same (e, ll, lr) = (
  same a (omega (arith, hit_self a)) ∙ e,
  Lies-agree h g l (λ b i. same b (omega (arith, i))) ll,
  Lies-agree h g r (λ b i. same b (omega (arith, i))) lr,
)

pub LiesAbove-agree :
    (h g : NodeHeap) (fs : List Frame) (x : ℕ)
    → ((b : ℕ) → 1 ≤ count_path b fs → g (suc b) ≡ h (suc b))
    → LiesAbove h fs x
    → LiesAbove g fs x
LiesAbove-agree h g [] x same p = tt
LiesAbove-agree h g (went_left a k r ∷ fs) x same (e, lr, p) = (
  same a (omega (arith, hit_self a)) ∙ e,
  Lies-agree h g r (λ b i. same b (omega (arith, i))) lr,
  LiesAbove-agree h g fs (suc a) (λ b i. same b (omega (arith, i))) p,
)
LiesAbove-agree h g (went_right l a k ∷ fs) x same (e, ll, p) = (
  same a (omega (arith, hit_self a)) ∙ e,
  Lies-agree h g l (λ b i. same b (omega (arith, i))) ll,
  LiesAbove-agree h g fs (suc a) (λ b i. same b (omega (arith, i))) p,
)

-- another child at the end of the path
abbrev pub relink : NodeHeap → List Frame → ℕ → NodeHeap
relink h [] x = h
relink h (went_left a k r ∷ fs) x = store_node h (suc a) (tree_cell x k (address r))
relink h (went_right l a k ∷ fs) x = store_node h (suc a) (tree_cell (address l) k x)

pub relink_apart :
    (h : NodeHeap) (fs : List Frame) (x b : ℕ)
    → count_path b fs ≡ 0
    → relink h fs x (suc b) ≡ h (suc b)
relink_apart h [] x b c = refl
relink_apart h (went_left a k r ∷ fs) x b c = store_apart h a b _ (omega (arith, c))
relink_apart h (went_right l a k ∷ fs) x b c = store_apart h a b _ (omega (arith, c))

pub relink-LiesAbove :
    (h : NodeHeap) (fs : List Frame) (x y : ℕ)
    → ((b : ℕ) → count_path b fs ≤ 1)
    → LiesAbove h fs y
    → LiesAbove (relink h fs x) fs x
relink-LiesAbove h [] x y once p = tt
relink-LiesAbove h (went_left a k r ∷ fs) x y once (e, lr, p) =
    let g = store_node h (suc a) (tree_cell x k (address r)) in
    (
      store_self h (suc a) _,
      Lies-agree h g r (λ b i. store_apart h a b _ (omega (arith, i, once b))) lr,
      LiesAbove-agree h g fs (suc a) (λ b i. store_apart h a b _ (omega (arith, i, once b))) p,
    )
relink-LiesAbove h (went_right l a k ∷ fs) x y once (e, ll, p) =
    let g = store_node h (suc a) (tree_cell (address l) k x) in
    (
      store_self h (suc a) _,
      Lies-agree h g l (λ b i. store_apart h a b _ (omega (arith, i, once b))) ll,
      LiesAbove-agree h g fs (suc a) (λ b i. store_apart h a b _ (omega (arith, i, once b))) p,
    )

pub address-plug :
    (fs : List Frame) (s t : Placed)
    → address s ≡ address t
    → address (plug fs s) ≡ address (plug fs t)
address-plug [] s t e = e
address-plug (went_left a k r ∷ fs) s t e = address-plug fs (node s a k r) (node t a k r) refl
address-plug (went_right l a k ∷ fs) s t e = address-plug fs (node l a k s) (node l a k t) refl

-- the data before and behind the hole
abbrev pub before : List Frame → List Ptr
before [] = []
before (went_left a k r ∷ fs) = before fs
before (went_right l a k ∷ fs) = before fs ++ (inorder l ++ (k ∷ []))

abbrev pub behind : List Frame → List Ptr
behind [] = []
behind (went_left a k r ∷ fs) = k ∷ (inorder r ++ behind fs)
behind (went_right l a k ∷ fs) = behind fs

pub inorder-plug :
    (fs : List Frame) (t : Placed) → inorder (plug fs t) ≡ before fs ++ (inorder t ++ behind fs)
inorder-plug [] t = sym (append-nil (inorder t))
inorder-plug (went_left a k r ∷ fs) t =
    inorder-plug fs (node t a k r)
    ∙ ap (λ xs. before fs ++ xs) (append_assoc (inorder t) (k ∷ inorder r) (behind fs))
inorder-plug (went_right l a k ∷ fs) t =
    inorder-plug fs (node l a k t)
    ∙ (ap (λ xs. before fs ++ xs)
          (append_assoc (inorder l) (k ∷ inorder t) (behind fs)
            ∙ sym (append_assoc (inorder l) (k ∷ []) (inorder t ++ behind fs)))
        ∙ sym (append_assoc (before fs) (inorder l ++ (k ∷ [])) (inorder t ++ behind fs)))

pub count-plug :
    (x : ℕ) (fs : List Frame) (t : Placed) → count x (plug fs t) ≡ count_path x fs + count x t
count-plug x [] t = omega arith
count-plug x (went_left a k r ∷ fs) t = omega (arith, count-plug x fs (node t a k r))
count-plug x (went_right l a k ∷ fs) t = omega (arith, count-plug x fs (node l a k t))
