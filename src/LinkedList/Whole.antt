-- ===== src/LinkedList/Whole.antt =====
-- common/src/LinkedList/linkit.c: `list_display` and `list_destroy`.
use morning_projects.Common.{
  ℕ, zero, suc, ◌+◌, ◌<◌, ◌≡◌, inl, refl, true, false, none, some, [], ◌∷◌, List, length, arith,
}
use morning_projects.LinkedList.{
  Ptr, null, State, exit_success, write, list_display, display_from, list_destroy, destroy_from,
  Heap,
}
use morning_projects.LinkedList.Seg.{Nodes, has, Seg, frame-write}
use morning_projects.LinkedList.Insert.{IsList, occupied}

abbrev pub data_of : Nodes → List ℕ
data_of [] = []
data_of ((p, v) ∷ xs) = v ∷ data_of xs

display_from_lem :
    (n : ℕ) (h : Heap) (b f p v : ℕ) (xs : Nodes) (l : Ptr)
    → Seg h b f ((p, v) ∷ xs) l null
    → length xs < n
    → display_from n h f ≡ some (data_of ((p, v) ∷ xs))
unfolding display_from
display_from_lem zero h b f p v xs l s fuel = absurd (omega arith)
display_from_lem (suc n) h b f p v [] l (e, nonnull, out, q, holds, (e1, e2)) fuel = ground arith
display_from_lem (suc n) h b f p v ((r, w) ∷ xs) l (e, nonnull, out, q, holds, rest) fuel =
    let again = display_from_lem n h p q r w xs l rest (omega arith) in
    let (e1, nonnull1, _, _, _, _) = rest in ground (arith, again)

-- `list_display` with as much fuel as the list has nodes prints their data in order.
pub list_display_lem :
    (n : ℕ) (s : State) (xs : Nodes)
    → IsList s xs
    → length xs < n + 1
    → list_display n s ≡ some (exit_success, data_of xs)
unfolding list_display
list_display_lem n s [] is fuel = rw is.count refl
list_display_lem n s ((p, v) ∷ xs) is fuel =
    rw
      (
        occupied s p v xs is,
        display_from_lem n s.heap null s.head p v xs s.tail is.chain (omega arith),
      )
      refl

destroy_from_lem :
    (n : ℕ) (h : Heap) (b f p v : ℕ) (xs : Nodes) (l : Ptr)
    → Seg h b f ((p, v) ∷ xs) l null
    → length xs < n
    → (g : Heap) × (destroy_from n h f ≡ some g)
      × ((a : Ptr) → has a ((p, v) ∷ xs) ≡ true → g a ≡ none)
      × ((a : Ptr) → has a ((p, v) ∷ xs) ≡ false → g a ≡ h a)
unfolding destroy_from
destroy_from_lem zero h b f p v xs l s fuel = absurd (omega arith)
destroy_from_lem (suc n) h b f p v [] l (e, nonnull, out, q, holds, (e1, e2)) fuel =
    (write h p none, ground arith, ground arith, ground arith)
destroy_from_lem (suc n) h b f p v ((r, w) ∷ xs) l (e, nonnull, out, q, holds, rest) fuel =
    let kept = frame-write h p q ((r, w) ∷ xs) l null p none rest out in
    let (g, again, freed, same) =
      destroy_from_lem n (write h p none) p q r w xs l kept (omega arith) in
    let (e1, nonnull1, _, _, _, _) = rest in
    (
      g,
      ground (arith, again),
      λ a i. ground (arith, freed a, same p),
      λ a i. ground (arith, same a),
    )

-- `list_destroy` with as much fuel as the list has nodes leaves the empty list with no current
-- element; it gives back every node and touches no other address.
pub list_destroy-IsList :
    (n : ℕ) (s : State) (xs : Nodes)
    → IsList s xs
    → length xs < n + 1
    → (u : State) × (list_destroy n s ≡ some (exit_success, u))
      × IsList u []
      × (u.current ≡ null)
      × ((a : Ptr) → has a xs ≡ true → u.heap a ≡ none)
      × ((a : Ptr) → has a xs ≡ false → u.heap a ≡ s.heap a)
unfolding list_destroy
list_destroy-IsList n s [] is fuel = (
  record s { num_nodes = 0; current = null },
  rw is.count refl,
  record { chain = is.chain; count = refl; bound = omega arith; at = inl refl },
  refl,
  ground arith,
  ground arith,
)
list_destroy-IsList n s ((p, v) ∷ xs) is fuel =
    let (g, e, freed, same) =
      destroy_from_lem n s.heap null s.head p v xs s.tail is.chain (omega arith) in
    (
      record s { heap = g; num_nodes = 0; head = null; current = null },
      rw (occupied s p v xs is, e) refl,
      record { chain = refl; count = refl; bound = omega arith; at = inl refl },
      refl,
      freed,
      same,
    )
