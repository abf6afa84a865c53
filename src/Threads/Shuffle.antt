-- ===== src/Threads/Shuffle.antt =====
-- psmove_handler.cpp: the signals of two threads in one order.
use psmoveinput.Prelude.{List, [], ◌∷◌, ◌++◌}

-- The third list has the members of the first two, in their orders.
pub data Shuffle {ℓ} {A : Type ℓ} : List A → List A → List A → Type ℓ where
  nothing : Shuffle [] [] []
  from_first : {x : A} {xs ys zs : List A} → Shuffle xs ys zs → Shuffle (x ∷ xs) ys (x ∷ zs)
  from_second : {y : A} {xs ys zs : List A} → Shuffle xs ys zs → Shuffle xs (y ∷ ys) (y ∷ zs)

module _ {ℓ} {A : Type ℓ} where
  pub left_Shuffle :
      {xs ys zs : List A} (ws : List A) → Shuffle xs ys zs → Shuffle (ws ++ xs) ys (ws ++ zs)
  left_Shuffle [] s = s
  left_Shuffle (w ∷ ws) s = from_first (left_Shuffle ws s)

  pub right_Shuffle :
      {xs ys zs : List A} (ws : List A) → Shuffle xs ys zs → Shuffle xs (ws ++ ys) (ws ++ zs)
  right_Shuffle [] s = s
  right_Shuffle (w ∷ ws) s = from_second (right_Shuffle ws s)
