-- ===== src/Utlist.antt =====
-- The calls of the list macros of deps/ut/utlist.h. A linked list is the list of its elements, and
-- `LL_FOREACH` and `DL_FOREACH` go through it from the head; what the other macros do is taken as given.
use hype.Base.{ℕ, List, [], ◌∷◌, ◌++◌, ◌≡◌, refl, length, zero, suc, ap}

pub record Utlist {ℓ} (A : Type ℓ) : Type ℓ where
  -- `LL_APPEND` and `DL_APPEND`.
  pub append : List A → A → List A
  -- `LL_PREPEND_ELEM` before the element at a position.
  pub prepend_elem : List A → ℕ → A → List A
  pub append_lem : (xs : List A) (x : A) → append xs x ≡ xs ++ (x ∷ [])
  pub prepend_elem_lem :
      (pre post : List A) (cur x : A)
      → prepend_elem (pre ++ (cur ∷ post)) (length pre) x ≡ pre ++ (x ∷ cur ∷ post)

module _ {ℓ} {A : Type ℓ} where
  unfoldable pub insert_at : List A → ℕ → A → List A
  insert_at xs zero x = x ∷ xs
  insert_at [] (suc i) x = x ∷ []
  insert_at (y ∷ xs) (suc i) x = y ∷ insert_at xs i x

  pub insert_at-append :
      (pre post : List A) (x : A) → insert_at (pre ++ post) (length pre) x ≡ pre ++ (x ∷ post)
  unfolding insert_at
  insert_at-append [] post x = refl
  insert_at-append (y ∷ pre) post x = ap (λ t. y ∷ t) (insert_at-append pre post x)

-- Lists meet the laws.
unfoldable pub plain_lists {ℓ} : {A : Type ℓ} → Utlist A
unfolding insert_at
plain_lists = record {
  append = λ xs x. xs ++ (x ∷ []);
  prepend_elem = insert_at;
  append_lem = λ xs x. refl;
  prepend_elem_lem = λ pre post cur x. insert_at-append pre (cur ∷ post) x;
}
