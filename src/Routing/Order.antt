-- ===== src/Routing/Order.antt =====
-- `xs.sort(key=lambda x: x.priority, reverse=True)`: by descending priority, and in the order of
-- registration among equals.
use vaidcord.Base.{◌≡◌, refl, ◌∙◌, Bool, true, ◌&&◌, List, [], ◌∷◌, ◌++◌, if◌then◌else◌, arith}
use vaidcord.Base.Int.{ℤ, leb_ℤ, leb_ℤ_total, leb_ℤ_trans}

abbrev pub same_ℤ : ℤ → ℤ → Bool
same_ℤ a b = leb_ℤ a b && leb_ℤ b a

module _ {A : Type 0} (priority : A → ℤ) where
  insert_item : A → List A → List A
  insert_item x [] = x ∷ []
  insert_item x (y ∷ ys) =
      if leb_ℤ (priority y) (priority x) then x ∷ y ∷ ys else y ∷ insert_item x ys

  unfoldable pub sort_descending : List A → List A
  unfolding insert_item
  sort_descending [] = []
  sort_descending (x ∷ xs) = insert_item x (sort_descending xs)

  -- Every item has at most the priority `p`.
  abbrev pub bounded : ℤ → List A → Bool
  bounded p [] = true
  bounded p (x ∷ xs) = leb_ℤ (priority x) p && bounded p xs

  abbrev pub is_descending : List A → Bool
  is_descending [] = true
  is_descending (x ∷ xs) = bounded (priority x) xs && is_descending xs

  -- The items of one priority, in order.
  abbrev pub with_priority : ℤ → List A → List A
  with_priority p [] = []
  with_priority p (x ∷ xs) =
      if same_ℤ (priority x) p then x ∷ with_priority p xs else with_priority p xs

  bounded_trans :
      (p q : ℤ) (xs : List A) → leb_ℤ p q ≡ true → bounded p xs ≡ true → bounded q xs ≡ true
  bounded_trans p q [] h k = refl
  bounded_trans p q (x ∷ xs) h k =
      ground (arith, bounded_trans p q xs h, leb_ℤ_trans (priority x) p q)

  bounded-insert_item :
      (p : ℤ) (x : A) (xs : List A)
      → leb_ℤ (priority x) p ≡ true
      → bounded p xs ≡ true
      → bounded p (insert_item x xs) ≡ true
  unfolding insert_item
  bounded-insert_item p x [] h k = ground arith
  bounded-insert_item p x (y ∷ ys) h k = ground (arith, bounded-insert_item p x ys h)

  is_descending-insert_item :
      (x : A) (xs : List A) → is_descending xs ≡ true → is_descending (insert_item x xs) ≡ true
  unfolding insert_item
  is_descending-insert_item x [] h = refl
  is_descending-insert_item x (y ∷ ys) h = ground (
    arith,
    is_descending-insert_item x ys,
    bounded-insert_item (priority y) x ys,
    bounded_trans (priority y) (priority x) ys,
    leb_ℤ_total (priority y) (priority x),
  )

  pub is_descending-sort_descending : (xs : List A) → is_descending (sort_descending xs) ≡ true
  unfolding sort_descending
  is_descending-sort_descending [] = refl
  is_descending-sort_descending (x ∷ xs) =
      is_descending-insert_item x (sort_descending xs) (is_descending-sort_descending xs)

  with_priority-insert_item :
      (p : ℤ) (x : A) (xs : List A) → with_priority p (insert_item x xs) ≡ with_priority p (x ∷ xs)
  unfolding insert_item
  with_priority-insert_item p x [] = refl
  with_priority-insert_item p x (y ∷ ys) =
      ground (arith, with_priority-insert_item p x ys, leb_ℤ_trans (priority y) p (priority x))

  pub with_priority-sort_descending :
      (p : ℤ) (xs : List A) → with_priority p (sort_descending xs) ≡ with_priority p xs
  unfolding sort_descending
  with_priority-sort_descending p [] = refl
  with_priority-sort_descending p (x ∷ xs) =
      with_priority-insert_item p x (sort_descending xs)
      ∙ (let ih = with_priority-sort_descending p xs in ground arith)

  pub with_priority-append :
      (p : ℤ) (xs ys : List A)
      → with_priority p (xs ++ ys) ≡ with_priority p xs ++ with_priority p ys
  with_priority-append p [] ys = refl
  with_priority-append p (x ∷ xs) ys = ground (arith, with_priority-append p xs ys)
