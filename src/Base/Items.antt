-- ===== src/Base/Items.antt =====
-- Dicts with distinct keys, `d.update(items)` and the dict that a comprehension builds.
use vaidcord.Base.{
  ◌≡◌, ◌⊎◌, inl, inr, refl, sym, Option, none, some, List, [], ◌∷◌, ◌++◌, arith, Bool-cases,
}
use mathlib.Core.List.{append_assoc, append-nil}
use vaidcord.Base.Dict.{Key, lookup, insert, erase, lookup-insert, lookup-erase, same_refl}

abbrev pub or_else {ℓ} : {A : Type ℓ} → Option A → Option A → Option A
or_else none b = b
or_else (some a) b = some a

module _ {ℓ κ} {K : Type ℓ} {V : Type κ} ⦃key : Key K⦄ where
  -- No key stands twice.
  unfoldable pub IsDict : List (K × V) → Type (ℓ ⊔ κ)
  IsDict [] = Unit
  IsDict ((k, v) ∷ d) = (lookup k d ≡ none) × IsDict d

  -- `d.update(items)`, and over the empty dict a comprehension.
  abbrev pub insert_all : List (K × V) → List (K × V) → List (K × V)
  insert_all [] d = d
  insert_all ((k, v) ∷ items) d = insert_all items (insert k v d)

  pub insert-IsDict : (k : K) (v : V) (d : List (K × V)) → IsDict d → IsDict (insert k v d)
  unfolding IsDict
  insert-IsDict k v [] h = (refl, tt)
  insert-IsDict k v ((j, w) ∷ d) (a, b) = elim (Bool-cases (key.same j k)) [
    | inl e ↦ let q = lookup-insert k j v d in ground (arith, key.same_iff j k)
    | inr e ↦
        let ih = insert-IsDict k v d b in
        let q = lookup-insert k j v d in ground (arith, key.same_iff j k, key.same_iff k j)
  ]

  pub erase-IsDict : (k : K) (d : List (K × V)) → IsDict d → IsDict (erase k d)
  unfolding IsDict
  erase-IsDict k [] h = tt
  erase-IsDict k ((j, w) ∷ d) (a, b) =
      let ih = erase-IsDict k d b in
      let q = lookup-erase k j d in ground (arith, key.same_iff j k, key.same_iff k j)

  pub insert_all-IsDict : (items d : List (K × V)) → IsDict d → IsDict (insert_all items d)
  insert_all-IsDict [] d h = h
  insert_all-IsDict ((k, v) ∷ items) d h =
      insert_all-IsDict items (insert k v d) (insert-IsDict k v d h)

  pub lookup-insert_all :
      (j : K) (items d : List (K × V))
      → IsDict items
      → lookup j (insert_all items d) ≡ or_else (lookup j items) (lookup j d)
  unfolding IsDict
  lookup-insert_all j [] d h = refl
  lookup-insert_all j ((k, v) ∷ items) d (a, b) =
      let ih = lookup-insert_all j items (insert k v d) b in
      let q = lookup-insert k j v d in ground (arith, key.same_iff k j)

  insert-new :
      (k : K) (v : V) (d : List (K × V)) → lookup k d ≡ none → insert k v d ≡ d ++ (k, v) ∷ []
  insert-new k v [] h = refl
  insert-new k v ((j, w) ∷ d) h = ground (arith, insert-new k v d)

  insert_all-apart :
      (items d : List (K × V))
      → IsDict items
      → ((j : K) → (lookup j items ≡ none) ⊎ (lookup j d ≡ none))
      → insert_all items d ≡ d ++ items
  unfolding IsDict
  insert_all-apart [] d h apart = sym (append-nil d)
  insert_all-apart ((k, v) ∷ items) d (a, b) apart =
      let own : lookup k d ≡ none = elim (apart k) [
        | inl e ↦ let r = same_refl k in absurd (ground arith)
        | inr e ↦ e
      ] in
      let rest = insert_all-apart items (insert k v d) b (λ j.
        let q = lookup-insert k j v d in
        elim (apart j) [
          | inl e ↦ inl (ground arith)
          | inr e ↦ elim (Bool-cases (key.same k j)) [
            | inl s ↦ inl (ground (arith, key.same_iff k j))
            | inr s ↦ inr (ground arith)
          ]
        ]) in
      let new = insert-new k v d own in rw (rest, new) (append_assoc d ((k, v) ∷ []) items)

  -- A dict is the comprehension over its own items.
  pub insert_all-IsDict_lem : (d : List (K × V)) → IsDict d → insert_all d [] ≡ d
  insert_all-IsDict_lem d h = insert_all-apart d [] h (λ j. inr refl)

module _ {ℓ κ μ} {K : Type ℓ} {L : Type κ} {V : Type μ} ⦃key : Key K⦄ ⦃other : Key L⦄ where
  abbrev pub map_keys : (K → L) → List (K × V) → List (L × V)
  map_keys f [] = []
  map_keys f ((k, v) ∷ d) = (f k, v) ∷ map_keys f d

  pub lookup-map_keys :
      (f : K → L) (k : K) (d : List (K × V))
      → ((a b : K) → f a ≡ f b → a ≡ b)
      → lookup (f k) (map_keys f d) ≡ lookup k d
  lookup-map_keys f k [] inj = refl
  lookup-map_keys f k ((j, w) ∷ d) inj =
      let ih = lookup-map_keys f k d inj in
      ground (arith, key.same_iff j k, other.same_iff (f j) (f k), inj j k)

  pub map_keys-IsDict :
      (f : K → L) (d : List (K × V))
      → ((a b : K) → f a ≡ f b → a ≡ b)
      → IsDict d
      → IsDict (map_keys f d)
  unfolding IsDict
  map_keys-IsDict f [] inj h = tt
  map_keys-IsDict f ((k, v) ∷ d) inj (a, b) =
      let q = lookup-map_keys f k d inj in (ground arith, map_keys-IsDict f d inj b)
