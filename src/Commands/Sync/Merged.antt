-- ===== src/Commands/Sync/Merged.antt =====
-- Which commands the merged payload holds.
use Prim.Native.String.{String}
use vaidcord.Base.{
  ℕ, ◌≡◌, refl, ap, sym, ◌∙◌, inl, inr, true, false, ◌&&◌, Option, none, some, List, [], ◌∷◌,
  if◌then◌else◌, arith, Bool-cases,
}
use vaidcord.Base.Dict.{lookup, insert, lookup-insert}
use vaidcord.Base.Items.{IsDict, insert-IsDict, or_else}
use vaidcord.Commands.Sync.{
  Payload, command_key, same_command, normalize_command_payload, key_of, is_named, merge_items,
  values, resolve_command_sync_payload,
}

or_else-some :
    {A : Type 0} (x : Option A) (a : A) (y : Option A)
    → or_else x (some a) ≡ or_else (or_else x (some a)) y
or_else-some none a y = refl
or_else-some (some b) a y = refl

or_else-none : {A : Type 0} (x y : Option A) → or_else x y ≡ or_else (or_else x none) y
or_else-none none y = refl
or_else-none (some b) y = refl

or_else-end : {A : Type 0} (x : Option A) → or_else x none ≡ x
or_else-end none = refl
or_else-end (some b) = refl

module _ {V : Type 0} (to_int : V → ℕ) (to_str : V → String) where
  -- The last of the payloads that has the type and the name, normalized.
  abbrev pub last_with : ℕ × String → List (Payload V) → Option (Payload V)
  last_with k [] = none
  last_with k (item ∷ items) =
      let normalized = normalize_command_payload item in
      or_else (last_with k items) (
        if same_command (key_of to_int to_str normalized) k && is_named to_int to_str k
        then some normalized
        else none)

  lookup-merge_items :
      (k : ℕ × String) (items : List (Payload V)) (merged : List ((ℕ × String) × Payload V))
      → lookup k (merge_items to_int to_str items merged)
        ≡ or_else (last_with k items) (lookup k merged)
  unfolding merge_items
  lookup-merge_items k [] merged = ground arith
  lookup-merge_items k (item ∷ items) merged =
      let normalized = normalize_command_payload item in
      let j = key_of to_int to_str normalized in
      let q = lookup-insert j k normalized merged in
      elim (Bool-cases (is_named to_int to_str j)) [
        | inl e ↦
            let ih = lookup-merge_items k items (insert j normalized merged) in
            elim (Bool-cases (same_command j k)) [
              | inl s ↦
                  let n : is_named to_int to_str k ≡ true =
                    sym (ap (is_named to_int to_str) ((command_key.same_iff j k).0 s)) ∙ e in
                  rw (e, ih, q, s, n)
                    (or_else-some (last_with k items) normalized (lookup k merged))
              | inr s ↦ rw (e, ih, q, s) (or_else-none (last_with k items) (lookup k merged))
            ]
        | inr e ↦
            let ih = lookup-merge_items k items merged in
            elim (Bool-cases (same_command j k)) [
              | inl s ↦
                  let n : is_named to_int to_str k ≡ false =
                    sym (ap (is_named to_int to_str) ((command_key.same_iff j k).0 s)) ∙ e in
                  rw (e, ih, s, n) (or_else-none (last_with k items) (lookup k merged))
              | inr s ↦ rw (e, ih, s) (or_else-none (last_with k items) (lookup k merged))
            ]
      ]

  merge_items-IsDict :
      (items : List (Payload V)) (merged : List ((ℕ × String) × Payload V))
      → IsDict merged
      → IsDict (merge_items to_int to_str items merged)
  unfolding merge_items
  merge_items-IsDict [] merged h = h
  merge_items-IsDict (item ∷ items) merged h =
      let normalized = normalize_command_payload item in
      let j = key_of to_int to_str normalized in
      elim (Bool-cases (is_named to_int to_str j)) [
        | inl e ↦ rw e (
            merge_items-IsDict items (insert j normalized merged)
              (insert-IsDict j normalized merged h))
        | inr e ↦ rw e (merge_items-IsDict items merged h)
      ]

  -- What is sent where commands are merged, under distinct types and names: the last that is wanted with
  -- a type and a name, or else the last that Discord has, without the fields that Discord sets.
  pub resolve_command_sync_payload_lem :
      (current desired : List (Payload V)) (k : ℕ × String)
      → IsDict (merge_items to_int to_str desired (merge_items to_int to_str current []))
        × (lookup k (merge_items to_int to_str desired (merge_items to_int to_str current []))
            ≡ or_else (last_with k desired) (last_with k current))
        × (resolve_command_sync_payload to_int to_str false current desired
            ≡ values to_int to_str
                (merge_items to_int to_str desired (merge_items to_int to_str current [])))
  unfolding resolve_command_sync_payload IsDict
  resolve_command_sync_payload_lem current desired k = (
    merge_items-IsDict desired (merge_items to_int to_str current [])
        (merge_items-IsDict current [] tt),
    lookup-merge_items k desired (merge_items to_int to_str current [])
        ∙ ap (or_else (last_with k desired))
            (lookup-merge_items k current [] ∙ or_else-end (last_with k current)),
    refl,
  )
