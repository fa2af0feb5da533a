-- ===== src/Routing/Kwargs.antt =====
-- `_build_handler_kwargs`: the arguments of a handler by name, or else by annotation.
use Prim.Native.String.{String}
use vaidcord.Base.{
  ◌≡◌, inl, inr, Bool, false, Option, none, some, List, [], ◌∷◌, if◌then◌else◌, is_some, arith,
  Bool-cases,
}
use vaidcord.Base.Dict.{lookup, insert, lookup-insert}
use vaidcord.Base.Items.{insert_all, or_else, IsDict, lookup-insert_all}
use vaidcord.Base.Names.{name_key}

-- `accepted_kwargs` with `accepted_annotations`.
abbrev pub Accepted : Type 0 → Type 0
Accepted Ann = List (String × Option Ann)

-- `V` is the type of the values and `Ann` that of annotations; `matches` is `_matches_annotation`.
module _ {V Ann : Type 0} (matches : V → Ann → Bool) where
  -- `{name: value for … if name in accepted_kwargs}`
  abbrev pub accepted_of : Accepted Ann → List (String × V) → List (String × V)
  accepted_of accepted [] = []
  accepted_of accepted ((name, v) ∷ full) =
      if is_some (lookup name accepted)
      then (name, v) ∷ accepted_of accepted full
      else accepted_of accepted full

  abbrev pub matches_option : V → Option Ann → Bool
  matches_option v none = false
  matches_option v (some a) = matches v a

  -- The first injectable value of an annotation.
  abbrev pub first_match : Option Ann → List (String × V) → Option V
  first_match annotation [] = none
  first_match annotation ((name, v) ∷ full) =
      if matches_option v annotation then some v else first_match annotation full

  abbrev pub put_option : String → Option V → List (String × V) → List (String × V)
  put_option name none kwargs = kwargs
  put_option name (some v) kwargs = insert name v kwargs

  -- The loop over the accepted names.
  unfoldable pub fill : Accepted Ann → List (String × V) → List (String × V) → List (String × V)
  fill [] full kwargs = kwargs
  fill ((name, annotation) ∷ accepted) full kwargs = fill accepted full (
      if is_some (lookup name kwargs)
      then kwargs
      else put_option name (first_match annotation full) kwargs)

  abbrev pub full_kwargs :
      List (String × V) → List (String × V) → List (String × V) → List (String × V)
  full_kwargs dependencies context filter_data =
      insert_all filter_data (insert_all context (insert_all dependencies []))

  unfoldable pub build_handler_kwargs :
      List (String × V) → List (String × V) → List (String × V) → Accepted Ann → List (String × V)
  unfolding fill
  build_handler_kwargs dependencies context filter_data accepted =
      let full = full_kwargs dependencies context filter_data in
      fill accepted full (accepted_of accepted full)

  lookup-accepted_of :
      (name : String) (accepted : Accepted Ann) (full : List (String × V))
      → lookup name (accepted_of accepted full)
        ≡ (if is_some (lookup name accepted) then lookup name full else none)
  lookup-accepted_of name accepted [] = ground arith
  lookup-accepted_of name accepted ((n, v) ∷ full) =
      let ih = lookup-accepted_of name accepted full in
      elim (Bool-cases (name_key.same n name)) [
        | inl e ↦ let same = (name_key.same_iff n name).0 e in rw same (ground arith)
        | inr e ↦ ground arith
      ]

  -- What the annotation of a name brings, if the name is accepted.
  abbrev pub by_annotation : Option (Option Ann) → List (String × V) → Option V
  by_annotation none full = none
  by_annotation (some annotation) full = first_match annotation full

  lookup-put_option :
      (name n : String) (v : Option V) (kwargs : List (String × V))
      → lookup name (if is_some (lookup n kwargs) then kwargs else put_option n v kwargs)
        ≡ (if name_key.same n name then or_else (lookup name kwargs) v else lookup name kwargs)
  lookup-put_option name n none kwargs = ground arith
  lookup-put_option name n (some v) kwargs =
      let q = lookup-insert n name v kwargs in
      elim (Bool-cases (name_key.same n name)) [
        | inl e ↦ let same = (name_key.same_iff n name).0 e in rw same (ground (arith, same))
        | inr e ↦ ground arith
      ]

  lookup-fill :
      (name : String) (accepted : Accepted Ann) (full kwargs : List (String × V))
      → IsDict accepted
      → lookup name (fill accepted full kwargs)
        ≡ or_else (lookup name kwargs) (by_annotation (lookup name accepted) full)
  unfolding fill IsDict
  lookup-fill name [] full kwargs h = ground arith
  lookup-fill name ((n, annotation) ∷ accepted) full kwargs (absent, h) =
      let v = first_match annotation full in
      let step = lookup-put_option name n v kwargs in
      let ih =
        lookup-fill name accepted full
          (if is_some (lookup n kwargs) then kwargs else put_option n v kwargs) h in
      elim (Bool-cases (name_key.same n name)) [
        | inl e ↦
            let same = (name_key.same_iff n name).0 e in
            let gone : lookup name accepted ≡ none = cc in rw (ih, step, e, gone) (ground arith)
        | inr e ↦ ground arith
      ]

  -- An accepted name has the value that the filters, or else the event's context, or else the
  -- dependencies give it, and where none does, the first value of all that its annotation matches; no
  -- other name is passed.
  pub build_handler_kwargs_lem :
      (dependencies context filter_data : List (String × V)) (accepted : Accepted Ann)
      (name : String)
      → IsDict dependencies
      → IsDict context
      → IsDict filter_data
      → IsDict accepted
      → lookup name (build_handler_kwargs dependencies context filter_data accepted) ≡ (
          if is_some (lookup name accepted)
          then or_else (lookup name filter_data) (
              or_else (lookup name context) (
                or_else (lookup name dependencies) (
                  by_annotation
                    (lookup name accepted)
                    (full_kwargs dependencies context filter_data))))
          else none)
  unfolding build_handler_kwargs
  build_handler_kwargs_lem dependencies context filter_data accepted name hd hc hf ha =
      let full = full_kwargs dependencies context filter_data in
      let a = lookup-fill name accepted full (accepted_of accepted full) ha in
      let b = lookup-accepted_of name accepted full in
      let c =
        lookup-insert_all name filter_data (insert_all context (insert_all dependencies [])) hf in
      let d = lookup-insert_all name context (insert_all dependencies []) hc in
      let e = lookup-insert_all name dependencies [] hd in rw (a, b, c, d, e) (ground arith)
