-- ===== src/Fsm/Context/Scopes.antt =====
-- Which conversations an event belongs to.
use vaidcord.Base.{
  ◌≡◌, ◌&&◌, ◌||◌, inl, inr, refl, Bool, true, false, Option, none, some, List, [], ◌∷◌,
  if◌then◌else◌, is_some, arith, ◌∙◌, ap, Bool-cases, Option-cases,
}
use vaidcord.Base.Dict.{lookup, lookup-insert}
use vaidcord.Fsm.Key.{FsmScope, StorageKey, scope_key}
use vaidcord.Fsm.Context.{Ids, key_of, add_context, build_from, build_fsm_map, choose_primary}

abbrev pub is_listed : FsmScope → List FsmScope → Bool
is_listed s [] = false
is_listed s (t ∷ ts) = scope_key.same t s || is_listed s ts

lookup-add_context :
    (s t : FsmScope) (ids : Ids) (m : List (FsmScope × StorageKey))
    → lookup s (add_context t (key_of ids t) m)
      ≡ (if scope_key.same t s && is_some (key_of ids s) then key_of ids s else lookup s m)
lookup-add_context s t ids m = elim (Bool-cases (scope_key.same t s)) [
  | inl e ↦
      let same = (scope_key.same_iff t s).0 e in
      elim (Option-cases (key_of ids t)) [
        | inl f ↦ let g : key_of ids s ≡ none = cc in ground arith
        | inr (k, f) ↦
            let g : key_of ids s ≡ some k = cc in let q = lookup-insert t s k m in ground arith
      ]
  | inr e ↦ elim (Option-cases (key_of ids t)) [
    | inl f ↦ ground arith
    | inr (k, f) ↦ let q = lookup-insert t s k m in ground arith
  ]
]

if_or :
    (x y i : Bool) (a z : Option StorageKey)
    → (if x && i then a else (if y && i then a else z)) ≡ (if (y || x) && i then a else z)
if_or x y i a z = ground arith

lookup-build_from :
    (s : FsmScope) (scopes : List FsmScope) (ids : Ids) (m : List (FsmScope × StorageKey))
    → lookup s (build_from scopes ids m)
      ≡ (if is_listed s scopes && is_some (key_of ids s) then key_of ids s else lookup s m)
unfolding build_from
lookup-build_from s [] ids m = refl
lookup-build_from s (t ∷ ts) ids m =
    let ih = lookup-build_from s ts ids (add_context t (key_of ids t) m) in
    let q = lookup-add_context s t ids m in
    ih
    ∙ (ap (λ z. if is_listed s ts && is_some (key_of ids s) then key_of ids s else z) q
        ∙ if_or (is_listed s ts) (scope_key.same t s) (is_some (key_of ids s)) (key_of ids s)
            (lookup s m))

-- The map of an event has a context for exactly the listed scopes whose ids are known, each under the
-- key that those ids make, however often a scope is listed.
pub build_fsm_map_lem :
    (s : FsmScope) (scopes : List FsmScope) (ids : Ids)
    → lookup s (build_fsm_map scopes ids) ≡ (if is_listed s scopes then key_of ids s else none)
unfolding build_fsm_map
build_fsm_map_lem s scopes ids =
    let q = lookup-build_from s scopes ids [] in
    elim (Option-cases (key_of ids s)) [ inl e ↦ ground arith | inr (k, e) ↦ ground arith ]

choose_primary-lookup :
    (p s : FsmScope) (k : StorageKey) (m : List (FsmScope × StorageKey))
    → choose_primary p m ≡ some (s, k)
    → lookup s m ≡ some k
unfolding choose_primary
choose_primary-lookup p s k [] h = absurd (cc h)
choose_primary-lookup p s k ((t, key) ∷ m) h = elim (Option-cases (lookup p ((t, key) ∷ m))) [
  | inl e ↦
      let c : ◌≡◌ {A = Option (FsmScope × StorageKey)} (some (t, key)) (some (s, k)) =
        ground arith in
      let u : t ≡ s = cc in
      let v : key ≡ k = cc in let r = (scope_key.same_iff t s).1 u in rw (r, v) refl
  | inr (found, e) ↦
      let c : ◌≡◌ {A = Option (FsmScope × StorageKey)} (some (p, found)) (some (s, k)) =
        ground arith in
      let u : p ≡ s = cc in let v : found ≡ k = cc in cc
]

-- The context that a handler is given belongs to a listed scope, under the key that the ids of the event
-- make of it.
pub choose_primary-build_fsm_map :
    (p s : FsmScope) (k : StorageKey) (scopes : List FsmScope) (ids : Ids)
    → choose_primary p (build_fsm_map scopes ids) ≡ some (s, k)
    → (key_of ids s ≡ some k) × (is_listed s scopes ≡ true)
choose_primary-build_fsm_map p s k scopes ids h =
    let found = choose_primary-lookup p s k (build_fsm_map scopes ids) h in
    let q = build_fsm_map_lem s scopes ids in
    elim (Bool-cases (is_listed s scopes)) [ inl e ↦ ground arith | inr e ↦ absurd (ground arith) ]
