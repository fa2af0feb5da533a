-- ===== src/Base/Action.antt =====
-- Methods that mutate an object and may raise. What was written before a raise stays written, so the
-- object comes back beside the exception too.
use mathlib.Core.Path.{◌≡◌, ap}
use mathlib.Core.Logic.{inl, inr}
use vaidcord.Base.Result.{Raised, Result, ok, err, Result-cases}

abbrev pub Action {ℓ κ} : Type ℓ → Type κ → Type (ℓ ⊔ κ)
Action S A = S → Result A × S

module _ {ℓ κ} {S : Type ℓ} {A : Type κ} where
  abbrev pub pure : A → Action S A
  pure a s = (ok a, s)

  abbrev pub raise : Raised → Action S A
  raise e s = (err e, s)

  -- A call that changes nothing.
  abbrev pub lift : Result A → Action S A
  lift r s = (r, s)

  abbrev pub gets : (S → A) → Action S A
  gets f s = (ok (f s), s)

abbrev pub modify {ℓ} : {S : Type ℓ} → (S → S) → Action S (Unit {0})
modify f s = (ok tt, f s)

infixl 5 ◌>>=◌ ◌>>◌
abbrev pub ◌>>=◌ {ℓ κ μ} :
    {S : Type ℓ} {A : Type κ} {B : Type μ} → Action S A → (A → Action S B) → Action S B
◌>>=◌ m f s = let (r, s') = m s in elim r [ ok a ↦ f a s' | err e ↦ (err e, s') ]

abbrev pub ◌>>◌ {ℓ κ} : {S : Type ℓ} {B : Type κ} → Action S (Unit {0}) → Action S B → Action S B
m >> k = m >>= λ _. k

pub >>=-ok {ℓ κ μ} :
    {S : Type ℓ} {A : Type κ} {B : Type μ} (m : Action S A) (f : A → Action S B) (s : S) (a : A)
    → (m s).0 ≡ ok a
    → (m >>= f) s ≡ f a (m s).1
>>=-ok {S = S} {A = A} {B = B} m f s a h =
    ap
      (λ (r : Result A). (elim r as (λ _. Result B × S) [
        | ok b ↦ f b (m s).1
        | err e ↦ (err e, (m s).1)
      ]))
      h

pub >>=-err {ℓ κ μ} :
    {S : Type ℓ} {A : Type κ} {B : Type μ} (m : Action S A) (f : A → Action S B) (s : S)
    (e : Raised)
    → (m s).0 ≡ err e
    → (m >>= f) s ≡ (err e, (m s).1)
>>=-err {S = S} {A = A} {B = B} m f s e h =
    ap
      (λ (r : Result A). (elim r as (λ _. Result B × S) [
        | ok b ↦ f b (m s).1
        | err x ↦ (err x, (m s).1)
      ]))
      h

-- Where the first action of a bind is known as a whole.
pub >>=-at {ℓ κ μ} :
    {S : Type ℓ} {A : Type κ} {B : Type μ} (m : Action S A) (f : A → Action S B) (s : S) (a : A)
    (s' : S)
    → m s ≡ (ok a, s')
    → (m >>= f) s ≡ f a s'
>>=-at {S = S} {A = A} {B = B} m f s a s' h =
    ap
      (λ (r : Result A × S). (elim r.0 as (λ _. Result B × S) [
        | ok b ↦ f b r.1
        | err e ↦ (err e, r.1)
      ]))
      h

-- A bind ends where its first action does if it fails, and else where its second does.
pub >>=-ends {ℓ κ μ} :
    {S : Type ℓ} {A : Type κ} {B : Type μ} (m : Action S A) (f : A → Action S B) (s : S)
    (Q : S → Type 0)
    → ((e : Raised) → (m s).0 ≡ err e → Q (m s).1)
    → ((a : A) → (m s).0 ≡ ok a → Q (f a (m s).1).1)
    → Q ((m >>= f) s).1
>>=-ends m f s Q h g = elim (Result-cases (m s).0) [
  | inl (a, e) ↦ rw (>>=-ok m f s a e) (g a e)
  | inr (x, e) ↦ rw (>>=-err m f s x e) (h x e)
]
