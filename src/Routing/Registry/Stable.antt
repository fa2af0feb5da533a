-- ===== src/Routing/Registry/Stable.antt =====
-- The handlers of an event type after any registrations.
use vaidcord.Base.{
  ℕ, ◌≡◌, inl, inr, refl, sym, ap, ◌∙◌, true, List, [], ◌∷◌, ◌++◌, ◌==◌, ==_iff, if◌then◌else◌,
  arith, Bool-cases,
}
use mathlib.Core.List.{append_assoc, append-nil}
use vaidcord.Base.Dict.{nat_key, lookup-insert}
use vaidcord.Base.Int.{ℤ}
use vaidcord.Routing.Order.{
  sort_descending, is_descending, with_priority, is_descending-sort_descending,
  with_priority-sort_descending, with_priority-append,
}
use vaidcord.Routing.Registry.{
  HandlerConfig, Handlers, get_handlers, register_for, register_types, register_handler,
}

module _ {H : Type 0} where
  abbrev pub priority_of : HandlerConfig H → ℤ
  priority_of c = c.priority

  -- The configuration once for each time that it names the type.
  abbrev pub copies : ℕ → HandlerConfig H → List ℕ → List (HandlerConfig H)
  copies t c [] = []
  copies t c (u ∷ us) = if u == t then c ∷ copies t c us else copies t c us

  unfoldable pub register_all : List (HandlerConfig H) → Handlers H → Handlers H
  register_all [] handlers = handlers
  register_all (c ∷ cs) handlers = register_all cs (register_handler c handlers)

  unfoldable pub all_copies : ℕ → List (HandlerConfig H) → List (HandlerConfig H)
  all_copies t [] = []
  all_copies t (c ∷ cs) = copies t c c.event_types ++ all_copies t cs

  -- A list in the order of dispatch that holds, for each priority, the given handlers in turn.
  pub record Ordered (given kept : List (HandlerConfig H)) : Type 0 where
    pub descending : is_descending priority_of kept ≡ true
    pub stable : (p : ℤ) → with_priority priority_of p kept ≡ with_priority priority_of p given

  get-register_for :
      (c : HandlerConfig H) (u t : ℕ) (handlers : Handlers H)
      → get_handlers t (register_for c u handlers) ≡ (
          if u == t
          then sort_descending priority_of (get_handlers t handlers ++ c ∷ [])
          else get_handlers t handlers)
  unfolding register_for get_handlers
  get-register_for c u t handlers =
      let q =
        lookup-insert u t (sort_descending priority_of (get_handlers u handlers ++ c ∷ []))
          handlers in
      elim (Bool-cases (u == t)) [
        | inl e ↦ let same = (==_iff u t).0 e in rw same (ground (arith, same))
        | inr e ↦ ground arith
      ]

  Ordered-sort :
      (given kept : List (HandlerConfig H)) (c : HandlerConfig H)
      → Ordered given kept
      → Ordered (given ++ c ∷ []) (sort_descending priority_of (kept ++ c ∷ []))
  Ordered-sort given kept c o = record {
    descending = is_descending-sort_descending priority_of (kept ++ c ∷ []);
    stable = λ p.
        with_priority-sort_descending priority_of p (kept ++ c ∷ [])
        ∙ (with_priority-append priority_of p kept (c ∷ [])
            ∙ (ap (λ z. z ++ with_priority priority_of p (c ∷ [])) (o.stable p)
                ∙ sym (with_priority-append priority_of p given (c ∷ []))));
  }

  Ordered-register_types :
      (c : HandlerConfig H) (us : List ℕ) (t : ℕ) (given : List (HandlerConfig H))
      (handlers : Handlers H)
      → Ordered given (get_handlers t handlers)
      → Ordered (given ++ copies t c us) (get_handlers t (register_types c us handlers))
  unfolding register_types
  Ordered-register_types c [] t given handlers o = rw (append-nil given) o
  Ordered-register_types c (u ∷ us) t given handlers o = elim (Bool-cases (u == t)) [
    | inl e ↦
        let g : get_handlers t (register_for c u handlers)
            ≡ sort_descending priority_of (get_handlers t handlers ++ c ∷ []) =
          get-register_for c u t handlers ∙ rw e refl in
        let now : Ordered (given ++ c ∷ []) (get_handlers t (register_for c u handlers)) =
          rw g (Ordered-sort given (get_handlers t handlers) c o) in
        rw (e, ← append_assoc given (c ∷ []) (copies t c us))
          (Ordered-register_types c us t (given ++ c ∷ []) (register_for c u handlers) now)
    | inr e ↦
        let g : get_handlers t (register_for c u handlers) ≡ get_handlers t handlers =
          get-register_for c u t handlers ∙ rw e refl in
        rw e (Ordered-register_types c us t given (register_for c u handlers) (rw g o))
  ]

  Ordered-register_all :
      (cs : List (HandlerConfig H)) (t : ℕ) (given : List (HandlerConfig H)) (handlers : Handlers H)
      → Ordered given (get_handlers t handlers)
      → Ordered (given ++ all_copies t cs) (get_handlers t (register_all cs handlers))
  unfolding register_all all_copies register_handler
  Ordered-register_all [] t given handlers o = rw (append-nil given) o
  Ordered-register_all (c ∷ cs) t given handlers o =
      rw (← append_assoc given (copies t c c.event_types) (all_copies t cs)) (
        Ordered-register_all cs t (given ++ copies t c c.event_types) (register_handler c handlers)
          (Ordered-register_types c c.event_types t given handlers o))

  -- After any registrations on a fresh router, the handlers of an event type are those registered for
  -- it, by descending priority, and of each priority in the order of registration.
  pub get_handlers-register_all :
      (cs : List (HandlerConfig H)) (t : ℕ)
      → Ordered (all_copies t cs) (get_handlers t (register_all cs []))
  unfolding get_handlers
  get_handlers-register_all cs t =
      Ordered-register_all cs t [] [] (record { descending = refl; stable = λ p. refl })
