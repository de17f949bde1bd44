-- ===== src/Live/Reconciliation/Exact.antt =====
-- What a clean reconciliation means: `held` is the quantity that a list of positions gives a symbol.
use quant_pilot.Base.{
  ℕ, String, ◌≡◌, ◌↔◌, refl, sym, ap, ◌∙◌, true, false, ◌||◌, List, [], ◌∷◌, arith, is_empty,
  str_eq, eq_iff, All, none, Bool-cases, inl, inr, if◌then◌else◌,
}
use quant_pilot.Base.Int.{ℤ, pos, ◌-ℤ◌}
use mathlib.Core.Path.{subst}
use quant_pilot.Base.Dict.{Dict, lookup, insert, lookup-insert}
use quant_pilot.Domain.{Position}
use quant_pilot.Live.Reconciliation.{
  quantity_of, keys, is_in, union, differs, mismatches_of, broker_dict, reconcile_positions,
}

-- A symbol that is no key has quantity zero.
lookup_absent : (s : String) (d : Dict ℤ) → is_in s (keys d) ≡ false → lookup s d ≡ none
unfolding lookup
lookup_absent s [] h = refl
lookup_absent s ((k, q) ∷ d) h = ground (arith, lookup_absent s d)

is_in-union :
    (s : String) (xs ys : List String) → is_in s (union xs ys) ≡ (is_in s xs || is_in s ys)
unfolding union
is_in-union s [] ys = refl
is_in-union s (x ∷ xs) ys = elim (Bool-cases (str_eq x s)) [
  | inl same ↦ ground (arith, is_in-union s xs ys, ap (λ t. is_in t ys) ((eq_iff x s).0 same))
  | inr other ↦ ground (arith, is_in-union s xs ys)
]

-- No listed symbol differs.
abbrev Agrees : ℕ → Dict ℤ → Dict ℤ → String → Type 0
Agrees tolerance broker book s =
    differs tolerance (quantity_of s broker) (quantity_of s book) ≡ false

mismatches_of-Agrees :
    (broker book : Dict ℤ) (tolerance : ℕ) (syms : List String)
    → (is_empty (mismatches_of broker book tolerance syms) ≡ true)
      ↔ All (Agrees tolerance broker book) syms
unfolding mismatches_of
mismatches_of-Agrees broker book tolerance [] = ground arith
mismatches_of-Agrees broker book tolerance (s ∷ syms) =
    ground (arith, mismatches_of-Agrees broker book tolerance syms)

everywhere : (P : String → Type 0) (syms : List String) → ((s : String) → P s) → All P syms
everywhere P [] h = tt
everywhere P (s ∷ syms) h = (h s, everywhere P syms h)

listed :
    (P : String → Type 0) (s : String) (syms : List String) → All P syms → is_in s syms ≡ true → P s
listed P s [] h i = ground arith
listed P s (t ∷ syms) h i = elim (Bool-cases (str_eq t s)) [
  | inl same ↦ subst P ((eq_iff t s).0 same) h.0
  | inr other ↦ listed P s syms h.1 (ground arith)
]

-- Symbols of neither side agree.
absent-Agrees :
    (broker book : Dict ℤ) (tolerance : ℕ) (s : String)
    → is_in s (union (keys broker) (keys book)) ≡ false
    → Agrees tolerance broker book s
unfolding ◌-ℤ◌
absent-Agrees broker book tolerance s h =
    ground
      (arith, is_in-union s (keys broker) (keys book), lookup_absent s broker, lookup_absent s book)

All-Agrees :
    (broker book : Dict ℤ) (tolerance : ℕ)
    → All (Agrees tolerance broker book) (union (keys broker) (keys book))
    → (s : String) → Agrees tolerance broker book s
All-Agrees broker book tolerance h s =
    elim (Bool-cases (is_in s (union (keys broker) (keys book)))) [
      | inl i ↦ listed (Agrees tolerance broker book) s (union (keys broker) (keys book)) h i
      | inr o ↦ absent-Agrees broker book tolerance s o
    ]

module _ {F : Type 0} where
  -- The quantity of a symbol in a list of positions, the last one if it is listed again, or `q`.
  unfoldable pub held : String → ℤ → List (Position F) → ℤ
  held s q [] = q
  held s q (p ∷ ps) = held s (if str_eq p.symbol s then p.quantity else q) ps

  quantity_of-broker_dict :
      (s : String) (d : Dict ℤ) (ps : List (Position F))
      → quantity_of s (broker_dict d ps) ≡ held s (quantity_of s d) ps
  unfolding held broker_dict
  quantity_of-broker_dict s d [] = refl
  quantity_of-broker_dict s d (p ∷ ps) =
      quantity_of-broker_dict s (insert p.symbol p.quantity d) ps
      ∙ ap (λ q. held s q ps) (ground (arith, lookup-insert p.symbol s p.quantity d))

  -- The report is clean exactly if, for every symbol whatsoever, the quantity that the broker's list
  -- of positions gives it and its quantity in the book, zero where it is missing, differ by no more
  -- than the tolerance.
  pub reconcile_positions-ok_iff :
      (ps : List (Position F)) (book : Dict ℤ) (tolerance : ℕ)
      → ((reconcile_positions ps book tolerance).ok ≡ true)
        ↔ ((s : String) → differs tolerance (held s (pos 0) ps) (quantity_of s book) ≡ false)
  unfolding reconcile_positions lookup
  reconcile_positions-ok_iff ps book tolerance = (
    λ h s. rw (sym (quantity_of-broker_dict s [] ps)) (
        All-Agrees (broker_dict [] ps) book tolerance
          ((mismatches_of-Agrees (broker_dict [] ps) book tolerance _).0 h) s),
    λ h. (mismatches_of-Agrees (broker_dict [] ps) book tolerance _).1 (
        everywhere (Agrees tolerance (broker_dict [] ps) book) _
          λ s. rw (quantity_of-broker_dict s [] ps) (h s)),
  )
