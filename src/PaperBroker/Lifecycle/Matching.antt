-- ===== src/PaperBroker/Lifecycle/Matching.antt =====
-- The matching loop `_process_pending`, which `set_mark` and `update_marks` run.
use quant_pilot.Base.{
  String, ◌≡◌, ◌≢◌, refl, true, false, ◌&&◌, none, some, List, [], ◌∷◌, arith, ◌∙◌, sym, ap,
  Option-cases, if-cases, maybe-cases, Bool-cases, inl, inr, str_eq, eq_iff,
}
use mathlib.Core.Path.{subst}
use mathlib.Core.Option.{some-injective}
use quant_pilot.Base.Dict.{Dict, lookup, values, HasUniqueKeys}
use quant_pilot.Domain.{Order}
use quant_pilot.Float.{Float, truthy}
use quant_pilot.PaperBroker.{
  PaperBroker, is_pending, marketable, process_order, process_all, process_pending,
}
use quant_pilot.PaperBroker.Frame.{IsKeyed, IsValid}
use quant_pilot.PaperBroker.Lifecycle.Placing.{Fills, IsClosed, fill-Works}

module _ {F : Type 0} ⦃d : Float F⦄ where
  -- The test of the loop, on the marks.
  abbrev pub IsTriggered : Dict F → Order F → Type 0
  IsTriggered marks o =
      (mark : F) × (lookup o.symbol marks ≡ some mark)
      × (truthy mark ≡ true)
      × (marketable o mark ≡ true)

  -- What one round does: nothing to an order that is closed or not triggered, else a fill.
  data Round (b : PaperBroker F) (o : Order F) : PaperBroker F → Type 0 where
    skipped : (is_pending o.status ≡ true → ¬ (IsTriggered b.marks o)) → Round b o b
    filled_by : {p : PaperBroker F × Order F} → Fills b o p → Round b o p.0

  process_order-Round : (b : PaperBroker F) (o : Order F) → Round b o (process_order b o)
  unfolding process_order
  process_order-Round b o =
      if-cases (Round b o) (is_pending o.status)
        (λ waiting.
          maybe-cases (Round b o) (lookup o.symbol b.marks) (λ no_mark. skipped (λ _ t. cc (t.1)))
            (λ mark found.
              if-cases (Round b o) (truthy mark && marketable o mark)
                (λ _. filled_by (fill-Works b o mark)) (λ not_met. skipped (λ _ t. ground arith))))
        (λ closed. skipped (λ p t. cc))

  is_pending_of_closed : (r : Order F) → IsClosed r → is_pending r.status ≡ false
  is_pending_of_closed r c = ground arith

  marks_kept : {b b' : PaperBroker F} {o : Order F} → Round b o b' → b'.marks ≡ b.marks
  marks_kept (skipped _) = refl
  marks_kept (filled_by f) = f.0.marks_kept

  stored_other :
      {b b' : PaperBroker F} {o : Order F} (k : String)
      → Round b o b'
      → o.id ≢ k
      → lookup k b'.orders ≡ lookup k b.orders
  stored_other k (skipped _) ne = refl
  stored_other {o} k (filled_by f) ne = f.0.stored k ∙ ground (arith, eq_iff o.id k)

  -- After its round an order that was stored is closed or not triggered.
  settled_self :
      {b b' : PaperBroker F} (o r : Order F)
      → Round b o b'
      → lookup o.id b.orders ≡ some o
      → lookup o.id b'.orders ≡ some r
      → is_pending r.status ≡ true
      → ¬ (IsTriggered b.marks r)
  settled_self {b} o r (skipped h) s e p =
      let same : o ≡ r = some-injective _ _ (sym s ∙ e) in
      subst (λ x. is_pending x.status ≡ true → ¬ (IsTriggered b.marks x)) same h p
  settled_self {b} {b'} o r (filled_by {p = q} f) s e p = λ _.
      let kept : lookup o.id b'.orders ≡ some q.1 =
        f.0.stored o.id ∙ ground (arith, eq_iff o.id o.id) in
      let same : q.1 ≡ r = some-injective _ _ (sym kept ∙ e) in
      let shut : is_pending r.status ≡ false =
        subst (λ x. is_pending x.status ≡ false) same (is_pending_of_closed q.1 f.1) in
      cc

  -- The snapshot's orders are the stored ones.
  abbrev StoredIn : Dict (Order F) → Dict (Order F) → Type 0
  StoredIn [] os = Unit
  StoredIn ((k, o) ∷ rest) os = (lookup k os ≡ some o) × StoredIn rest os

  StoredIn-frame :
      (k : String) (rest os os' : Dict (Order F))
      → ((j : String) → k ≢ j → lookup j os' ≡ lookup j os)
      → lookup k rest ≡ none
      → StoredIn rest os
      → StoredIn rest os'
  unfolding lookup
  StoredIn-frame k [] os os' same new h = tt
  StoredIn-frame k ((j, o) ∷ rest) os os' same new h = elim (Bool-cases (str_eq j k)) [
    | inl e ↦ absurd (ground arith)
    | inr ne ↦ (
      same j (λ e. ground (arith, eq_iff j k)) ∙ h.0,
      StoredIn-frame k rest os os' same (ground arith) h.1,
    )
  ]

  -- The loop leaves orders outside the snapshot alone.
  untouched :
      (rest : Dict (Order F)) (b : PaperBroker F) (k : String)
      → IsKeyed rest
      → lookup k rest ≡ none
      → lookup k (process_all b (values rest)).orders ≡ lookup k b.orders
  unfolding process_all values lookup
  untouched [] b k keyed new = refl
  untouched ((j, o) ∷ rest) b k keyed new = elim (Bool-cases (str_eq j k)) [
    | inl e ↦ absurd (ground arith)
    | inr ne ↦
        untouched rest (process_order b o) k keyed.1 (ground arith)
        ∙ stored_other k (process_order-Round b o) (λ e. ground (arith, eq_iff j k))
  ]

  process_all-marks : (os : List (Order F)) (b : PaperBroker F) → (process_all b os).marks ≡ b.marks
  unfolding process_all
  process_all-marks [] b = refl
  process_all-marks (o ∷ os) b =
      process_all-marks os (process_order b o) ∙ marks_kept (process_order-Round b o)

  -- The loop settles every order of the snapshot.
  settled :
      (rest : Dict (Order F)) (b : PaperBroker F) (k : String) (r : Order F)
      → HasUniqueKeys rest
      → IsKeyed rest
      → StoredIn rest b.orders
      → lookup k rest ≢ none
      → lookup k (process_all b (values rest)).orders ≡ some r
      → is_pending r.status ≡ true
      → ¬ (IsTriggered b.marks r)
  unfolding process_all values lookup
  settled [] b k r unique keyed stored known e p = absurd (known refl)
  settled ((j, o) ∷ rest) b k r unique keyed stored known e p =
      let round = process_order-Round b o in
      elim (Bool-cases (str_eq j k)) [
        | inl same ↦
            let jk : j ≡ k = (eq_iff j k).0 same in
            let ik : o.id ≡ k = keyed.0 ∙ jk in
            let b1 = process_order b o in
            let new : lookup k rest ≡ none = ap (λ i. lookup i rest) (sym jk) ∙ unique.0 in
            settled_self o r round (ap (λ i. lookup i b.orders) keyed.0 ∙ stored.0)
              (ap (λ i. lookup i b1.orders) ik ∙ sym (untouched rest b1 k keyed.1 new) ∙ e) p
        | inr ne ↦ rw (← marks_kept round) (
            settled rest (process_order b o) k r unique.1 keyed.1
              (StoredIn-frame j rest b.orders (process_order b o).orders
                (λ i h. stored_other i round (λ q. h (sym keyed.0 ∙ q))) unique.0 stored.1)
              (λ q. known (ground arith)) e p)
      ]

  values-StoredIn : (os : Dict (Order F)) → HasUniqueKeys os → StoredIn os os
  unfolding lookup
  values-StoredIn [] h = tt
  values-StoredIn ((k, o) ∷ os) h = (
    ground (arith, eq_iff k k),
    StoredIn-frame k os os ((k, o) ∷ os) (λ j ne. ground (arith, eq_iff k j)) h.0
        (values-StoredIn os h.1),
  )

  -- `process_pending`, with which `set_mark` and `update_marks` end, tries every resting order: one
  -- that is still pending after it has no non-zero mark at which it is marketable. The broker's
  -- dictionaries are valid before the call.
  pub process_pending-settled :
      (b : PaperBroker F) (k : String) (r : Order F)
      → IsValid b
      → lookup k (process_pending b).orders ≡ some r
      → is_pending r.status ≡ true
      → ¬ (IsTriggered b.marks r)
  unfolding process_pending
  process_pending-settled b k r v e p = elim (Option-cases (lookup k b.orders)) [
    | inl new ↦ absurd (cc (untouched b.orders b k v.keyed new, e))
    | inr (o, old) ↦
        settled b.orders b k r v.unique_orders v.keyed (values-StoredIn b.orders v.unique_orders)
          (λ n. cc) e p
  ]

  -- A closed order of the snapshot is left as it is.
  closed_kept :
      (rest : Dict (Order F)) (b : PaperBroker F) (k : String) (o : Order F)
      → HasUniqueKeys rest
      → IsKeyed rest
      → lookup k rest ≡ some o
      → is_pending o.status ≡ false
      → lookup k (process_all b (values rest)).orders ≡ lookup k b.orders
  unfolding process_all values lookup
  closed_kept [] b k o unique keyed e shut = refl
  closed_kept ((j, p) ∷ rest) b k o unique keyed e shut = elim (Bool-cases (str_eq j k)) [
    | inl same ↦
        let jk : j ≡ k = (eq_iff j k).0 same in
        let new : lookup k rest ≡ none = ap (λ i. lookup i rest) (sym jk) ∙ unique.0 in
        let idle : process_order b p ≡ b = unfold process_order in ground arith in
        untouched rest (process_order b p) k keyed.1 new ∙ ap (λ c. lookup k c.orders) idle
    | inr ne ↦
        closed_kept rest (process_order b p) k o unique.1 keyed.1 (ground arith) shut
        ∙ stored_other k (process_order-Round b p) (λ q. ground (arith, eq_iff j k))
  ]

  pub process_pending-closed_kept :
      (b : PaperBroker F) (k : String) (o : Order F)
      → IsValid b
      → lookup k b.orders ≡ some o
      → is_pending o.status ≡ false
      → lookup k (process_pending b).orders ≡ some o
  unfolding process_pending
  process_pending-closed_kept b k o v e shut =
      closed_kept b.orders b k o v.unique_orders v.keyed e shut ∙ e
