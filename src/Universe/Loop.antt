-- ===== src/Universe/Loop.antt =====
-- The loop over the events of one key, against a replay of those events.
use quant_pilot.Base.{
  ℕ, String, ◌<◌, ◌≡◌, refl, Bool, true, false, ◌&&◌, ◌||◌, Option, none, some, List, [], ◌∷◌, ◌++◌,
  arith, leb, if◌then◌else◌, any, eq_iff,
}
use quant_pilot.Domain.{UniverseMembership}
use quant_pilot.Universe.{MembershipEvent, Action, Key, event_loop, covers, interval, key_eq}
use quant_pilot.Universe.Sorting.{IsFrom, IsSorted}

-- Whether the events dated up to a day leave a member, from whether there was one before.
unfoldable pub replay : ℕ → Bool → List MembershipEvent → Bool
replay day was [] = was
replay day was (e ∷ es) =
    replay day
      (if leb e.date day then elim e.action [ Action.add ↦ true | Action.drop ↦ false ] else was) es

any-append {ℓ} :
    {A : Type ℓ} (p : A → Bool) (xs ys : List A) → any p (xs ++ ys) ≡ (any p xs || any p ys)
any-append p [] ys = refl
any-append p (x ∷ xs) ys = ground (arith, any-append p xs ys)

-- Events after the day change nothing.
replay-later :
    (day : ℕ) (was : Bool) (n : ℕ) (es : List MembershipEvent)
    → day < n
    → IsFrom n es
    → replay day was es ≡ was
unfolding replay
replay-later day was n [] h from = refl
replay-later day was n (e ∷ es) h from = ground (arith, replay-later day was n es h from.1)

-- Whether an interval that is still open has begun by the day.
abbrev begun : ℕ → Option ℕ → Bool
begun day none = false
begun day (some from) = leb from day

abbrev OpensBefore : Option ℕ → List MembershipEvent → Type 0
OpensBefore none es = Unit
OpensBefore (some from) es = IsFrom from es

-- An interval of the key that covers the day.
abbrev pub holds : Key → ℕ → UniverseMembership → Bool
holds k day m = key_eq (m.index, m.symbol) k && covers day m

key_eq_refl : (k : Key) → key_eq k k ≡ true
key_eq_refl (i, s) = ground (arith, eq_iff i i, eq_iff s s)

module _ (ids : ℕ → String) (day : ℕ) where
  -- The loop over a key's sorted events adds an interval that covers the day just if the replay of
  -- the events up to that day leaves the key a member.
  pub any-event_loop :
      (k : Key) (es : List MembershipEvent) (open_from : Option ℕ) (acc : List UniverseMembership)
      → IsSorted es
      → OpensBefore open_from es
      → any (holds k day) (event_loop ids k es open_from acc)
        ≡ (any (holds k day) acc || replay day (begun day open_from) es)
  unfolding event_loop replay covers
  any-event_loop k [] none acc sorted before = ground arith
  any-event_loop k [] (some from) acc sorted before =
      ground
        (arith, any-append (holds k day) acc (interval ids k from none acc ∷ []), key_eq_refl k)
  any-event_loop k (e ∷ es) none acc sorted before = ground (
    arith,
    any-event_loop k es (some e.date) acc sorted.1 sorted.0,
    any-event_loop k es none acc sorted.1 tt,
    replay-later day true e.date es,
    replay-later day false e.date es,
  )
  any-event_loop k (e ∷ es) (some from) acc sorted before =
      let closed = interval ids k from (some e.date) acc in
      ground (
        arith,
        any-event_loop k es (some from) acc sorted.1 before.1,
        any-event_loop k es none (acc ++ closed ∷ []) sorted.1 tt,
        any-append (holds k day) acc (closed ∷ []),
        key_eq_refl k,
        replay-later day (leb from day) e.date es,
        replay-later day false e.date es,
      )

  -- The loop over another key's events adds no interval of this key.
  pub any-event_loop_other :
      (j k : Key) (es : List MembershipEvent) (open_from : Option ℕ) (acc : List UniverseMembership)
      → key_eq j k ≡ false
      → any (holds k day) (event_loop ids j es open_from acc) ≡ any (holds k day) acc
  unfolding event_loop
  any-event_loop_other j k [] none acc ne = refl
  any-event_loop_other j k [] (some from) acc ne =
      ground (arith, any-append (holds k day) acc (interval ids j from none acc ∷ []))
  any-event_loop_other j k (e ∷ es) none acc ne = ground (
    arith,
    any-event_loop_other j k es (some e.date) acc ne,
    any-event_loop_other j k es none acc ne,
  )
  any-event_loop_other j k (e ∷ es) (some from) acc ne =
      let closed = interval ids j from (some e.date) acc in
      ground (
        arith,
        any-event_loop_other j k es (some from) acc ne,
        any-event_loop_other j k es none (acc ++ closed ∷ []) ne,
        any-append (holds k day) acc (closed ∷ []),
      )
