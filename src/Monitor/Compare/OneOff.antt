-- ===== src/Monitor/Compare/OneOff.antt =====
-- When the comparator stops (cmd/rtrmon/rtrmon.go, Compare).
use stayrtr.Prelude.{
  ℕ, ◌≡◌, refl, arith, ap, ◌∙◌, sym, Bool, true, false, ◌&&◌, ◌||◌, List, [], ◌∷◌, ◌==◌,
  if◌then◌else◌, Bool-cases, inl, inr,
}
use stayrtr.Monitor.Compare.{
  Event, quit, finished, Comparator, Comparing, compare_clients, compare_one, compare_loop, compare,
}

-- Is the end among the events?
abbrev quits : List Event → Bool
quits [] = false
quits (quit ∷ events) = true
quits (finished id primary secondary ∷ events) = quits events

-- Has the client of this id finished?
abbrev is_reported : ℕ → List Event → Bool
is_reported i [] = false
is_reported i (quit ∷ events) = is_reported i events
is_reported i (finished id primary secondary ∷ events) = (id == i) || is_reported i events

abbrev to_stop : Comparing → List Event → Bool
to_stop st events =
    st.stop
    || (quits events
        || (st.comparator.one_off
            && ((st.done_primary || is_reported 1 events)
                && (st.done_secondary || is_reported 2 events))))

module _ (o s d1 d2 : Bool) where
  rest-stop :
      (o && (d1 && d2) ≡ true → s ≡ true)
      → s ≡ (s || (false || (o && ((d1 || false) && (d2 || false)))))
  rest-stop h = ground (arith, h)

  step-stop :
      (q r1 r2 i1 i2 : Bool)
      → (i1 ≡ true → i2 ≡ false)
      → let e1 = if i1 then true else d1 in
        let e2 = if i1 then d2 else (if i2 then true else d2) in
        ((if o && (e1 && e2) then true else s) || (q || (o && ((e1 || r1) && (e2 || r2)))))
        ≡ (s || (q || (o && ((d1 || (i1 || r1)) && (d2 || (i2 || r2))))))
  step-stop q r1 r2 i1 i2 h = ground (arith, h)

not-both : (id : ℕ) → (id == 1) ≡ true → (id == 2) ≡ false
not-both id e = ground (arith, e)

module _ (st : Comparing) (event : Event) (events : List Event) where
  stays : st.stop ≡ true → (compare_loop st (event ∷ events)).stop ≡ to_stop st (event ∷ events)
  unfolding compare_loop
  stays e =
      let others =
        quits (event ∷ events)
        || (st.comparator.one_off
            && ((st.done_primary || is_reported 1 (event ∷ events))
                && (st.done_secondary || is_reported 2 (event ∷ events)))) in
      ap (λ b. (if b then st else compare_loop (compare_one st event) events).stop) e
      ∙ e
      ∙ ap (λ b. b || others) (sym e)

  runs :
      st.stop ≡ false
      → (compare_loop st (event ∷ events)).stop ≡ (compare_loop (compare_one st event) events).stop
  unfolding compare_loop
  runs e = ap (λ b. (if b then st else compare_loop (compare_one st event) events).stop) e

-- The loop stops with one of the two reasons, where a state that has the second one is stopped.
loop-stop :
    (st : Comparing) (events : List Event)
    → (st.comparator.one_off && (st.done_primary && st.done_secondary) ≡ true → st.stop ≡ true)
    → (compare_loop st events).stop ≡ to_stop st events
unfolding compare_loop compare_one compare_clients
loop-stop st [] h = rest-stop st.comparator.one_off st.stop st.done_primary st.done_secondary h
loop-stop st (quit ∷ events) h = elim (Bool-cases st.stop) [
  | inl e ↦ stays st quit events e
  | inr e ↦
      runs st quit events e
      ∙ loop-stop (compare_one st quit) events (λ _. refl)
      ∙ (ground (arith, e))
]
loop-stop st (finished id primary secondary ∷ events) h =
    let event = finished id primary secondary in
    elim (Bool-cases st.stop) [
      | inl e ↦ stays st event events e
      | inr e ↦
          runs st event events e
          ∙ loop-stop (compare_one st event) events (λ b. ground (arith, b))
          ∙ step-stop st.comparator.one_off st.stop st.done_primary st.done_secondary (quits events)
              (is_reported 1 events) (is_reported 2 events) (id == 1) (id == 2) (not-both id)
    ]

-- Compare stops exactly if it is told to, or if it runs once and both of its clients have finished,
-- in whichever order, however often and whoever else finishes.
compare-stop :
    (c : Comparator) (events : List Event)
    → (compare c events).stop
      ≡ (quits events || (c.one_off && (is_reported 1 events && is_reported 2 events)))
unfolding compare
compare-stop c events =
    loop-stop
      (record { comparator = c; done_primary = false; done_secondary = false; stop = false }) events
      (λ e. ground (arith, e))
