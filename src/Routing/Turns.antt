-- ===== src/Routing/Turns.antt =====
-- What `RoutedRuntime::step` of src/routing.cpp reports of the executors of a route.
use cogg_cpp.Base.{
  ℕ, ◌≡◌, refl, sym, ap, ◌∙◌, subst, ◌⊎◌, inl, inr, List, [], ◌∷◌, ◌++◌, map, Bool, true, false,
  if◌then◌else◌, leb, Text, codes, text_eq, ℤ, Failure, Result, ok, err, ok-injective,
}
use mathlib.Core.List.{append_assoc, append-nil}
use cogg_cpp.Store.{State}
use cogg_cpp.Routing.{Registry}
use cogg_cpp.Routing.Outcomes.{Router, Turn, Turned, stop, go, RouteResult, with_status}
use cogg_cpp.Routing.Step.{
  Routed, take_turn, then_go, run_route, check_route, no_result, route_step,
}
use cogg_cpp.Routing.Reported.{Reports, take_turn-Reports, tried}

run-result :
    (g g' : Registry) (s s' : State) (r r' : Result RouteResult)
    → ◌≡◌ {A = Routed} (g, s, r) (g', s', r')
    → r ≡ r'
run-result g g' s s' r r' e = ap (λ x. x.2) e

-- What the rest of a route reported.
abbrev pub ReportsOf : List Text → RouteResult → RouteResult → Type 0
ReportsOf executors result out =
    (early late : List Text) × (executors ≡ early ++ late)
    × (tried out ≡ tried result ++ early)
    × ((text_eq out.status (codes "exhausted") ≡ false) ⊎ (late ≡ []))

-- From what has been reported, the loop reports executors of the route, in its order and each once,
-- and if the status that it returns is that of an exhausted route, all of them.
run_route-tried :
    (x : Router) (original : Text) (elapsed : ℕ) (turns : List (Text × Turn)) (g g' : Registry)
    (result out : RouteResult) (s s' : State)
    → run_route x original elapsed turns g result s ≡ (g', s', ok out)
    → ReportsOf (map (λ y. y.0) turns) result out
unfolding run_route text_eq
run_route-tried x original elapsed [] g g' result out s s' h = (
  [],
  [],
  refl,
  timed (leb x.route.timeout_ms elapsed) (ok-injective _ out (run-result g g' s s' _ (ok out) h))
      ∙ sym (append-nil (tried result)),
  inr refl,
)
  where
    timed :
        (b : Bool)
        → (if b then with_status (codes "timeout") result else result) ≡ out
        → tried out ≡ tried result
    timed true e = ap tried (sym e)
    timed false e = ap tried (sym e)
run_route-tried x original elapsed ((id, t) ∷ rest) g g' result out s s' h =
    turned (take_turn x t original id g result s) (take_turn-Reports x t original id g result s) h
      (λ g1 s1 next e. run_route-tried x original elapsed rest g1 g' next out s1 s' e)
  where
    failed : {f : Failure} → ◌≡◌ {A = Result RouteResult} (err f) (ok out) → ⊥
    failed q = cc

    turned :
        (o : Turned)
        → Reports id result o
        → then_go o (run_route x original elapsed rest) ≡ (g', s', ok out)
        → ((g1 : Registry) (s1 : State) (next : RouteResult)
            → run_route x original elapsed rest g1 next s1 ≡ (g', s', ok out)
            → ReportsOf (map (λ y. y.0) rest) next out)
        → ReportsOf (id ∷ map (λ y. y.0) rest) result out
    turned (stop g1 s1 (err f)) k e ih =
        elim (failed (run-result g1 g' s1 s' (err f) (ok out) e)) [ ]
    turned (stop g1 s1 (ok next)) (k, ended) e ih =
        let same = ok-injective next out (run-result g1 g' s1 s' (ok next) (ok out) e) in
        elim k [
          | inl q ↦ (
            [],
            id ∷ map (λ y. y.0) rest,
            refl,
            ap tried (sym same) ∙ q ∙ sym (append-nil (tried result)),
            inl (ap (λ r. text_eq r.status (codes "exhausted")) (sym same) ∙ ended),
          )
          | inr q ↦ (
            id ∷ [],
            map (λ y. y.0) rest,
            refl,
            ap tried (sym same) ∙ q,
            inl (ap (λ r. text_eq r.status (codes "exhausted")) (sym same) ∙ ended),
          )
        ]
    turned (go g1 s1 next) (k, same) e ih =
        let (early, late, all, said, last) = ih g1 s1 next e in
        (
          id ∷ early,
          late,
          ap (λ ys. id ∷ ys) all,
          said ∙ ap (λ ys. ys ++ early) k ∙ append_assoc (tried result) (id ∷ []) early,
          last,
        )

-- When a step over the executors of a route returns, what it reports is of the first executors of the
-- route, in its order and each once; and if it returns that the route is exhausted, it is of all of
-- them.
pub route_step-ReportsOf :
    (x : Router) (verify : State → Text → Result (Unit {0})) (now : ℤ) (elapsed : ℕ)
    (turns : List (Text × Turn)) (verified verified' : List Text) (g g' : Registry) (s s' : State)
    (out : RouteResult)
    → map (λ y. y.0) turns ≡ x.route.executors
    → route_step x verify now elapsed turns verified g s ≡ (verified', (g', s', ok out))
    → ReportsOf x.route.executors no_result out
unfolding route_step
route_step-ReportsOf x verify now elapsed turns verified verified' g g' s s' out same h =
    subst (λ ys. ReportsOf ys no_result out) same
      (checked (check_route x verify g verified now s) h)
  where
    checked :
        (o : Result (List Text × Text))
        → ◌≡◌ {A = List Text × Routed}
            (elim o [
              | err e ↦ (verified, (g, s, err e))
              | ok r ↦ (r.0, run_route x r.1 elapsed turns g no_result s)
            ])
            (verified', (g', s', ok out))
        → ReportsOf (map (λ y. y.0) turns) no_result out
    checked (err e) k = elim (failed (run-result g g' s s' (err e) (ok out) (ap (λ y. y.1) k))) [ ]
      where
        failed : {f : Failure} → ◌≡◌ {A = Result RouteResult} (err f) (ok out) → ⊥
        failed q = cc
    checked (ok r) k = run_route-tried x r.1 elapsed turns g g' no_result out s s' (ap (λ y. y.1) k)
