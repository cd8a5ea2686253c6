-- ===== src/Router/Disjoint.antt =====
-- invoice-service/src/lib.rs, build_router: which routes may be those of one path.
use dodo_invoice_service.Base.{
  str_common, ◌&&◌, refl, not, arith, ◌∷◌, ◌≤◌, true, false, any, str_eq, count, ◌≡◌, Bool, String,
  List, none, some,
}
use dodo_invoice_service.Router.{capture, literal, build_router, Segment, Route, captured}
use mathlib.Core.List.{[]}

-- Whether one path may be of two routes.
abbrev pub overlap : List Segment → List Segment → Bool
overlap [] [] = true
overlap [] (_ ∷ _) = false
overlap (_ ∷ _) [] = false
overlap (literal a ∷ p) (literal b ∷ q) = str_eq a b && overlap p q
overlap (literal _ ∷ p) (capture ∷ q) = overlap p q
overlap (capture ∷ p) (_ ∷ q) = overlap p q

abbrev pub apart : List Route → Bool
apart [] = true
apart (route ∷ routes) = not (any (λ r. overlap route.path r.path) routes) && apart routes

abbrev matches : List Segment → List String → Bool
matches p path = elim (captured p path) [ none ↦ false | some _ ↦ true ]

abbrev pub serves : List String → Route → Bool
serves path route = matches route.path path

overlap-of_both :
    (p q : List Segment) (path : List String)
    → matches p path ≡ true
    → matches q path ≡ true
    → overlap p q ≡ true
unfolding captured
overlap-of_both [] [] path h k = refl
overlap-of_both [] (t ∷ q) [] h k = cc
overlap-of_both [] (t ∷ q) (s ∷ path) h k = cc
overlap-of_both (t ∷ p) [] [] h k = cc
overlap-of_both (t ∷ p) [] (s ∷ path) h k = cc
overlap-of_both (t ∷ p) (u ∷ q) [] h k = cc
overlap-of_both (literal a ∷ p) (literal b ∷ q) (s ∷ path) h k =
    ground (arith, str_common a b s, overlap-of_both p q path)
overlap-of_both (literal a ∷ p) (capture ∷ q) (s ∷ path) h k =
    ground (arith, overlap-of_both p q path)
overlap-of_both (capture ∷ p) (literal b ∷ q) (s ∷ path) h k =
    ground (arith, overlap-of_both p q path)
overlap-of_both (capture ∷ p) (capture ∷ q) (s ∷ path) h k =
    ground (arith, overlap-of_both p q path)

none_serves :
    (route : Route) (routes : List Route) (path : List String)
    → any (λ r. overlap route.path r.path) routes ≡ false
    → serves path route ≡ true
    → count (serves path) routes ≡ 0
none_serves route [] path h k = refl
none_serves route (r ∷ routes) path h k =
    ground (arith, none_serves route routes path, overlap-of_both route.path r.path path)

one_serves :
    (routes : List Route) (path : List String)
    → apart routes ≡ true
    → count (serves path) routes ≤ 1
one_serves [] path h = omega arith
one_serves (route ∷ routes) path h =
    ground (arith, none_serves route routes path, one_serves routes path)

-- A path is one of at most one route of the router, so that the order of the routes does not matter.
pub at_most_one_route : (path : List String) → count (serves path) build_router ≤ 1
at_most_one_route path = one_serves build_router path refl
