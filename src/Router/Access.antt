-- ===== src/Router/Access.antt =====
-- The public routes, and requests whose key the extractor refuses.
use dodo_invoice_service.Base.{
  ◌⊎◌, refl, inr, inl, arith, str_eq, ◌&&◌, true, ◌≡◌, false, ◌∷◌, suc, String, Bool, Option, ℕ,
  List, none, some,
}
use dodo_invoice_service.Router.{
  method_not_allowed, no_route, handle_as, of_business, answer, Request, serve, handle, post_only,
  get_only, Services, Extractors, literal, post, get, post_businesses, at_route, get_health,
  handled_by, Handler, captured, build_router, Matched, Method, matched, Route,
}
use Prim.Native.Nat.{zero}
use mathlib.Core.List.{[]}
use dodo_invoice_service.Db.{Task, Db, ok, err, Exec, World, Result}
use dodo_invoice_service.Error.{StatusCode, AppError}
use dodo_invoice_service.Db.Ends.{continue}
use dodo_invoice_service.Auth.{from_request_parts}
use dodo_invoice_service.Router.Reads.{from_request_parts-Keeps}

-- GET /health and POST /businesses.
abbrev pub is_public : Method → List String → Bool
is_public get (a ∷ []) = str_eq "health" a
is_public post (a ∷ []) = str_eq "businesses" a
is_public _ _ = false

abbrev goes_to_public : Matched → Bool
goes_to_public (handled_by get_health ids) = true
goes_to_public (handled_by post_businesses ids) = true
goes_to_public _ = false

abbrev drop : ℕ → List Route → List Route
drop zero routes = routes
drop (suc n) [] = []
drop (suc n) (_ ∷ routes) = drop n routes

abbrev is_private : Option Handler → Bool
is_private (some get_health) = false
is_private (some post_businesses) = false
is_private _ = true

abbrev all_private : List Route → Bool
all_private [] = true
all_private (route ∷ routes) =
    is_private route.on_get && is_private route.on_post && all_private routes

at_private :
    (method : Method) (route : Route) (ids : List String)
    → is_private route.on_get ≡ true
    → is_private route.on_post ≡ true
    → goes_to_public (at_route method route ids) ≡ false
at_private get route ids g p = ground arith
at_private post route ids g p = ground arith

-- A choice between a route and the other ones.
picked :
    (c : Option (List String)) (m : Matched) (method : Method) (route : Route)
    → ((ids : List String) → c ≡ some ids → goes_to_public (at_route method route ids) ≡ false)
    → goes_to_public m ≡ false
    → goes_to_public (elim c [ none ↦ m | some ids ↦ at_route method route ids ]) ≡ false
picked none m method route h k = k
picked (some ids) m method route h k = h ids refl

private-of_matched :
    (routes : List Route) (method : Method) (path : List String)
    → all_private routes ≡ true
    → goes_to_public (matched routes method path) ≡ false
unfolding matched
private-of_matched [] method path h = refl
private-of_matched (route ∷ routes) method path h =
    picked (captured route.path path) (matched routes method path) method route
      (λ ids e. at_private method route ids (ground arith) (ground arith))
      (private-of_matched routes method path (ground arith))

-- All but the routes of /health and /businesses.
abbrev private_routes : List Route
private_routes = drop 2 build_router

at_health :
    (method : Method) (path ids : List String)
    → is_public method path ≡ false
    → captured (literal "health" ∷ []) path ≡ some ids
    → goes_to_public (at_route method (get_only (literal "health" ∷ []) get_health) ids) ≡ false
unfolding captured
at_health get [] ids h e = cc
at_health get (s ∷ []) ids h e = ground arith
at_health get (s ∷ t ∷ rest) ids h e = ground arith
at_health post path ids h e = refl

at_businesses :
    (method : Method) (path ids : List String)
    → is_public method path ≡ false
    → captured (literal "businesses" ∷ []) path ≡ some ids
    → goes_to_public (at_route method (post_only (literal "businesses" ∷ []) post_businesses) ids)
      ≡ false
unfolding captured
at_businesses get path ids h e = refl
at_businesses post [] ids h e = cc
at_businesses post (s ∷ []) ids h e = ground arith
at_businesses post (s ∷ t ∷ rest) ids h e = ground arith

public-of_matched :
    (method : Method) (path : List String)
    → is_public method path ≡ false
    → goes_to_public (matched build_router method path) ≡ false
unfolding matched
public-of_matched method path h =
    picked (captured (literal "health" ∷ []) path) _ method
      (get_only (literal "health" ∷ []) get_health) (λ ids e. at_health method path ids h e)
      (picked (captured (literal "businesses" ∷ []) path) (matched private_routes method path)
        method (post_only (literal "businesses" ∷ []) post_businesses)
        (λ ids e. at_businesses method path ids h e)
        (private-of_matched private_routes method path refl))

-- What the refusal of a request leads to.
abbrev pub Refused : World → AppError → Result StatusCode × World → Type 0
Refused w e (r, u) =
    (u.db ≡ w.db) × (u.tasks ≡ w.tasks) × ((r ≡ err e) ⊎ (r ≡ ok 404) ⊎ (r ≡ ok 405))

continue-Refused :
    {A : Type 0} (r : Result A × World) (f : A → Exec StatusCode) (w : World) (e : AppError)
    → r.0 ≡ err e
    → r.1.db ≡ w.db
    → r.1.tasks ≡ w.tasks
    → Refused w e (continue r f)
continue-Refused (ok a, u) f w e h db tasks = cc
continue-Refused (err e', u) f w e h db tasks = (db, tasks, inl (ground arith))

module _ (x : Extractors) (s : Services) where
  answer-Refused :
      (m : Matched) (req : Request) (w : World) (e : AppError)
      → goes_to_public m ≡ false
      → (from_request_parts s.verify_secret req.authorization w).0 ≡ err e
      → Refused w e (answer x s m req w)
  unfolding handle
  answer-Refused no_route req w e p h = (refl, refl, inr (inl refl))
  answer-Refused method_not_allowed req w e p h = (refl, refl, inr (inr refl))
  answer-Refused (handled_by get_health ids) req w e p h = cc
  answer-Refused (handled_by post_businesses ids) req w e p h = cc
  answer-Refused (handled_by (of_business b) ids) req w e p h =
      let as_was : Db → List Task → Type 0 = λ db tasks. (db ≡ w.db) × (tasks ≡ w.tasks) in
      let same =
        (from_request_parts-Keeps {P = as_was} s.verify_secret req.authorization).keeps w
          (refl, refl) in
      continue-Refused (from_request_parts s.verify_secret req.authorization w)
        (λ id. handle_as x s id b ids req) w e h same.0 same.1

  -- A request other than GET /health and POST /businesses, whose key the extractor refuses with an error, is
  -- answered by that error, or by 404 or 405 where no handler stands at its path or method; the tables and the
  -- tasks stay as they were.
  pub serve-needs_key :
      (req : Request) (w : World) (e : AppError)
      → is_public req.method req.path ≡ false
      → (from_request_parts s.verify_secret req.authorization w).0 ≡ err e
      → Refused w e (serve x s req w)
  unfolding serve
  serve-needs_key req w e p h =
      answer-Refused (matched build_router req.method req.path) req w e
        (public-of_matched req.method req.path p) h
