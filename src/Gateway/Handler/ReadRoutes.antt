-- ===== src/Gateway/Handler/ReadRoutes.antt =====
-- handler.go and authroutes.go: the routes that a request that reads can take.
use parallel_workspace_serve.Prelude.{
  String, Bool, true, false, List, [], ◌∷◌, str_eq, ◌≡◌, refl, arith, if◌then◌else◌,
}
use parallel_workspace_serve.Gateway.Identity.{Method, get, head, post, delete, other_method}
use parallel_workspace_serve.Gateway.Routing.{
  Route, is_get, api_route, auth_route, top_route, lower_route, one_segment, route,
}

abbrev pub is_writing : Route → Bool
is_writing Route.create_workspace = true
is_writing (Route.delete_workspace id) = true
is_writing Route.issue_certificate = true
is_writing Route.login = true
is_writing Route.logout = true
is_writing Route.handover = true
is_writing Route.change_password = true
is_writing other = false

top_route_reads : (m : Method) (s : String) → is_get m ≡ true → is_writing (top_route m s) ≡ false
unfolding top_route
top_route_reads get s e = ground arith
top_route_reads head s e = ground arith
top_route_reads post s e = cc
top_route_reads delete s e = cc
top_route_reads other_method s e = cc

auth_route_reads : (m : Method) (s : String) → is_get m ≡ true → is_writing (auth_route m s) ≡ false
unfolding auth_route
auth_route_reads get s e = ground arith
auth_route_reads head s e = ground arith
auth_route_reads post s e = cc
auth_route_reads delete s e = cc
auth_route_reads other_method s e = cc

-- Below /api/, by the number of segments.
api_route_reads :
    (m : Method) (segments : List String)
    → is_get m ≡ true
    → is_writing (api_route m segments) ≡ false
unfolding api_route
api_route_reads post segments e = cc
api_route_reads delete segments e = cc
api_route_reads other_method segments e = cc
api_route_reads get [] e = refl
api_route_reads get (s ∷ []) e = ground arith
api_route_reads get (s ∷ t ∷ []) e = ground arith
api_route_reads get (s ∷ t ∷ u ∷ []) e = ground arith
api_route_reads get (s ∷ t ∷ u ∷ v ∷ rest) e = refl
api_route_reads head [] e = refl
api_route_reads head (s ∷ []) e = ground arith
api_route_reads head (s ∷ t ∷ []) e = ground arith
api_route_reads head (s ∷ t ∷ u ∷ []) e = ground arith
api_route_reads head (s ∷ t ∷ u ∷ v ∷ rest) e = refl

one_segment_reads :
    (rest : List String) (x : Route)
    → is_writing x ≡ false
    → is_writing (one_segment rest x) ≡ false
one_segment_reads [] x e = e
one_segment_reads (s ∷ rest) x e = refl

choose_reads :
    (b : Bool) (x y : Route)
    → is_writing x ≡ false
    → is_writing y ≡ false
    → is_writing (if b then x else y) ≡ false
choose_reads true x y e f = e
choose_reads false x y e f = f

pub route_reads :
    (m : Method) (segments : List String) → is_get m ≡ true → is_writing (route m segments) ≡ false
unfolding route lower_route
route_reads m [] e = refl
route_reads m (s ∷ []) e = top_route_reads m s e
route_reads m (s ∷ t ∷ rest) e =
    choose_reads (str_eq s "api") (api_route m (t ∷ rest))
      (if str_eq s "auth" then one_segment rest (auth_route m t) else Route.no_route)
      (api_route_reads m (t ∷ rest) e)
      (choose_reads (str_eq s "auth") (one_segment rest (auth_route m t)) Route.no_route
        (one_segment_reads rest (auth_route m t) (auth_route_reads m t e)) refl)
