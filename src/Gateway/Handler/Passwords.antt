-- ===== src/Gateway/Handler/Passwords.antt =====
-- authroutes.go: whose password a request may change.
use parallel_workspace_serve.Prelude.{
  String, Bool, true, false, List, [], ◌∷◌, Option, none, some, any, eq_iff, ◌≡◌, refl, sym, ap,
  ◌∙◌, arith,
}
use parallel_workspace_serve.Gateway.Identity.{HttpRequest}
use parallel_workspace_serve.Gateway.Routing.{Route, route}
use parallel_workspace_serve.Gateway.SessionIssuer.{Subject}
use parallel_workspace_serve.Gateway.UserStore.{
  UserRecord, Verified, verified, denied, verify, Error, Mutated, wrote, kept, error, set_password,
}
use parallel_workspace_serve.Gateway.Exchange.{served, empty_object, to_handover}
use parallel_workspace_serve.Gateway.Handler.{
  issue_certificate, login, create_workspace, delete_workspace, who_is, identified,
}
use parallel_workspace_serve.Gateway.Handler.Reads.{Lasting, serve_route-Lasting}
use parallel_workspace_serve.Gateway.Workspaces.{delete}
use parallel_workspace_serve.Gateway.Exchange.{
  Call, write_password, verify_password, Served, Handler, Surroundings, LocalAuth, both_given,
}
use parallel_workspace_serve.Gateway.Handler.{
  password_written, change_verified, change_password, change_given, serve_route, serve, require,
}
use parallel_workspace_serve.Gateway.Handler.Spares.{
  is_change_of, Spares, create_workspace-Spares, deleted-Spares, issue_certificate-Spares,
  login-Spares, require-Spares, Lasting-Spares, looked_up_change,
}

module _ (h : Handler) (s : Surroundings) where
  -- A change of a user's password by a caller who gave that user's current one.
  pub record Entitled (r : HttpRequest) (username : String) : Type 0 where
    pub subject : Subject
    pub local : LocalAuth
    pub current : String
    pub new : String
    pub rec : UserRecord
    pub identified : (who_is h s r).subject ≡ some subject
    pub own : subject.id ≡ username
    pub enabled : h.local ≡ some local
    pub given : both_given (s.decode_change r.body) ≡ some (current, new)
    pub checked : verify local.crypt s.users subject.id current ≡ verified rec

  password_written-calls :
      (m : Mutated) (calls : List Call) → (password_written h s m calls).calls ≡ calls
  password_written-calls (wrote n users) calls = refl
  password_written-calls (kept n) calls = refl
  password_written-calls (error Error.user_not_found) calls = refl
  password_written-calls (error Error.invalid_credential) calls = refl
  password_written-calls (error Error.hash_failed) calls = refl
  password_written-calls (error Error.incomplete_configuration) calls = refl
  password_written-calls (error Error.read_failed) calls = refl
  password_written-calls (error Error.not_decodable) calls = refl
  password_written-calls (error Error.write_failed) calls = refl
  password_written-calls (error Error.too_many_conflicts) calls = refl

  change_verified-checked :
      (l : LocalAuth) (username user new : String) (v : Verified)
      → any (is_change_of user) (change_verified h s l username new v).calls ≡ true
      → (rec : UserRecord) × (v ≡ verified rec) × (username ≡ user)
  unfolding change_verified
  change_verified-checked l username user new (denied e) w = cc
  change_verified-checked l username user new (verified rec) w =
      let kept =
        password_written-calls (set_password l.crypt s.now l.configured s.user_server username new)
          (verify_password username ∷ write_password username ∷ []) in
      let found : any (is_change_of user) (verify_password username ∷ write_password username ∷ [])
          ≡ true =
        ap (any (is_change_of user)) (sym kept) ∙ w in
      (rec, refl, ground (arith, eq_iff username user))

  change_given-checked :
      (l : LocalAuth) (subject : Subject) (fields : Option (String × String)) (user : String)
      → any (is_change_of user) (change_given h s l subject fields).calls ≡ true
      → (current : String) × (new : String) × (rec : UserRecord) × (fields ≡ some (current, new))
        × (verify l.crypt s.users subject.id current ≡ verified rec)
        × (subject.id ≡ user)
  unfolding change_given
  change_given-checked l subject none user w = cc
  change_given-checked l subject (some (current, new)) user w =
      let (rec, checked, own) =
        change_verified-checked l subject.id user new (verify l.crypt s.users subject.id current)
          w in
      (current, new, rec, refl, checked, own)

  changed-Entitled :
      (o : Option LocalAuth) (subject : Subject) (r : HttpRequest) (user : String)
      → h.local ≡ o
      → (who_is h s r).subject ≡ some subject
      → any (is_change_of user) (change_password h s o subject (s.decode_change r.body)).calls
        ≡ true
      → Entitled r user
  unfolding change_password
  changed-Entitled none subject r user enabled identified w = cc
  changed-Entitled (some l) subject r user enabled identified w =
      let (current, new, rec, given, checked, own) =
        change_given-checked l subject (both_given (s.decode_change r.body)) user w in
      record {
        subject = subject;
        local = l;
        current = current;
        new = new;
        rec = rec;
        identified = identified;
        own = own;
        enabled = enabled;
        given = given;
        checked = checked;
      }

  required-Entitled :
      (o : Option Subject) (r : HttpRequest) (user : String)
      → (who_is h s r).subject ≡ o
      → any
          (is_change_of user)
          (require h s o
            λ subject. change_password h s h.local subject (s.decode_change r.body)).calls
        ≡ true
      → Entitled r user
  unfolding require
  required-Entitled none r user e w = cc
  required-Entitled (some subject) r user e w = changed-Entitled h.local subject r user refl e w

  -- No other route writes a password.
  spared : (r : HttpRequest) (user : String) (b : Bool) → b ≡ false → b ≡ true → Entitled r user
  spared r user b e w = absurd cc

  read_spared :
      (r : HttpRequest) (user : String) (x : Route)
      → Lasting h s r (serve_route h s x r)
      → any (is_change_of user) (serve_route h s x r).calls ≡ true
      → Entitled r user
  read_spared r user x e w =
      spared r user (any (is_change_of user) (serve_route h s x r).calls)
        (Lasting-Spares h s user (serve_route h s x r).calls e) w

  -- What an identified caller's handler writes.
  behind :
      (r : HttpRequest) (user : String) (next : Option Subject → Served)
      → any (is_change_of user) (identified h s r next).calls ≡ true
      → any (is_change_of user) (next (who_is h s r).subject).calls ≡ true
  unfolding identified
  behind r user next w =
      sym (looked_up_change h s user (who_is h s r).lookups (next (who_is h s r).subject)) ∙ w

  required_spared :
      (r : HttpRequest) (user : String) (next : Subject → Served)
      → ((subject : Subject) → Spares h s user (next subject))
      → any (is_change_of user) (identified h s r λ o. require h s o next).calls ≡ true
      → Entitled r user
  required_spared r user next f w =
      spared r user (any (is_change_of user) (require h s (who_is h s r).subject next).calls)
        (require-Spares h s user (who_is h s r).subject next f)
        (behind r user (λ o. require h s o next) w)

  serve_route-Entitled :
      (x : Route) (r : HttpRequest) (user : String)
      → any (is_change_of user) (serve_route h s x r).calls ≡ true
      → Entitled r user
  unfolding serve_route delete_workspace
  serve_route-Entitled Route.change_password r user w =
      required-Entitled (who_is h s r).subject r user refl (
        behind r user
          (λ o.
            require h s o λ subject. change_password h s h.local subject (s.decode_change r.body))
          w)
  serve_route-Entitled Route.login r user w =
      spared r user (any (is_change_of user) (login h s h.local (s.decode_login r.body)).calls)
        (login-Spares h s user h.local (s.decode_login r.body)) w
  serve_route-Entitled Route.handover r user w =
      required_spared r user (λ subject. record { result = to_handover subject; calls = [] })
        (λ subject. refl) w
  serve_route-Entitled Route.logout r user w =
      required_spared r user (λ subject. served 200 empty_object []) (λ subject. refl) w
  serve_route-Entitled Route.create_workspace r user w =
      required_spared r user (λ subject. create_workspace h s (s.decode_create r.body))
        (λ subject. create_workspace-Spares h s user (s.decode_create r.body)) w
  serve_route-Entitled (Route.delete_workspace id) r user w =
      required_spared r user (λ subject. delete_workspace h s id)
        (λ subject. deleted-Spares h s user (delete s.to_lower s.store id)) w
  serve_route-Entitled Route.issue_certificate r user w =
      required_spared r user (λ subject. issue_certificate h s (s.decode_certificate r.body))
        (λ subject. issue_certificate-Spares h s user (s.decode_certificate r.body)) w
  serve_route-Entitled other r user w =
      read_spared r user other (serve_route-Lasting h s r other refl).0 w

-- A request writes a user's password only where it is identified as that user's own, local
-- authentication is enabled, and its body gives a password that is verified against the user's
-- record, together with a new one.
pub serve-Entitled :
    (h : Handler) (s : Surroundings) (r : HttpRequest) (username : String)
    → any (is_change_of username) (serve h s r).calls ≡ true
    → Entitled h s r username
unfolding serve
serve-Entitled h s r username w = serve_route-Entitled h s (route r.method r.segments) r username w
