-- ===== src/Auth/Middleware/Examples.antt =====
-- Requests that pass the middleware, by their token and by their path.
use docsclaw.Base.{bytes, ◌==◌, none, some, [], ◌∷◌, ◌≡◌, refl}
use docsclaw.Text.{trim_space, cut, equal_fold, clean}
use docsclaw.Auth.Verify.Examples.{policy, codec, one_key}
use docsclaw.Auth.Middleware.{
  HttpRequest, passed_on, header_values, delete_header, listed, is_exempt, no_blank, parse_bearer,
  authorization, without_authorization, handle,
}
use docsclaw.Auth.Middleware.Guarded.{Admitted, handle-Admitted}

bearer_parses : parse_bearer (bytes " bearer  h.p.s") ≡ some (bytes "h.p.s")
unfolding parse_bearer trim_space cut equal_fold no_blank bytes ◌==◌
bearer_parses = refl

abbrev health : HttpRequest
health = record {
  path = bytes "/x/../healthz/";
  headers = (authorization, bytes "anything") ∷ (bytes "Accept", bytes "x") ∷ [];
}

abbrev health_sent : HttpRequest
health_sent = record { path = bytes "/x/../healthz/"; headers = (bytes "Accept", bytes "x") ∷ [] }

health_passes : handle codec policy 10 one_key health ≡ passed_on health_sent none
unfolding handle is_exempt listed without_authorization delete_header clean bytes ◌==◌
health_passes = refl

handle-Admitted_example :
    Admitted codec policy 10 one_key health none
    × (health_sent.path ≡ health.path)
    × (header_values authorization health_sent.headers ≡ [])
handle-Admitted_example =
    handle-Admitted codec policy 10 one_key health health_sent none health_passes
