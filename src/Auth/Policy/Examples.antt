-- ===== src/Auth/Policy/Examples.antt =====
-- A caller below a folder of the allow list.
use docsclaw.Base.{bytes, [], ◌∷◌, ◌≡◌, ◌≢◌, ◌↔◌, true}
use docsclaw.Auth.Policy.{caller_allowed}
use docsclaw.Auth.Policy.Callers.{IsPermitted, caller_allowed_iff}

caller_allowed_iff_example :
    (caller_allowed (bytes "spiffe://a/b") (bytes "c" ∷ bytes "spiffe://a/" ∷ []) ≡ true) ↔ (
      (bytes "spiffe://a/b" ≢ [])
      × IsPermitted (bytes "spiffe://a/b") (bytes "c" ∷ bytes "spiffe://a/" ∷ []))
caller_allowed_iff_example =
    caller_allowed_iff (bytes "spiffe://a/b") (bytes "c" ∷ bytes "spiffe://a/" ∷ [])
