-- ===== src/Auth/Verify/Accepts.antt =====
-- verify.go, verifyToken against the tokens that the policy accepts.
use mathlib.Core.List.{Memᴰ}
use docsclaw.Base.{
  ℕ, ◌+◌, ◌≤◌, Str, eq_iff, or_else, Option, none, some, List, [], ◌∷◌, Bool, true, false, not,
  ◌&&◌, ltb, ◌≡◌, ◌≢◌, ◌⊎◌, inl, inr, refl, arith, ok,
}
use docsclaw.Auth.Policy.{Config, contains_any, caller_allowed}
use docsclaw.Auth.Policy.Callers.{
  contains_string_sound, contains_string_complete, Overlap, contains_any_sound,
  contains_any_complete, IsPermitted, caller_allowed_iff,
}
use docsclaw.Auth.Verify.{
  Token, token_scopes, token_caller, after, check_time, is_nonempty, check_policy,
}

-- A time claim, where there is one, does not lie behind `limit`.
abbrev pub NotAfter : Option ℕ → ℕ → Type 0
NotAfter none limit = Unit
NotAfter (some t) limit = t ≤ limit

-- The token is current at `now`, give or take the skew.
pub record IsCurrent (cfg : Config) (now : ℕ) (tok : Token) (exp : ℕ) : Type 0 where
  pub expires : tok.expiration ≡ some exp
  pub fresh : now ≤ exp + cfg.clock_skew
  pub started : NotAfter tok.not_before (now + cfg.clock_skew)
  pub issued : NotAfter tok.issued_at (now + cfg.clock_skew)

after_sound : (o : Option ℕ) (limit : ℕ) → after o limit ≡ false → NotAfter o limit
after_sound none limit h = tt
after_sound (some t) limit h = ground arith

after_complete : (o : Option ℕ) (limit : ℕ) → NotAfter o limit → after o limit ≡ false
after_complete none limit h = refl
after_complete (some t) limit h = ground arith

pub check_time_sound :
    (cfg : Config) (now : ℕ) (tok : Token) (exp : ℕ)
    → check_time cfg now tok ≡ ok exp
    → IsCurrent cfg now tok exp
unfolding check_time
check_time_sound cfg now tok exp h = record {
  expires = ground arith;
  fresh = ground arith;
  started = after_sound tok.not_before _ (ground arith);
  issued = after_sound tok.issued_at _ (ground arith);
}

pub check_time_complete :
    (cfg : Config) (now : ℕ) (tok : Token) (exp : ℕ)
    → IsCurrent cfg now tok exp
    → check_time cfg now tok ≡ ok exp
unfolding check_time
check_time_complete cfg now tok exp c =
    let started = after_complete tok.not_before _ c.started in
    let issued = after_complete tok.issued_at _ c.issued in
    let fresh : ltb (exp + cfg.clock_skew) now ≡ false = ground (arith, c.fresh) in
    rw c.expires (rw (fresh, started, issued))

-- The claims satisfy the configured policy; an empty list of scopes or callers asks for nothing.
pub record IsEntitled (cfg : Config) (tok : Token) : Type 0 where
  pub issuer : or_else tok.issuer [] ≡ cfg.issuer
  pub audience : Memᴰ cfg.audience (or_else tok.audience [])
  pub scope : (cfg.required_scopes ≡ []) ⊎ Overlap (token_scopes tok) cfg.required_scopes
  pub caller :
      (cfg.allowed_callers ≡ [])
      ⊎ ((token_caller tok ≢ []) × IsPermitted (token_caller tok) cfg.allowed_callers)

required :
    {P : Type 0} (xs : List Str) (test : Bool)
    → (is_nonempty xs && not test) ≡ false
    → (test ≡ true → P)
    → (xs ≡ []) ⊎ P
required [] test h f = inl refl
required (x ∷ xs) test h f = inr (f (ground arith))

required_if :
    {P : Type 0} (xs : List Str) (test : Bool)
    → (P → test ≡ true)
    → (xs ≡ []) ⊎ P
    → (is_nonempty xs && not test) ≡ false
required_if [] test f p = refl
required_if (x ∷ xs) test f (inl e) = absurd (cc)
required_if (x ∷ xs) test f (inr p) = rw (f p)

pub check_policy_sound :
    (cfg : Config) (tok : Token) → check_policy cfg tok ≡ ok tt → IsEntitled cfg tok
unfolding check_policy
check_policy_sound cfg tok h = record {
  issuer = (eq_iff _ _).0 (ground arith);
  audience = contains_string_sound _ _ (ground arith);
  scope =
      required cfg.required_scopes (contains_any (token_scopes tok) cfg.required_scopes)
        (ground arith) (contains_any_sound _ _);
  caller =
      required cfg.allowed_callers (caller_allowed (token_caller tok) cfg.allowed_callers)
        (ground arith) (caller_allowed_iff _ _).0;
}

pub check_policy_complete :
    (cfg : Config) (tok : Token) → IsEntitled cfg tok → check_policy cfg tok ≡ ok tt
unfolding check_policy
check_policy_complete cfg tok e =
    let issuer = (eq_iff _ _).1 e.issuer in
    let audience = contains_string_complete e.audience in
    let scope =
      required_if cfg.required_scopes (contains_any (token_scopes tok) cfg.required_scopes)
        (contains_any_complete _ _) e.scope in
    let caller =
      required_if cfg.allowed_callers (caller_allowed (token_caller tok) cfg.allowed_callers)
        (caller_allowed_iff _ _).1 e.caller in
    rw (issuer, audience, scope, caller)
