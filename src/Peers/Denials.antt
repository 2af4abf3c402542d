-- ===== src/Peers/Denials.antt =====
-- internal/egress/denial.go: what the model is told of a call that failed. LogCall only logs.
use docsclaw.Base.{
  ℕ, Str, bytes, ◌==◌, decimal, has_prefix, Option, none, some, [], ◌∷◌, ◌++◌, Bool, ◌||◌,
  if◌then◌else◌, any, take,
}

-- `json.Unmarshal` into the struct with the field "error", which is empty where it is missing;
-- http.StatusText; strings.ToLower.
pub record Texts : Type 0 where
  pub unmarshal_error : Str → Option Str
  pub status_text : ℕ → Str
  pub to_lower : Str → Str

abbrev pub blocked_by_policy : Str
blocked_by_policy = bytes "blocked by sandbox network policy"

is_policy_error : Str → Bool
is_policy_error e =
    any (λ code. code == e)
      (bytes "policy_denied"
        ∷ bytes "ssrf_denied"
        ∷ bytes "middleware_denied"
        ∷ bytes "middleware_failed"
        ∷ bytes "credential_endpoint_mismatch"
        ∷ bytes "unsupported_l7_protocol"
        ∷ [])

-- strings.Contains
pub contains : Str → Str → Bool
contains [] sub = has_prefix [] sub
contains (c ∷ s) sub = let later = contains s sub in has_prefix (c ∷ s) sub || later

module _ (texts : Texts) where
  by_status : ℕ → Str
  by_status status =
      let reason = texts.status_text status in
      decimal status ++ (bytes " " ++ (if reason == [] then bytes "unknown status" else reason))

  -- DescribeResponse of a response that is not nil, by its status and its body.
  pub describe_response : ℕ → Str → Str
  unfolding by_status is_policy_error
  describe_response status body = elim (texts.unmarshal_error (take 4096 body)) [
    | none ↦ by_status status
    | some e ↦
        if e == []
        then by_status status
        else if is_policy_error e
        then blocked_by_policy
        else decimal status ++ (bytes " " ++ e)
  ]

  -- DescribeError of an error that is not nil, by its text.
  pub describe_error : Str → Str
  unfolding contains
  describe_error msg =
      if contains msg (bytes "http: server gave HTTP response to HTTPS client")
      then blocked_by_policy
      else if contains (texts.to_lower msg) (bytes "proxyconnect")
      then blocked_by_policy
      else bytes "request failed: " ++ msg
