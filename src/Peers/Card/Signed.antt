-- ===== src/Peers/Card/Signed.antt =====
-- cardverify.go, verifyCard: which cards are accepted.
use mathlib.Core.List.{Memᴰ}
use docsclaw.Base.{
  Str, bytes, ◌==◌, eq_iff, Map, Option, none, List, [], ◌∷◌, Bool, true, false, ◌≡◌, ◌≢◌, ◌↔◌,
  refl, sym, ap, subst, ◌∙◌, arith, Result, Result-cases, ok, err, >>=-eq-ok, any, Bool-cases, inl,
  inr,
}
use docsclaw.Peers.Card.Payloads.{CardError, JsonCodec, forms, card_payloads}
use docsclaw.Peers.Card.Payloads.Forms.{canonical_forms, card_payloads_of_ok, card_payloads-forms}
use docsclaw.Peers.Card.{
  PublicKey, Algorithm, algorithm_name, verify_algorithm, CardSignature, SignatureHeader, JwsCodec,
  compact, or_format, check_header, verify_signature, check_signatures, signed_by, check_card,
}

any-Mem : (p : Str → Bool) (xs : List Str) → any p xs ≡ true → (x : Str) × Memᴰ x xs × (p x ≡ true)
any-Mem p [] h = absurd (cc h)
any-Mem p (x ∷ xs) h = elim (Bool-cases (p x)) [
  | inl e ↦ (x, Memᴰ.head refl, e)
  | inr e ↦ let (y, m, f) = any-Mem p xs (ground (arith, h, e)) in (y, Memᴰ.tail m, f)
]

any_of_Mem : (p : Str → Bool) (xs : List Str) (x : Str) → Memᴰ x xs → p x ≡ true → any p xs ≡ true
any_of_Mem p [] x m h = elim m [ ]
any_of_Mem p (y ∷ xs) x (Memᴰ.head e) h =
    let f : p y ≡ true = subst (λ z. p z ≡ true) e h in ground (arith, f)
any_of_Mem p (y ∷ xs) x (Memᴰ.tail m) h = let later = any_of_Mem p xs x m h in ground (arith, later)

not_equal : {s t : Str} → s ≢ t → (s == t) ≡ false
not_equal {s} {t} ne = elim (Bool-cases (s == t)) [
  | inl e ↦ absurd (ne ((eq_iff s t).0 e))
  | inr e ↦ e
]

ok_injective : {A : Type 0} {x y : A} → ◌≡◌ {A = Result CardError A} (ok x) (ok y) → x ≡ y
ok_injective e = cc e

or_format-eq-ok :
    {A : Type 0} (text : Str) (r : Result Str A) {a : A} → or_format text r ≡ ok a → r ≡ ok a
unfolding or_format
or_format-eq-ok text (ok a) h = cc h
or_format-eq-ok text (err e) h = absurd (cc h)

module _ (jws : JwsCodec) where
  -- An entry that can be checked with a key of this algorithm: both of its texts are base64, and its
  -- header names the algorithm, the type JOSE and a key.
  pub record IsUsable (alg : Algorithm) (sig : CardSignature) : Type 0 where
    pub text : Str
    pub header : SignatureHeader
    pub decoded : Str
    pub protected_lem : jws.decode_base64 sig.protected ≡ ok text
    pub header_lem : jws.unmarshal_header text ≡ ok header
    pub alg_lem : header.alg ≡ algorithm_name alg
    pub typ_lem : header.typ ≡ bytes "JOSE"
    pub kid_lem : header.kid ≢ []
    pub signature_lem : jws.decode_base64 sig.signature ≡ ok decoded

  module _ (json : JsonCodec) where
    -- A card that is signed: it can be read, each of its forms is canonical JSON, and one of its
    -- entries is usable with the key and verifies over one of the forms.
    pub record IsSigned (key : PublicKey) (body : Str) : Type 0 where
      pub sigs : List CardSignature
      pub whole : Option (Map Str)
      pub canonical : List Str
      pub alg : Algorithm
      pub sig : CardSignature
      pub payload : Str
      pub card_lem : jws.unmarshal_card body ≡ ok sigs
      pub whole_lem : json.unmarshal_raw body ≡ ok whole
      pub canonical_lem : canonical_forms json (forms json whole) ≡ ok canonical
      pub key_lem : verify_algorithm key ≡ ok alg
      pub sig_lem : Memᴰ sig sigs
      pub usable_lem : IsUsable alg sig
      pub payload_lem : Memᴰ payload canonical
      pub verify_lem : jws.jws_verify (compact jws sig payload) alg key ≡ true

  abbrev verifies : Algorithm → PublicKey → CardSignature → Str → Bool
  verifies alg key sig payload = jws.jws_verify (compact jws sig payload) alg key

  check_header_of_ok :
      (alg : Algorithm) (header : SignatureHeader)
      → check_header jws alg header ≡ ok tt
      → (header.alg ≡ algorithm_name alg) × (header.typ ≡ bytes "JOSE") × (header.kid ≢ [])
  unfolding check_header
  check_header_of_ok alg header h =
      let alg_eq : header.alg == algorithm_name alg ≡ true = ground (arith, h) in
      let typ_eq : header.typ == bytes "JOSE" ≡ true = ground (arith, h) in
      let kid_ne : header.kid == [] ≡ false = ground (arith, h) in
      (
        (eq_iff _ _).0 alg_eq,
        (eq_iff _ _).0 typ_eq,
        λ e. absurd (cc (kid_ne, (eq_iff header.kid []).1 e)),
      )

  check_header_of_fits :
      (alg : Algorithm) (header : SignatureHeader)
      → header.alg ≡ algorithm_name alg
      → header.typ ≡ bytes "JOSE"
      → header.kid ≢ []
      → check_header jws alg header ≡ ok tt
  unfolding check_header
  check_header_of_fits alg header e f g = rw ((eq_iff _ _).1 e, (eq_iff _ _).1 f, not_equal g) refl

  verify_signature-IsUsable :
      (sig : CardSignature) (alg : Algorithm) (key : PublicKey) (payloads : List Str)
      → verify_signature jws sig alg key payloads ≡ ok true
      → IsUsable alg sig × (any (verifies alg key sig) payloads ≡ true)
  unfolding verify_signature
  verify_signature-IsUsable sig alg key payloads h =
      let (text, e, h1) = >>=-eq-ok (or_format _ (jws.decode_base64 sig.protected)) _ h in
      let (header, f, h2) = >>=-eq-ok (or_format _ (jws.unmarshal_header text)) _ h1 in
      let (u, g, h3) = >>=-eq-ok (check_header jws alg header) _ h2 in
      let (decoded, k, h4) = >>=-eq-ok (or_format _ (jws.decode_base64 sig.signature)) _ h3 in
      let (alg_lem, typ_lem, kid_lem) = check_header_of_ok alg header g in
      (
        record {
          text = text;
          header = header;
          decoded = decoded;
          protected_lem = or_format-eq-ok _ (jws.decode_base64 sig.protected) e;
          header_lem = or_format-eq-ok _ (jws.unmarshal_header text) f;
          alg_lem = alg_lem;
          typ_lem = typ_lem;
          kid_lem = kid_lem;
          signature_lem = or_format-eq-ok _ (jws.decode_base64 sig.signature) k;
        },
        ok_injective h4,
      )

  verify_signature_of_usable :
      (sig : CardSignature) (alg : Algorithm) (key : PublicKey) (payloads : List Str)
      → IsUsable alg sig
      → verify_signature jws sig alg key payloads ≡ ok (any (verifies alg key sig) payloads)
  unfolding verify_signature or_format
  verify_signature_of_usable sig alg key payloads u =
      let fits = check_header_of_fits alg u.header u.alg_lem u.typ_lem u.kid_lem in
      rw (u.protected_lem, u.header_lem, fits, u.signature_lem) refl

  -- The loop accepts exactly where an entry verifies.
  check_signatures-verified :
      (alg : Algorithm) (key : PublicKey) (payloads : List Str) (saw_format saw_mismatch : Bool)
      (sigs : List CardSignature)
      → check_signatures jws alg key payloads saw_format saw_mismatch sigs ≡ none
      → (sig : CardSignature) × Memᴰ sig sigs
        × (verify_signature jws sig alg key payloads ≡ ok true)
  unfolding check_signatures
  check_signatures-verified alg key payloads a b [] h = absurd (ground (arith, h))
  check_signatures-verified alg key payloads a b (sig ∷ sigs) h =
      elim (Result-cases (verify_signature jws sig alg key payloads)) [
        | inl (e, f) ↦
            let (found, m, g) =
              check_signatures-verified alg key payloads true b sigs (ground (arith, h, f)) in
            (found, Memᴰ.tail m, g)
        | inr (verified, f) ↦ elim (Bool-cases verified) [
          | inl e ↦ (sig, Memᴰ.head refl, f ∙ ap ok e)
          | inr e ↦
              let (found, m, g) =
                check_signatures-verified alg key payloads a true sigs (ground (arith, h, f, e)) in
              (found, Memᴰ.tail m, g)
        ]
      ]

  check_signatures_of_verified :
      (alg : Algorithm) (key : PublicKey) (payloads : List Str) (saw_format saw_mismatch : Bool)
      (sigs : List CardSignature) (sig : CardSignature)
      → Memᴰ sig sigs
      → verify_signature jws sig alg key payloads ≡ ok true
      → check_signatures jws alg key payloads saw_format saw_mismatch sigs ≡ none
  unfolding check_signatures
  check_signatures_of_verified alg key payloads a b [] sig m h = elim m [ ]
  check_signatures_of_verified alg key payloads a b (s ∷ sigs) sig (Memᴰ.head e) h =
      let f : verify_signature jws s alg key payloads ≡ ok true =
        subst (λ x. verify_signature jws x alg key payloads ≡ ok true) e h in
      rw (f, check_signatures) refl
  check_signatures_of_verified alg key payloads a b (s ∷ sigs) sig (Memᴰ.tail m) h =
      let later =
        λ (a : Bool) (b : Bool). check_signatures_of_verified alg key payloads a b sigs sig m h in
      elim (Result-cases (verify_signature jws s alg key payloads)) [
        | inl (e, f) ↦ rw (f, check_signatures) (later true b)
        | inr (verified, f) ↦ elim (Bool-cases verified) [
          | inl e ↦ rw (f, e, check_signatures) refl
          | inr e ↦ rw (f, e, check_signatures) (later a true)
        ]
      ]

  signed_by_iff :
      (alg : Algorithm) (key : PublicKey) (payloads : List Str) (sigs : List CardSignature)
      → (signed_by jws alg key payloads sigs ≡ none) ↔ (
          (sig : CardSignature) × Memᴰ sig sigs
          × (verify_signature jws sig alg key payloads ≡ ok true))
  unfolding signed_by
  signed_by_iff alg key payloads [] = (λ h. absurd (cc h), λ (sig, m, h). elim m [ ])
  signed_by_iff alg key payloads (s ∷ sigs) = (
    check_signatures-verified alg key payloads false false (s ∷ sigs),
    λ (sig, m, h). check_signatures_of_verified alg key payloads false false (s ∷ sigs) sig m h,
  )

  module _ (json : JsonCodec) (key : PublicKey) (body : Str) where
    check_card_of_parts :
        (sigs : List CardSignature) (payloads : List Str) (alg : Algorithm)
        → jws.unmarshal_card body ≡ ok sigs
        → card_payloads json body ≡ ok payloads
        → verify_algorithm key ≡ ok alg
        → check_card jws json key body ≡ signed_by jws alg key payloads sigs
    unfolding check_card
    check_card_of_parts sigs payloads alg e f g = rw (e, f, g, check_card) refl

    check_card_sound : check_card jws json key body ≡ none → IsSigned json key body
    unfolding check_card
    check_card_sound h = elim (Result-cases (jws.unmarshal_card body)) [
      | inl (e, f) ↦ absurd (ground (arith, h, f))
      | inr (sigs, f) ↦ elim (Result-cases (card_payloads json body)) [
        | inl (e, g) ↦ absurd (ground (arith, h, f, g))
        | inr (payloads, g) ↦ elim (Result-cases (verify_algorithm key)) [
          | inl (e, k) ↦ absurd (ground (arith, h, f, g, k))
          | inr (alg, k) ↦
              let (sig, m, v) =
                (signed_by_iff alg key payloads sigs).0
                  (sym (check_card_of_parts sigs payloads alg f g k) ∙ h) in
              let (whole, canonical, raw, canon, same) = card_payloads-forms json body payloads g in
              let (usable, found) = verify_signature-IsUsable sig alg key payloads v in
              let (payload, pm, pv) =
                any-Mem (verifies alg key sig) canonical
                  (sym (same (verifies alg key sig)) ∙ found) in
              record {
                sigs = sigs;
                whole = whole;
                canonical = canonical;
                alg = alg;
                sig = sig;
                payload = payload;
                card_lem = f;
                whole_lem = raw;
                canonical_lem = canon;
                key_lem = k;
                sig_lem = m;
                usable_lem = usable;
                payload_lem = pm;
                verify_lem = pv;
              }
        ]
      ]
    ]

    check_card_complete : IsSigned json key body → check_card jws json key body ≡ none
    check_card_complete s =
        let (payloads, found, same) =
          card_payloads_of_ok json body s.whole s.canonical s.whole_lem s.canonical_lem in
        let test = verifies s.alg key s.sig in
        let hit = same test ∙ any_of_Mem test s.canonical s.payload s.payload_lem s.verify_lem in
        check_card_of_parts s.sigs payloads s.alg s.card_lem found s.key_lem
        ∙ (signed_by_iff s.alg key payloads s.sigs).1 (
          s.sig,
          s.sig_lem,
          verify_signature_of_usable s.sig s.alg key payloads s.usable_lem ∙ ap ok hit,
        )

    -- A fetched card is accepted exactly if it is signed: it can be read, each of its four forms is
    -- canonical JSON, and one of its entries names the key's algorithm, the type JOSE and a key, holds
    -- base64, and verifies with the key over one of the forms.
    pub check_card_iff : (check_card jws json key body ≡ none) ↔ IsSigned json key body
    check_card_iff = (check_card_sound, check_card_complete)
