-- ===== src/Auth/Policy/Callers.antt =====
-- verify.go, containsString, containsAny and callerAllowed against what they decide.
use mathlib.Core.List.{Memᴰ, reverse-reverse, reverse-append}
use docsclaw.Base.{
  Str, bytes, ◌==◌, eq_iff, has_prefix-append, has_prefix-eq, has_suffix, List, [], ◌∷◌, ◌++◌,
  reverse, true, false, ◌≡◌, ◌≢◌, ◌↔◌, inl, inr, refl, sym, ap, ◌∙◌, subst, arith, Bool-cases,
  if◌then◌else◌,
}
use docsclaw.Auth.Policy.{
  contains_string, contains_any, entry_allows, some_entry_allows, caller_allowed,
}

pub contains_string_sound :
    (haystack : List Str) (needle : Str)
    → contains_string haystack needle ≡ true
    → Memᴰ needle haystack
unfolding contains_string
contains_string_sound [] needle h = absurd (cc)
contains_string_sound (s ∷ haystack) needle h = elim (Bool-cases (s == needle)) [
  | inl e ↦ Memᴰ.head (sym ((eq_iff s needle).0 e))
  | inr e ↦ Memᴰ.tail (contains_string_sound haystack needle (ground arith))
]

pub contains_string_complete :
    {needle : Str} {haystack : List Str}
    → Memᴰ needle haystack
    → contains_string haystack needle ≡ true
unfolding contains_string
contains_string_complete {needle} (Memᴰ.head {x = s} e) =
    ground (arith, (eq_iff s needle).1 (sym e))
contains_string_complete {needle} (Memᴰ.tail {x = s} {xs = haystack} m) =
    ground (arith, contains_string_complete m)

-- Some string stands in both lists.
pub record Overlap (xs ys : List Str) : Type 0 where
  pub item : Str
  pub left : Memᴰ item xs
  pub right : Memᴰ item ys

pub contains_any_sound :
    (haystack needles : List Str) → contains_any haystack needles ≡ true → Overlap haystack needles
unfolding contains_any
contains_any_sound haystack [] h = absurd (cc)
contains_any_sound haystack (n ∷ needles) h = elim (Bool-cases (contains_string haystack n)) [
  | inl e ↦ record { item = n; left = contains_string_sound haystack n e; right = Memᴰ.head refl }
  | inr e ↦
      let later = contains_any_sound haystack needles (ground arith) in
      record { item = later.item; left = later.left; right = Memᴰ.tail later.right }
]

contains_any-mem :
    (haystack : List Str) {n : Str} {needles : List Str}
    → Memᴰ n haystack
    → Memᴰ n needles
    → contains_any haystack needles ≡ true
unfolding contains_any
contains_any-mem haystack {n} m (Memᴰ.head {x = s} e) =
    let here : contains_string haystack s ≡ true =
      subst (λ k. contains_string haystack k ≡ true) e (contains_string_complete m) in
    ground (arith, here)
contains_any-mem haystack m (Memᴰ.tail {x = s} k) = ground (arith, contains_any-mem haystack m k)

pub contains_any_complete :
    (haystack needles : List Str) → Overlap haystack needles → contains_any haystack needles ≡ true
contains_any_complete haystack needles o = contains_any-mem haystack o.left o.right

-- An entry that ends in "/".
pub record IsFolder (entry : Str) : Type 0 where
  pub stem : Str
  pub closed : entry ≡ stem ++ bytes "/"

-- What an entry of the allow list permits: a folder, whatever lies below it; any other entry,
-- itself.
pub data Permits (caller entry : Str) : Type 0 where
  below : IsFolder entry → (rest : Str) → caller ≡ entry ++ rest → Permits caller entry
  exact : ¬ IsFolder entry → caller ≡ entry → Permits caller entry

has_suffix_sound : (entry : Str) → has_suffix entry (bytes "/") ≡ true → IsFolder entry
unfolding has_suffix bytes
has_suffix_sound entry h =
    let (r, e) = has_prefix-eq (reverse entry) (b'/' ∷ []) h in
    record {
      stem = reverse r;
      closed = sym (reverse-reverse entry) ∙ (ap reverse e ∙ reverse-append (b'/' ∷ []) r);
    }

has_suffix_complete : (entry : Str) → IsFolder entry → has_suffix entry (bytes "/") ≡ true
unfolding has_suffix bytes
has_suffix_complete entry f =
    rw f.closed (rw reverse-append (has_prefix-append (b'/' ∷ []) (reverse f.stem)))

entry_allows_sound : (caller entry : Str) → entry_allows caller entry ≡ true → Permits caller entry
unfolding entry_allows
entry_allows_sound caller entry h = elim (Bool-cases (has_suffix entry (bytes "/"))) [
  | inl e ↦
      let (rest, same) = has_prefix-eq caller entry (rw e at h) in
      below (has_suffix_sound entry e) rest same
  | inr e ↦
      exact (λ f. absurd (cc (has_suffix_complete entry f, e)))
        ((eq_iff caller entry).0 (rw e at h))
]

entry_allows_complete :
    (caller entry : Str) → Permits caller entry → entry_allows caller entry ≡ true
unfolding entry_allows
entry_allows_complete caller entry (below folder rest same) =
    rw (has_suffix_complete entry folder) (rw same (has_prefix-append entry rest))
entry_allows_complete caller entry (exact plain same) =
    elim (Bool-cases (has_suffix entry (bytes "/"))) [
      | inl e ↦ absurd (plain (has_suffix_sound entry e))
      | inr e ↦ rw e ((eq_iff caller entry).1 same)
    ]

-- Some entry of the allow list permits the caller.
pub record IsPermitted (caller : Str) (allowed : List Str) : Type 0 where
  pub entry : Str
  pub listed : Memᴰ entry allowed
  pub permits : Permits caller entry

some_entry_allows_sound :
    (caller : Str) (allowed : List Str)
    → some_entry_allows caller allowed ≡ true
    → IsPermitted caller allowed
unfolding some_entry_allows
some_entry_allows_sound caller [] h = absurd (cc)
some_entry_allows_sound caller (entry ∷ allowed) h = elim (Bool-cases (entry_allows caller entry)) [
  | inl e ↦ record {
    entry = entry;
    listed = Memᴰ.head refl;
    permits = entry_allows_sound caller entry e;
  }
  | inr e ↦
      let later = some_entry_allows_sound caller allowed (ground arith) in
      record { entry = later.entry; listed = Memᴰ.tail later.listed; permits = later.permits }
]

some_entry_allows_complete :
    (caller : Str) {entry : Str} {allowed : List Str}
    → Permits caller entry
    → Memᴰ entry allowed
    → some_entry_allows caller allowed ≡ true
unfolding some_entry_allows
some_entry_allows_complete caller {entry} p (Memᴰ.head {x = x} e) =
    let here : entry_allows caller x ≡ true =
      subst (λ k. entry_allows caller k ≡ true) e (entry_allows_complete caller entry p) in
    ground (arith, here)
some_entry_allows_complete caller p (Memᴰ.tail {x = x} m) =
    ground (arith, some_entry_allows_complete caller p m)

-- A caller is allowed exactly if it is named, not empty, and some entry permits it: an entry that
-- ends in "/" permits every caller that begins with it, any other entry only the caller itself.
pub caller_allowed_iff :
    (caller : Str) (allowed : List Str)
    → (caller_allowed caller allowed ≡ true) ↔ ((caller ≢ []) × IsPermitted caller allowed)
unfolding caller_allowed
caller_allowed_iff caller allowed = (
  λ h.
      let named : (caller == []) ≡ false = ground arith in
      (
        λ e. absurd (cc (named, (eq_iff caller []).1 e)),
        some_entry_allows_sound caller allowed (ground arith),
      ),
  λ h. allowed_if caller allowed h.0 (some_entry_allows_complete caller h.1.permits h.1.listed),
)
  where
    allowed_if :
        (caller : Str) (allowed : List Str)
        → caller ≢ []
        → some_entry_allows caller allowed ≡ true
        → (if caller == [] then false else some_entry_allows caller allowed) ≡ true
    allowed_if caller allowed ne h = ground (arith, eq_iff caller [])
