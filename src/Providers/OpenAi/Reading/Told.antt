-- ===== src/Providers/OpenAi/Reading/Told.antt =====
-- openai.go, the loop over the lines: the callback has been told the content read so far.
use docsclaw.Base.{
  ℕ, suc, Str, ◌==◌, some, List, [], ◌∷◌, ◌≡◌, inl, inr, refl, sym, arith, Bool-cases, Option-cases,
  List-cases, ◌⊎◌, subst, bytes, strip_prefix, ok,
}
use docsclaw.Providers.Honest.{IsToldText, told_more, told_same}
use docsclaw.Providers.OpenAi.Wire.{Api, StreamChunk}
use docsclaw.Providers.OpenAi.Reading.{Reading, read_text, read_chunk, read_line, read_lines}

-- The callback has been told the content.
abbrev pub IsTold : Reading → Type 0
IsTold s = IsToldText s.events s.content

read_text-IsTold : (text : Str) (s : Reading) → IsTold s → IsTold (read_text text s)
unfolding read_text
read_text-IsTold text s h = elim (Bool-cases (text == [])) [
  | inl empty ↦ rw (empty, read_text) h
  | inr more ↦ rw (more, read_text) (told_more h text)
]

read_chunk-IsTold : (chunk : StreamChunk) (s : Reading) → IsTold s → IsTold (read_chunk chunk s)
unfolding read_chunk
read_chunk-IsTold chunk s h = elim (List-cases (chunk.choices)) [
  | inl e ↦ told_same h (rw (e, read_chunk) refl) (rw (e, read_chunk) refl)
  | inr (choice, rest, e) ↦
      told_same (read_text-IsTold choice.content s h) (rw (e, read_chunk) refl)
        (rw (e, read_chunk) refl)
]

module _ {W : Type 0} (api : Api W) where
  read_line-cases :
      (line : Str) (s s' : Reading)
      → read_line api line s ≡ some s'
      → (s' ≡ s) ⊎ ((chunk : StreamChunk) × (s' ≡ read_chunk chunk s))
  unfolding read_line
  read_line-cases line s s' e = elim (Option-cases (strip_prefix (bytes "data: ") line)) [
    | inl f ↦ inl (ground (arith, e, f))
    | inr (json, f) ↦ elim (Option-cases (api.unmarshal_chunk json)) [
      | inl g ↦ inl (ground (arith, e, f, g))
      | inr (chunk, g) ↦ elim (Bool-cases (line == [])) [
        | inl b ↦ inl (ground (arith, e, b))
        | inr b ↦ inr (chunk, ground (arith, e, f, g, b))
      ]
    ]
  ]

  read_line-IsTold :
      (line : Str) (s s' : Reading) → read_line api line s ≡ some s' → IsTold s → IsTold s'
  read_line-IsTold line s s' e h = elim (read_line-cases line s s' e) [
    | inl f ↦ subst IsTold (sym f) h
    | inr (chunk, f) ↦ subst IsTold (sym f) (read_chunk-IsTold chunk s h)
  ]

  pub read_lines-IsTold :
      (w : W) (n : ℕ) (lines : List Str) (s : Reading)
      → IsTold s
      → IsTold (read_lines api w n lines s).1
  unfolding read_lines
  read_lines-IsTold w n [] s h = h
  read_lines-IsTold w n (line ∷ lines) s h = elim (Option-cases (api.ctx_err w n)) [
    | inr (e, dead) ↦ rw (dead, read_lines) h
    | inl alive ↦ elim (Option-cases (read_line api line s)) [
      | inl end ↦ rw (alive, end, read_lines) h
      | inr (s', e) ↦
          rw (alive, e, read_lines)
            (read_lines-IsTold w (suc n) lines s' (read_line-IsTold line s s' e h))
    ]
  ]

  -- The state is that of the loop's result.
  pub read_lines-same :
      (w : W) (n : ℕ) (lines : List Str) (s end : Reading)
      → (read_lines api w n lines s).0 ≡ ok end
      → (read_lines api w n lines s).1 ≡ end
  unfolding read_lines
  read_lines-same w n [] s end h = ground arith
  read_lines-same w n (line ∷ lines) s end h = elim (Option-cases (api.ctx_err w n)) [
    | inr (e, dead) ↦ ground (arith, dead)
    | inl alive ↦ elim (Option-cases (read_line api line s)) [
      | inl done ↦ ground (arith, alive, done)
      | inr (s', e) ↦
          let later = read_lines-same w (suc n) lines s' end in ground (arith, alive, e, later)
    ]
  ]
