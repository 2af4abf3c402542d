-- ===== src/Memory/Appends.antt =====
-- memory.go: what is loaded after an entry was remembered.
use docsclaw.Base.{
  Str, bytes, ◌==◌, eq_iff, Option, Option-cases, none, some, [], ◌++◌, ◌≡◌, ◌≢◌, ◌⊎◌, inl, inr,
  refl, ap, ◌∙◌, arith, Bool-cases, Result-cases, ok,
}
use docsclaw.Text.{trim_space}
use docsclaw.Memory.{
  contents, missing, Disk, section_text, wrapped, load, write_entry, close_file, append_entry,
  remember,
}

unwrapped : (text : Str) (e : Option Str) → wrapped text e ≡ none → e ≡ none
unfolding wrapped
unwrapped text none h = refl
unwrapped text (some e) h = absurd (cc h)

module _ {W H : Type 0} (disk : Disk W H) (path : Str) where
  -- A disk that does as documented, with the content of the memory file as `file`: reading gives it, or
  -- tells that there is no file while it is empty; a write to the opened file appends, the other calls
  -- keep it; and from a file that is opened for writing only, nothing can be read.
  pub record IsDisk (file : W → Str) : Type 0 where
    pub reads :
        (w : W)
        → (disk.read_file path w ≡ contents (file w))
          ⊎ ((disk.read_file path w ≡ missing) × (file w ≡ []))
    pub makes : (dir : Str) (w : W) → file (disk.mkdir_all dir w).1 ≡ file w
    pub opens : (w : W) → file (disk.open_append path w).1 ≡ file w
    pub chmods : (w : W) → file (disk.chmod path w).1 ≡ file w
    pub writes :
        (f : H) (s : Str) (w : W)
        → (disk.write f s w).0 ≡ none
        → file (disk.write f s w).1 ≡ file w ++ s
    pub closes : (f : H) (w : W) → file (disk.close f w).1 ≡ file w
    pub blind : (f : H) (w : W) → disk.last_byte f w ≡ none

  module _ (file : W → Str) (is_disk : IsDisk file) where
    load-file : (w : W) → load disk path w ≡ ok (file w)
    unfolding load
    load-file w = elim (is_disk.reads w) [
      | inl e ↦ rw (e, load) refl
      | inr (e, f) ↦ rw (e, f, load) refl
    ]

    -- The file has got the section of the entry.
    abbrev IsAppended : Str → W → W → Type 0
    IsAppended entry w w' = (now : Str) × (file w' ≡ file w ++ section_text none now entry)

    write_entry-IsAppended :
        (f : H) (entry : Str) (w : W)
        → (write_entry disk path f entry w).0 ≡ none
        → IsAppended entry w (write_entry disk path f entry w).1
    unfolding write_entry wrapped
    write_entry-IsAppended f entry w h = elim (Option-cases (disk.chmod path w).0) [
      | inr (e, failed) ↦ absurd (ground (arith, h, failed))
      | inl done ↦
          let w' = (disk.chmod path w).1 in
          let section = section_text (disk.last_byte f w') (disk.now w') entry in
          let written = is_disk.writes f section w' (
            unwrapped (bytes "write memory file: ") (disk.write f section w').0
              (ground (arith, h, done))) in
          (
            disk.now w',
            rw (done, write_entry)
                (written
                  ∙ ap (λ l. l ++ section) (is_disk.chmods w)
                  ∙ ap (λ b. file w ++ section_text b (disk.now w') entry) (is_disk.blind f w')),
          )
    ]

    close_file-none :
        (f : H) (out : Option Str × W)
        → (close_file disk path f out).0 ≡ none
        → (out.0 ≡ none) × (file (close_file disk path f out).1 ≡ file out.1)
    unfolding close_file
    close_file-none f (some e, w) h = absurd (cc h)
    close_file-none f (none, w) h = (refl, is_disk.closes f w)

    append_entry-IsAppended :
        (entry : Str) (w : W)
        → (append_entry disk path entry w).0 ≡ none
        → IsAppended entry w (append_entry disk path entry w).1
    unfolding append_entry
    append_entry-IsAppended entry w h = elim (Result-cases (disk.open_append path w).0) [
      | inl (e, failed) ↦ absurd (ground (arith, h, failed))
      | inr (f, done) ↦
          let w' = (disk.open_append path w).1 in
          let (no_error, same) =
            close_file-none f (write_entry disk path f entry w') (ground (arith, h, done)) in
          let (now, e) = write_entry-IsAppended f entry w' no_error in
          (
            now,
            rw (done, append_entry)
                (same ∙ e ∙ ap (λ l. l ++ section_text none now entry) (is_disk.opens w)),
          )
    ]

    -- An entry that is not blank and is remembered without an error: Load gives what it gave before,
    -- with one section behind it, which holds the trimmed entry under a time and begins where the text
    -- before it ended, also where that is no line's end.
    pub load-remember :
        (text : Str) (w : W)
        → trim_space text ≢ []
        → (remember disk path text w).0 ≡ none
        → (old now : Str) × (load disk path w ≡ ok old)
          × (load disk path (remember disk path text w).1
              ≡ ok (old ++ section_text none now (trim_space text)))
    unfolding remember
    load-remember text w not_blank h = elim (Bool-cases (trim_space text == [])) [
      | inl blank ↦ absurd (not_blank ((eq_iff _ _).0 blank))
      | inr full ↦ elim (Option-cases (disk.mkdir_all (disk.dir path) w).0) [
        | inr (e, failed) ↦ absurd (ground (arith, h, full, failed))
        | inl done ↦
            let w' = (disk.mkdir_all (disk.dir path) w).1 in
            let (now, e) =
              append_entry-IsAppended (trim_space text) w' (ground (arith, h, full, done)) in
            let section = section_text none now (trim_space text) in
            (
              file w,
              now,
              load-file w,
              rw (full, done, remember)
                  (load-file (append_entry disk path (trim_space text) w').1
                    ∙ ap ok (e ∙ ap (λ l. l ++ section) (is_disk.makes (disk.dir path) w))),
            )
      ]
    ]
