-- ===== src/Persistence/Corrupt.antt =====
-- internal/persistence/json.go: what a load returns, and that it destroys no data.
use rpi_procmon.Base.{
  String, Bool, false, ◌≡◌, ◌≢◌, refl, sym, ap, ◌∙◌, ◌⊎◌, inl, inr, Option, none, some,
  some-injective, Option-cases,
}
use mathlib.Core.Option.{none-ne-some}
use rpi_procmon.Persistence.{
  Disk, ReadError, not_exist, io_error, sync_dir, decoded, backup_name, kept, preserved, moved,
  rebuilt, loaded, load, save,
}
use rpi_procmon.Persistence.Atomic.{IsDisk, sync_dir-keeps, save-IsSaved}

-- Reading a file, and the clock, change no file, and a read gives what the path holds.
pub record IsReadable {W : Type 0} (disk : Disk W) (content : W → String → Option String)
    : Type 0 where
  pub stamp : (w : W) (p : String) → content (disk.stamp w).1 p ≡ content w p
  pub read_keeps :
      (f : String) (w : W) (p : String) → content (disk.read_file f w).1 p ≡ content w p
  pub read : (f text : String) (w : W) → (disk.read_file f w).0 ≡ inr text → content w f ≡ some text
  pub read_none : (f : String) (w : W) → (disk.read_file f w).0 ≡ inl not_exist → content w f ≡ none

module _ {W A : Type 0} (content : W → String → Option String) (zero_value : A)
    (decode : String → String ⊎ A) (path text : String) (disk : Disk W) where
  -- What the file held is still there, under its name or under the name of a backup.
  abbrev pub IsThere : W → Type 0
  IsThere w' =
      (content w' path ≡ some text)
      ⊎ ((stamp : String) × (content w' (backup_name disk zero_value decode path stamp)
            ≡ some text))

  -- A value is what the text decodes to, or the empty one if the text is corrupt.
  abbrev pub IsRead : String ⊎ A → Type 0
  IsRead (inl e) = Unit
  IsRead (inr value) =
      (decoded disk zero_value decode text ≡ inr value)
      ⊎ ((e : String) × (decoded disk zero_value decode text ≡ inl e) × (value ≡ zero_value))

module _ {W A : Type 0} (disk : Disk W) (content : W → String → Option String)
    (is_temp : String → Bool) (laws : IsDisk disk content is_temp) (reads : IsReadable disk content)
    (zero_value : A) (decode : String → String ⊎ A) (path text : String) where
  abbrev There : W → Type 0
  There w' = IsThere content zero_value decode path text disk w'

  abbrev Read : String ⊎ A → Type 0
  Read r = IsRead content zero_value decode path text disk r

  rebuilt-IsLoaded :
      (e : String) (r : Option String × W)
      → decoded disk zero_value decode text ≡ inl e
      → There r.1
      → There (rebuilt disk zero_value decode r).1 × Read (rebuilt disk zero_value decode r).0
  rebuilt-IsLoaded e (some e', w') bad there = (there, tt)
  rebuilt-IsLoaded e (none, w') bad there = (there, inr (e, bad, refl))

  There-after : (w1 w2 : W) → ((p : String) → content w2 p ≡ content w1 p) → There w1 → There w2
  There-after w1 w2 same (inl here) = inl (same path ∙ here)
  There-after w1 w2 same (inr (stamp, there)) =
      inr (stamp, same (backup_name disk zero_value decode path stamp) ∙ there)

  moved-IsLoaded :
      (e : String) (r : Option String × W)
      → decoded disk zero_value decode text ≡ inl e
      → There r.1
      → There (moved disk zero_value decode path r).1 × Read (moved disk zero_value decode path r).0
  moved-IsLoaded e (some e', w') bad there = (there, tt)
  moved-IsLoaded e (none, w') bad there =
      rebuilt-IsLoaded e (sync_dir disk (disk.dir path) w') bad (
        There-after w' (sync_dir disk (disk.dir path) w').1
          (λ p. sync_dir-keeps disk content is_temp laws (disk.dir path) w' p) there)

  preserved-IsLoaded :
      (e : String) (r : String × W)
      → decoded disk zero_value decode text ≡ inl e
      → content r.1 path ≡ some text
      → There (preserved disk zero_value decode path r).1
        × Read (preserved disk zero_value decode path r).0
  preserved-IsLoaded e (stamp, w') bad here =
      let backup = backup_name disk zero_value decode path stamp in
      moved-IsLoaded e (disk.rename path backup w') bad
        (elim (Option-cases (disk.rename path backup w').0) [
          | inr (e', failed) ↦ inl (laws.rename_fails path backup e' w' path failed ∙ here)
          | inl ok ↦ inr (stamp, laws.rename path backup w' ok ∙ here)
        ])

  kept-IsLoaded :
      (d : String ⊎ A) (w' : W)
      → decoded disk zero_value decode text ≡ d
      → content w' path ≡ some text
      → There (kept disk zero_value decode path d w').1
        × Read (kept disk zero_value decode path d w').0
  kept-IsLoaded (inr value) w' good here = (inl here, inl good)
  kept-IsLoaded (inl e) w' bad here =
      preserved-IsLoaded e (disk.stamp w') bad (reads.stamp w' path ∙ here)

  loaded-IsLoaded :
      (r : (ReadError ⊎ String) × W)
      → content r.1 path ≡ some text
      → ((t : String) → r.0 ≡ inr t → t ≡ text)
      → r.0 ≢ inl not_exist
      → There (loaded disk zero_value decode path r).1
        × Read (loaded disk zero_value decode path r).0
  loaded-IsLoaded (inl not_exist, w') here same there = absurd (there refl)
  loaded-IsLoaded (inl (io_error e), w') here same there = (inl here, tt)
  loaded-IsLoaded (inr t, w') here same there =
      kept-IsLoaded (decoded disk zero_value decode t) w'
        (ap (λ (x : String). decoded disk zero_value decode x) (sym (same t refl))) here

-- A load of a file that is there destroys nothing, whatever call fails: its text stays under its
-- name or goes to a backup. If it returns a value, that is what the text decodes to, or the empty
-- value if the text is corrupt.
pub load-preserves :
    {W A : Type 0} (disk : Disk W) (content : W → String → Option String) (is_temp : String → Bool)
    → IsDisk disk content is_temp
    → IsReadable disk content
    → (zero_value : A) (decode : String → String ⊎ A) (path text : String) (w : W)
    → content w path ≡ some text
    → IsThere content zero_value decode path text disk (load disk zero_value decode path w).1
      × IsRead content zero_value decode path text disk (load disk zero_value decode path w).0
unfolding load
load-preserves disk content is_temp laws reads zero_value decode path text w here =
    loaded-IsLoaded disk content is_temp laws reads zero_value decode path text
      (disk.read_file path w) (reads.read_keeps path w path ∙ here)
      (λ t read. some-injective t text (sym (reads.read path t w read) ∙ here))
      (λ missing. none-ne-some text (sym (reads.read_none path w missing) ∙ here))

-- After a save that reports success, a load returns the value that was saved, or the error of
-- reading the file, if the text that was saved decodes to that value.
pub load-save :
    {W A : Type 0} (disk : Disk W) (content : W → String → Option String) (is_temp : String → Bool)
    → IsDisk disk content is_temp
    → IsReadable disk content
    → (zero_value : A) (decode : String → String ⊎ A) (path text : String) (value : A) (w : W)
    → is_temp path ≡ false
    → decoded disk zero_value decode text ≡ inr value
    → (save disk path text w).0 ≡ none
    → ((load disk zero_value decode path (save disk path text w).1).0 ≡ inr value)
      ⊎ ((e : String) × (load disk zero_value decode path (save disk path text w).1).0 ≡ inl e
          × (disk.read_file path (save disk path text w).1).0 ≡ inl (io_error e))
unfolding load
load-save {W = W} disk content is_temp laws reads zero_value decode path text value w lasting good
      saved =
    let w' = (save disk path text w).1 in
    let there = (save-IsSaved disk content is_temp laws path text w lasting).success saved in
    read_back (disk.read_file path w')
      (λ t read. some-injective t text (sym (reads.read path t w' read) ∙ there))
      (λ missing. none-ne-some text (sym (reads.read_none path w' missing) ∙ there))
  where
    read_back :
        (r : (ReadError ⊎ String) × W)
        → ((t : String) → r.0 ≡ inr t → t ≡ text)
        → r.0 ≢ inl not_exist
        → ((loaded disk zero_value decode path r).0 ≡ inr value)
          ⊎ ((e : String) × (loaded disk zero_value decode path r).0 ≡ inl e
              × r.0 ≡ inl (io_error e))
    read_back (inl not_exist, w') same there = absurd (there refl)
    read_back (inl (io_error e), w') same there = inr (e, refl, refl)
    read_back (inr t, w') same there = rw (same t refl, good) (inl refl)
