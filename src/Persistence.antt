-- ===== src/Persistence.antt =====
-- internal/persistence/json.go: the files of the daemon, over the calls of the package `os`.
pub mod Atomic
pub mod Corrupt
pub mod Stores
pub mod Tests
use rpi_procmon.Base.{
  String, Bool, true, false, ◌⊎◌, inl, inr, Option, none, some, List, [], ◌∷◌, ◌==◌, if◌then◌else◌,
}
use rpi_procmon.Base.Text.{trim_space, concat}

-- The errors of reading a file: `os.ErrNotExist`, and any other.
pub data ReadError : Type 0 where
  not_exist : ReadError
  io_error : String → ReadError

-- The package `os`, over a world `W`; a call that fails gives the text of its error. `close` closes
-- a file that may be closed already, `sync_dir` is `syncDir`, and `stamp` is the time as
-- `Load` writes it.
pub record Disk (W : Type 0) : Type 0 where
  pub dir : String → String
  pub read_file : String → W → (ReadError ⊎ String) × W
  pub mkdir_all : String → W → Option String × W
  pub create_temp : String → W → (String ⊎ String) × W
  pub chmod : String → W → Option String × W
  pub write : String → String → W → Option String × W
  pub sync : String → W → Option String × W
  pub close : String → W → Option String × W
  pub rename : String → String → W → Option String × W
  pub remove : String → W → Option String × W
  pub open_dir : String → W → Option String × W
  pub sync_dir : String → W → Option String × W
  pub stamp : W → String × W

module _ {W : Type 0} where
  -- The next call is made only if this one has succeeded.
  infixl 5 ◌then_do◌
  abbrev pub ◌then_do◌ : Option String × W → (W → Option String × W) → Option String × W
  (some e, w) then_do f = (some e, w)
  (none, w) then_do f = f w

module _ {W : Type 0} (disk : Disk W) where
  -- `syncDir`.
  unfoldable pub sync_dir : String → W → Option String × W
  sync_dir path w = disk.open_dir path w then_do λ w1. disk.sync_dir path w1

  -- `Save` from the temporary file on, up to its deferred calls.
  unfoldable pub store : String → String → String → W → Option String × W
  unfolding sync_dir
  store temp path content w = disk.chmod temp w then_do λ w1.
      disk.write temp content w1 then_do λ w2. disk.sync temp w2 then_do λ w3.
      disk.close temp w3 then_do λ w4.
      disk.rename temp path w4 then_do λ w5. sync_dir (disk.dir path) w5

  -- The deferred calls: `f.Close`, then `os.Remove`.
  abbrev pub cleaned : String → Option String × W → Option String × W
  cleaned temp (result, w) = (result, (disk.remove temp (disk.close temp w).1).1)

  abbrev pub stored : String → String → (String ⊎ String) × W → Option String × W
  stored path content (inl e, w) = (some e, w)
  stored path content (inr temp, w) = cleaned temp (store temp path content w)

  -- `Save`.
  unfoldable pub save : String → String → W → Option String × W
  unfolding store
  save path content w = disk.mkdir_all (disk.dir path) w then_do λ w1.
      stored path content (disk.create_temp (disk.dir path) w1)

  module _ {A : Type 0} (zero_value : A) (decode : String → String ⊎ A) where
    -- What `json.Unmarshal` gives, where `null` counts as an error.
    abbrev pub decoded : String → String ⊎ A
    decoded content =
        if trim_space content == "null" then inl "null runtime snapshot" else decode content

    -- The rest of `Load` once the corrupt file has its new name.
    abbrev pub rebuilt : Option String × W → (String ⊎ A) × W
    rebuilt (some e, w) = (inl e, w)
    rebuilt (none, w) = (inr zero_value, w)

    abbrev pub moved : String → Option String × W → (String ⊎ A) × W
    moved path (some e, w) = (inl (concat ("preserve corrupt " ∷ path ∷ ": " ∷ e ∷ [])), w)
    moved path (none, w) = rebuilt (sync_dir (disk.dir path) w)

    abbrev pub backup_name : String → String → String
    backup_name path stamp = concat (path ∷ ".corrupt-" ∷ stamp ∷ [])

    abbrev pub preserved : String → String × W → (String ⊎ A) × W
    preserved path (stamp, w) = moved path (disk.rename path (backup_name path stamp) w)

    abbrev pub kept : String → String ⊎ A → W → (String ⊎ A) × W
    kept path (inr value) w = (inr value, w)
    kept path (inl e) w = preserved path (disk.stamp w)

    abbrev pub loaded : String → (ReadError ⊎ String) × W → (String ⊎ A) × W
    loaded path (inl not_exist, w) = (inr zero_value, w)
    loaded path (inl (io_error e), w) = (inl e, w)
    loaded path (inr content, w) = kept path (decoded content) w

    -- `Load`.
    unfoldable pub load : String → W → (String ⊎ A) × W
    unfolding sync_dir
    load path w = loaded path (disk.read_file path w)
