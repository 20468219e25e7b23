-- ===== src/Disk/Driver.antt =====
-- The class LocalDiskStorage of src/adapters/local/LocalDiskStorage.ts, over the calls of node:fs
-- that it makes, as an interface over a world `W`. `none` of a call, or `some` error, is a throw.
use saral.Base.{ℕ, Bool, false, Option, none, some, List, [], ◌∷◌, String}
use Prim.Native.String
use saral.Asset.Storage.{Attempt, got, threw, StoredObject, PutOptions, Storage}
use saral.Disk.Paths.{resolve}

-- A text with another one behind it.
abbrev pub suffixed : String → String → String
suffixed String.[] x = x
suffixed (String.◌∷◌ c s) x = String.◌∷◌ c (suffixed s x)

-- `.${process.pid}.partial`.
abbrev pub suffix : (pid : String) → String
suffix pid = String.◌∷◌ "." (String.◌++◌ pid ".partial")

-- `${target}.${process.pid}.partial`, of a path by its segments: a path in the same directory.
abbrev pub partial : (pid : String) → List String → List String
partial pid [] = suffix pid ∷ []
partial pid (s ∷ []) = suffixed s (suffix pid) ∷ []
partial pid (s ∷ t ∷ ts) = s ∷ partial pid (t ∷ ts)

pub record FileInfo : Type 0 where
  pub is_file : Bool
  pub size : ℕ

pub record Files (W : Type 0) : Type 0 where
  pub pid : String
  pub stat : List String → W → W × Attempt FileInfo String
  pub make_dir : List String → W → W × Option String
  pub write_stream : List String → List ℕ → W → W × Option String
  pub rename : (old new : List String) → W → W × Option String
  pub unlink : List String → W → W × Option String

-- `path.dirname`.
abbrev pub dirname : List String → List String
dirname [] = []
dirname (s ∷ []) = []
dirname (s ∷ t ∷ ts) = s ∷ dirname (t ∷ ts)

abbrev pub unsafe_key : String → String
unsafe_key key = String.◌++◌ "unsafe storage key: " key

module _ {W : Type 0} (files : Files W) (root : List String) where
  -- An error of `stat` or of `resolve` is the answer `false`.
  abbrev pub told_of : W × Attempt FileInfo String → W × Attempt Bool String
  told_of (w, threw e) = (w, got false)
  told_of (w, got info) = (w, got info.is_file)

  unfoldable pub exists : String → W → W × Attempt Bool String
  exists key w = elim (resolve root key) [
    | none ↦ (w, got false)
    | some file_path ↦ told_of (files.stat file_path w)
  ]

  -- The `catch`: the partial file is removed, whether that works or not.
  abbrev pub undo : List String → W → String → W × Option String
  undo file_path w e = ((files.unlink (partial files.pid file_path) w).0, some e)

  abbrev pub renamed : List String → W × Option String → W × Option String
  renamed file_path (w, none) = (w, none)
  renamed file_path (w, some e) = undo file_path w e

  abbrev pub written : List String → W × Option String → W × Option String
  written file_path (w, none) =
      renamed file_path (files.rename (partial files.pid file_path) file_path w)
  written file_path (w, some e) = undo file_path w e

  -- The `try` with its `catch`.
  unfoldable pub replace_file : List String → List ℕ → W → W × Option String
  replace_file file_path body w =
      written file_path (files.write_stream (partial files.pid file_path) body w)

  abbrev pub stored_info :
      String → PutOptions → W × Attempt FileInfo String → W × Attempt StoredObject String
  stored_info key options (w, threw e) = (w, threw e)
  stored_info key options (w, got info) = (
    w,
    got (record {
      key = key;
      provider = "local";
      size_bytes = info.size;
      content_type = options.content_type;
    }),
  )

  abbrev pub measured :
      String → PutOptions → List String → W × Option String → W × Attempt StoredObject String
  measured key options file_path (w, some e) = (w, threw e)
  measured key options file_path (w, none) = stored_info key options (files.stat file_path w)

  abbrev pub in_dir :
      String
      → List ℕ
      → PutOptions
      → List String
      → W × Option String
      → W × Attempt StoredObject String
  in_dir key body options file_path (w, some e) = (w, threw e)
  in_dir key body options file_path (w, none) =
      measured key options file_path (replace_file file_path body w)

  unfoldable pub put_resolved :
      String → List ℕ → PutOptions → W → Option (List String) → W × Attempt StoredObject String
  unfolding replace_file
  put_resolved key body options w none = (w, threw (unsafe_key key))
  put_resolved key body options w (some file_path) =
      in_dir key body options file_path (files.make_dir (dirname file_path) w)

  unfoldable pub put_stream : String → List ℕ → PutOptions → W → W × Attempt StoredObject String
  unfolding put_resolved
  put_stream key body options w = put_resolved key body options w (resolve root key)

  -- `getLocator`, and where `getStream` reads.
  unfoldable pub get_locator : String → Attempt (List String) String
  get_locator key = elim (resolve root key) [
    | none ↦ threw (unsafe_key key)
    | some file_path ↦ got file_path
  ]

  -- The class as the storage port.
  abbrev pub local_disk_storage : Storage W
  unfolding exists put_stream
  local_disk_storage = record { provider = "local"; exists = exists; put_stream = put_stream }
