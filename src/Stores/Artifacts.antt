-- ===== src/Stores/Artifacts.antt =====
-- src/quant_pilot/adapters/artifacts/local_store.py: `LocalArtifactStore`. Paths are texts; the file
-- system, `Path.resolve`, `Path.as_uri`, the length of a value of bytes and JSON are parameters.
use Prim.Native.String.{◌++◌ as text_append}
use text.Mathlib.Text.{starts_with}
use mathlib.Core.Path.{subst}
use quant_pilot.Base.{
  ℕ, String, ◌≡◌, ◌⊎◌, inl, inr, refl, ap, Bool, true, false, not, ◌&&◌, ◌||◌, Option, none, some,
  maybe, str_eq, eq_iff, if◌then◌else◌, arith, Bool-cases,
}
use quant_pilot.Domain.{ArtifactRef}

-- `path.read_bytes()` of a file, `none` without one, and `path.write_bytes(bytes)` with the parent
-- directories: the state after it, and whether it got through. A write that raises, as it does for a
-- directory or a full disk, may have truncated the file.
pub record FileSystem (B S : Type 0) : Type 0 where
  pub read_bytes : S → String → Option B
  pub write_bytes : String → B → S → S × Bool

-- Bytes that are written to a path are read from it, and other paths are untouched by any write.
pub record IsFileSystem {B S : Type 0} (fs : FileSystem B S) : Type 0 where
  pub read-write :
      (s : S) (p q : String) (bytes : B)
      → (fs.write_bytes p bytes s).1 ≡ true
      → fs.read_bytes (fs.write_bytes p bytes s).0 q
        ≡ (if str_eq p q then some bytes else fs.read_bytes s q)
  pub read-write_ne :
      (s : S) (p q : String) (bytes : B)
      → str_eq p q ≡ false
      → fs.read_bytes (fs.write_bytes p bytes s).0 q ≡ fs.read_bytes s q

-- The base directory, resolved; `resolve` is `(base / key).resolve()`.
pub record Location (B : Type 0) : Type 0 where
  pub base : String
  pub resolve : String → String
  pub as_uri : String → String
  pub size : B → ℕ
  pub now : ℕ

module _ {B : Type 0} (place : Location B) where
  -- The base directory, or a path below it.
  unfoldable pub is_contained : String → Bool
  is_contained path = str_eq path place.base || starts_with path (text_append place.base "/")

  -- `_resolve`; `none` is the `ValueError`.
  unfoldable pub resolve_key : String → Option String
  resolve_key key =
      let path = place.resolve key in
      if not (str_eq path place.base) && not (starts_with path (text_append place.base "/"))
      then none
      else some path

  unfoldable pub uri_for : String → Option String
  uri_for key = maybe (resolve_key key) none λ path. some (place.as_uri path)

  resolve_key_cases :
      (key : String)
      → (resolve_key key ≡ none)
        ⊎ ((path : String) × (resolve_key key ≡ some path) × (is_contained path ≡ true))
  unfolding resolve_key is_contained
  resolve_key_cases key = elim (Bool-cases (is_contained (place.resolve key))) [
    | inl inside ↦ inr (place.resolve key, ground arith, inside)
    | inr outside ↦ inl (ground arith)
  ]

module _ {B S : Type 0} (fs : FileSystem B S) (place : Location B) where
  -- The reference to what is saved.
  abbrev pub ref_of : String → B → String → String → ArtifactRef
  ref_of key bytes content_type path = record {
    key = key;
    uri = place.as_uri path;
    size = place.size bytes;
    content_type = content_type;
    created_at = place.now;
  }

  -- `none` is an exception: an unsafe key, or a write that is refused.
  unfoldable pub save_bytes : String → B → String → S → S × Option ArtifactRef
  save_bytes key bytes content_type s =
      maybe (resolve_key place key) (s, none)
        λ path.
          let (s', written) = fs.write_bytes path bytes s in
          (s', if written then some (ref_of key bytes content_type path) else none)

  -- `none` is an unsafe key or a missing file.
  unfoldable pub load_bytes : String → S → Option B
  load_bytes key s = maybe (resolve_key place key) none λ path. fs.read_bytes s path

  unfoldable pub exists : String → S → Bool
  exists key s =
      maybe (resolve_key place key) false λ path. maybe (fs.read_bytes s path) false λ _. true

  -- `json.dumps(obj).encode()` and `json.loads`
  module _ {J : Type 0} (dumps : J → B) (loads : B → J) where
    unfoldable pub save_json : String → J → S → S × Option ArtifactRef
    save_json key obj s = save_bytes key (dumps obj) "application/json" s

    unfoldable pub load_json : String → S → Option J
    load_json key s = maybe (load_bytes key s) none λ bytes. some (loads bytes)

  -- At most the file of a key has changed.
  abbrev pub KeepsOthers : String → S → S → Type 0
  KeepsOthers key s s' =
      (path : String)
      → (resolve_key place key ≡ some path) ⊎ (fs.read_bytes s' path ≡ fs.read_bytes s path)

  -- Whatever the key, a file outside the base directory is as it was. The call raises: for an unsafe
  -- key nothing is written, and else the file of the key at most has changed. Or the bytes exist and
  -- are loaded under the key, and only one file changed, that of the key, which is at the reference's
  -- address.
  pub save_bytes_lem :
      IsFileSystem fs
      → (key : String) (bytes : B) (content_type : String) (s : S)
      → let (s', result) = save_bytes key bytes content_type s in
        ((path : String)
          → (is_contained place path ≡ true) ⊎ (fs.read_bytes s' path ≡ fs.read_bytes s path))
        × (((result ≡ none)
              × (((resolve_key place key ≡ none) × (s' ≡ s))
                  ⊎ (((file : String) × (resolve_key place key ≡ some file))
                      × KeepsOthers key s s')))
            ⊎ ((file : String) × (ref : ArtifactRef) × (result ≡ some ref)
                × (ref.key ≡ key)
                × (uri_for place key ≡ some ref.uri)
                × (load_bytes key s' ≡ some bytes)
                × (exists key s' ≡ true)
                × ((path : String)
                    → fs.read_bytes s' path
                      ≡ (if str_eq file path then some bytes else fs.read_bytes s path))))
  unfolding save_bytes load_bytes exists uri_for
  save_bytes_lem laws key bytes content_type s = elim (resolve_key_cases place key) [
    | inl refused ↦ rw refused (λ path. inr refl, inl (refl, inl (refl, refl)))
    | inr (file, found, inside) ↦
        let s' = (fs.write_bytes file bytes s).0 in
        let is_kept = λ (path : String).
          elim (Bool-cases (str_eq file path))
            as (λ _. (file ≡ path) ⊎ (fs.read_bytes s' path ≡ fs.read_bytes s path)) [
              | inl same ↦ inl ((eq_iff file path).0 same)
              | inr apart ↦ inr (laws.read-write_ne s file path bytes apart)
            ] in
        let outside = λ (path : String).
          elim (is_kept path)
            as (λ _.
              (is_contained place path ≡ true) ⊎ (fs.read_bytes s' path ≡ fs.read_bytes s path)) [
                | inl same ↦ inl (subst (λ (p : String). is_contained place p ≡ true) same inside)
                | inr kept ↦ inr kept
              ] in
        elim (Bool-cases (fs.write_bytes file bytes s).1) [
          | inl wrote ↦
              let after = λ (path : String). laws.read-write s file path bytes wrote in
              let stored : fs.read_bytes s' file ≡ some bytes =
                ground (arith, after file, eq_iff file file) in
              rw found (
                outside,
                inr (
                  file,
                  ref_of key bytes content_type file,
                  rw wrote refl,
                  refl,
                  refl,
                  stored,
                  rw stored refl,
                  after,
                ),
              )
          | inr raised ↦ rw found (
            outside,
            inl (
              rw raised refl,
              inr (
                (file, refl),
                λ path. elim (is_kept path) [ inl same ↦ inl (ap some same) | inr kept ↦ inr kept ],
              ),
            ),
          )
        ]
  ]
