-- ===== src/Stores/Tests.antt =====
-- Saving under a key inside the base directory, with files in memory.
use Prim.Native.String.{◌++◌ as text_append}
use quant_pilot.Base.{
  String, ◌≡◌, ◌⊎◌, true, false, Option, some, none, List, [], ◌∷◌, length, str_eq, if◌then◌else◌,
  ℕ, arith,
}
use quant_pilot.Base.Dict.{Dict, lookup, insert, lookup-insert}
use quant_pilot.Domain.{ArtifactRef}
use quant_pilot.Stores.Artifacts.{
  FileSystem, IsFileSystem, Location, is_contained, resolve_key, KeepsOthers, uri_for, save_bytes,
  load_bytes, exists, save_bytes_lem,
}

abbrev pub files : FileSystem (List ℕ) (Dict (List ℕ))
files = record {
  read_bytes = λ s path. lookup path s;
  write_bytes =
      λ path bytes s. if str_eq path "/data" then (s, false) else (insert path bytes s, true);
}

write_read :
    (s : Dict (List ℕ)) (p q : String) (bytes : List ℕ)
    → (files.write_bytes p bytes s).1 ≡ true
    → files.read_bytes (files.write_bytes p bytes s).0 q
      ≡ (if str_eq p q then some bytes else files.read_bytes s q)
write_read s p q bytes wrote = ground (arith, lookup-insert p q bytes s)

write_read_ne :
    (s : Dict (List ℕ)) (p q : String) (bytes : List ℕ)
    → str_eq p q ≡ false
    → files.read_bytes (files.write_bytes p bytes s).0 q ≡ files.read_bytes s q
write_read_ne s p q bytes apart = ground (arith, lookup-insert p q bytes s)

pub files-IsFileSystem : IsFileSystem files
files-IsFileSystem = record { read-write = write_read; read-write_ne = write_read_ne }

abbrev pub place : Location (List ℕ)
place = record {
  base = "/data";
  resolve = λ key. text_append "/data/" key;
  as_uri = λ path. text_append "file://" path;
  size = length;
  now = 7;
}

abbrev saved : Dict (List ℕ) × Option ArtifactRef
saved = save_bytes files place "runs/r1/equity.json" (1 ∷ 2 ∷ []) "application/json" []

save_bytes_lem_example :
    ((path : String) → (is_contained place path ≡ true) ⊎ (lookup path saved.0 ≡ lookup path []))
    × (((saved.1 ≡ none)
          × (((resolve_key place "runs/r1/equity.json" ≡ none) × (saved.0 ≡ []))
              ⊎ (((file : String) × (resolve_key place "runs/r1/equity.json" ≡ some file))
                  × KeepsOthers files place "runs/r1/equity.json" [] saved.0)))
        ⊎ ((file : String) × (ref : ArtifactRef) × (saved.1 ≡ some ref)
            × (ref.key ≡ "runs/r1/equity.json")
            × (uri_for place "runs/r1/equity.json" ≡ some ref.uri)
            × (load_bytes files place "runs/r1/equity.json" saved.0 ≡ some (1 ∷ 2 ∷ []))
            × (exists files place "runs/r1/equity.json" saved.0 ≡ true)
            × ((path : String)
                → lookup path saved.0
                  ≡ (if str_eq file path then some (1 ∷ 2 ∷ []) else lookup path []))))
save_bytes_lem_example =
    save_bytes_lem files place files-IsFileSystem "runs/r1/equity.json" (1 ∷ 2 ∷ [])
      "application/json" []
