-- ===== src/Cas/Objects.antt =====
-- The object store that internal/cas uses: internal/objectstore/objectstore.go's Store, with the
-- operations that the package calls, over a state of any type, and what internal/cas relies on.
use imgsrv.Prelude.{ℕ, String, Bool, true, false, Option, some, List, ◌≡◌, ℤ, Result, ok, str_eq}

pub record ObjectInfo : Type 0 where
  pub key : String
  pub size_bytes : ℤ
  pub etag : String

-- An open object. Its body reads to the bytes of the object, or fails, also when it is closed.
pub record ObjectReader : Type 0 where
  pub info : ObjectInfo
  pub body : Result (List ℕ)

pub record CopyObjectParams : Type 0 where
  pub source_key : String
  pub if_source_etag : String
  pub destination_key : String
  pub if_destination_absent : Bool

pub record ObjectStore (O : Type 0) : Type 0 where
  pub open_object : String → O → Result ObjectReader × O
  pub stat_object : String → O → Result ObjectInfo × O
  pub copy_object : CopyObjectParams → O → Result ObjectInfo × O
  pub delete_object : String → O → Result (Unit {0}) × O

pub record Stored : Type 0 where
  pub content : List ℕ
  pub etag : String

-- What the code relies on: reading changes nothing and reads what is stored, a copy takes the source
-- of the entity tag that is asked for and, where the destination must be absent, replaces no object, whether it succeeds
-- or not, and a deletion removes one object at most.
pub record IsLawful {O : Type 0} (s : ObjectStore O) : Type 0 where
  pub stored : O → String → Option Stored
  pub open_keeps : (k : String) (o : O) (n : String) → stored (s.open_object k o).1 n ≡ stored o n
  pub open_reads :
      (k : String) (o : O) (r : ObjectReader) (c : List ℕ)
      → (s.open_object k o).0 ≡ ok r
      → r.body ≡ ok c
      → stored o k ≡ some (record { content = c; etag = r.info.etag })
  pub stat_keeps : (k : String) (o : O) (n : String) → stored (s.stat_object k o).1 n ≡ stored o n
  pub copy_keeps :
      (p : CopyObjectParams) (o : O) (n : String) (x : Stored)
      → p.if_destination_absent ≡ true
      → stored o n ≡ some x
      → stored (s.copy_object p o).1 n ≡ some x
  pub copy_takes :
      (p : CopyObjectParams) (o : O) (info : ObjectInfo)
      → (s.copy_object p o).0 ≡ ok info
      → (c : List ℕ) × (etag : String) × (stored o p.source_key
          ≡ some (record { content = c; etag = p.if_source_etag }))
        × (stored (s.copy_object p o).1 p.destination_key
            ≡ some (record { content = c; etag = etag }))
  pub delete_keeps :
      (k : String) (o : O) (n : String)
      → str_eq k n ≡ false
      → stored (s.delete_object k o).1 n ≡ stored o n
