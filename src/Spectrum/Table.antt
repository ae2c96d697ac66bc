-- ===== src/Spectrum/Table.antt =====
-- The tables of the database redb, which the store takes as a parameter, with what is documented of
-- `get` and `insert`.
use eecs_k8s.Prelude.{String, ◌≡◌, Option, none, some, str_eq, false}

pub record Database : Type 1 where
  pub Table : Type 0 → Type 0
  pub empty : {V : Type 0} → Table V
  pub get : {V : Type 0} → Table V → String → Option V
  pub insert : {V : Type 0} → String → V → Table V → Table V

pub record DatabaseLaws (db : Database) : Type 1 where
  pub get-empty : {V : Type 0} (key : String) → db.get {V = V} db.empty key ≡ none
  pub get-insert :
      {V : Type 0} (key : String) (v : V) (t : db.Table V) → db.get (db.insert key v t) key ≡ some v
  pub get-insert_ne :
      {V : Type 0} (key other : String) (v : V) (t : db.Table V)
      → str_eq key other ≡ false
      → db.get (db.insert key v t) other ≡ db.get t other
