-- ===== src/Schema.antt =====
-- The schema of the database: what a migration script creates, and what the models declare.
pub mod Convention
pub mod Declared
pub mod Ddl
pub mod Checks
pub mod Migrations
pub mod Dbml
use gpca_v.Prelude.{String, Bool, Option, List}

-- a column with its PostgreSQL type
pub record Column : Type 0 where
  pub name : String
  pub type : String
  pub nullable : Bool
  pub default : Option String

pub record ForeignKey : Type 0 where
  pub name : String
  pub column : String
  pub target : String
  pub target_column : String
  pub ondelete : String

-- a UNIQUE constraint on one column
pub record Unique : Type 0 where
  pub name : String
  pub column : String

pub record Table : Type 0 where
  pub name : String
  pub columns : List Column
  pub primary_key : Unique
  pub foreign_keys : List ForeignKey
  pub uniques : List Unique

-- an index over columns or one expression, with its access method, its operator
-- class and its WHERE clause
pub record Index : Type 0 where
  pub name : String
  pub table : String
  pub keys : List String
  pub unique : Bool
  pub method : String
  pub opclass : Option String
  pub condition : Option String

-- an enumerated type with its labels
pub record EnumType : Type 0 where
  pub name : String
  pub labels : List String

-- A database without its rows, the newest objects first.
pub record Catalog : Type 0 where
  pub extensions : List String
  pub types : List EnumType
  pub tables : List Table
  pub indexes : List Index
