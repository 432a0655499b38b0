-- ===== src/Record/Schema.antt =====
-- lib/catalog/schema.h. A string is the list of its bytes.
use cpplite.Common.{Bool, List}
use cpplite.Encoding.{Bytes}

pub data DataType : Type 0 where
  integer boolean text : DataType

pub data SchemaType : Type 0 where
  table : SchemaType

pub record Column : Type 0 where
  pub data_type : DataType
  pub name : Bytes
  pub is_primary_key : Bool
  pub is_nullable : Bool

pub record Table : Type 0 where
  pub schema_type : SchemaType
  pub name : Bytes
  pub tbl_name : Bytes
  pub columns : List Column
