-- ===== src/Catalog/Types.antt =====
-- include/catalog/catalog_types.h, catalog_bootstrap.h, include/common/value.h and tuple.h: the rows
-- of the catalog, its constants, and the values of a tuple. A UUID is its 16 bytes, a string the
-- bytes of its characters, a page id its 32-bit pattern.
use cpp_relational_db.Base.{ℕ, List, [], ◌∷◌}

pub record TableInfo : Type 0 where
  pub table_id : List ℕ
  pub table_name : List ℕ
  pub heap_file_id : List ℕ
  pub first_page_id : ℕ

pub record ColumnInfo : Type 0 where
  pub table_id : List ℕ
  pub col_name : List ℕ
  pub type_id : ℕ
  pub ordinal_position : ℕ

pub record RawColumnInfo : Type 0 where
  pub col_name : List ℕ
  pub type_id : ℕ
  pub ordinal_position : ℕ

pub record TypeInfo : Type 0 where
  pub type_id : ℕ
  pub size : ℕ
  pub type_name : List ℕ

-- `common::Value`, the alternatives in their order.
pub data Value : Type 0 where
  uint : ℕ → Value
  string : List ℕ → Value
  uuid : List ℕ → Value
  page_id : ℕ → Value

abbrev pub Schema : Type 0
Schema = List ColumnInfo

pub record Tuple : Type 0 where
  pub values : List Value
  pub schema : Schema

-- `util::MakeUUID(0, …, 0, b)`
abbrev pub uuid_of : ℕ → List ℕ
uuid_of b = 0 ∷ 0 ∷ 0 ∷ 0 ∷ 0 ∷ 0 ∷ 0 ∷ 0 ∷ 0 ∷ 0 ∷ 0 ∷ 0 ∷ 0 ∷ 0 ∷ 0 ∷ b ∷ []

abbrev pub db_tables_table_id : List ℕ
db_tables_table_id = uuid_of 2

abbrev pub db_attributes_table_id : List ℕ
db_attributes_table_id = uuid_of 3

abbrev pub db_types_table_id : List ℕ
db_types_table_id = uuid_of 4

abbrev pub int_type : ℕ
int_type = 1

abbrev pub text_type : ℕ
text_type = 2

abbrev pub int_size : ℕ
int_size = 4

-- `TEXT_SIZE = -1` as a `uint16_t`
abbrev pub text_size : ℕ
text_size = 65535

abbrev pub int_alignment : ℕ
int_alignment = 4

abbrev pub text_alignment : ℕ
text_alignment = 4

-- The schemas of the three catalog tables; each name is the bytes of its characters.
-- "table_id"
abbrev name_table_id : List ℕ
name_table_id = 116 ∷ 97 ∷ 98 ∷ 108 ∷ 101 ∷ 95 ∷ 105 ∷ 100 ∷ []

-- "table_name"
abbrev name_table_name : List ℕ
name_table_name = 116 ∷ 97 ∷ 98 ∷ 108 ∷ 101 ∷ 95 ∷ 110 ∷ 97 ∷ 109 ∷ 101 ∷ []

-- "heap_file_id"
abbrev name_heap_file_id : List ℕ
name_heap_file_id = 104 ∷ 101 ∷ 97 ∷ 112 ∷ 95 ∷ 102 ∷ 105 ∷ 108 ∷ 101 ∷ 95 ∷ 105 ∷ 100 ∷ []

-- "first_page_id"
abbrev name_first_page_id : List ℕ
name_first_page_id = 102 ∷ 105 ∷ 114 ∷ 115 ∷ 116 ∷ 95 ∷ 112 ∷ 97 ∷ 103 ∷ 101 ∷ 95 ∷ 105 ∷ 100 ∷ []

-- "col_name"
abbrev name_col_name : List ℕ
name_col_name = 99 ∷ 111 ∷ 108 ∷ 95 ∷ 110 ∷ 97 ∷ 109 ∷ 101 ∷ []

-- "type_id"
abbrev name_type_id : List ℕ
name_type_id = 116 ∷ 121 ∷ 112 ∷ 101 ∷ 95 ∷ 105 ∷ 100 ∷ []

-- "ordinal_position"
abbrev name_ordinal_position : List ℕ
name_ordinal_position =
    111 ∷ 114 ∷ 100 ∷ 105 ∷ 110 ∷ 97 ∷ 108 ∷ 95 ∷ 112 ∷ 111 ∷ 115 ∷ 105 ∷ 116 ∷ 105 ∷ 111 ∷ 110 ∷ []

-- "size"
abbrev name_size : List ℕ
name_size = 115 ∷ 105 ∷ 122 ∷ 101 ∷ []

-- "type_name"
abbrev name_type_name : List ℕ
name_type_name = 116 ∷ 121 ∷ 112 ∷ 101 ∷ 95 ∷ 110 ∷ 97 ∷ 109 ∷ 101 ∷ []

abbrev pub tables_catalog_schema : Schema
tables_catalog_schema =
    record {
      table_id = db_tables_table_id;
      col_name = name_table_id;
      type_id = int_type;
      ordinal_position = 1;
    }
    ∷ record {
      table_id = db_tables_table_id;
      col_name = name_table_name;
      type_id = text_type;
      ordinal_position = 2;
    }
    ∷ record {
      table_id = db_tables_table_id;
      col_name = name_heap_file_id;
      type_id = int_type;
      ordinal_position = 3;
    }
    ∷ record {
      table_id = db_tables_table_id;
      col_name = name_first_page_id;
      type_id = int_type;
      ordinal_position = 4;
    }
    ∷ []

abbrev pub attr_catalog_schema : Schema
attr_catalog_schema =
    record {
      table_id = db_attributes_table_id;
      col_name = name_table_id;
      type_id = int_type;
      ordinal_position = 1;
    }
    ∷ record {
      table_id = db_attributes_table_id;
      col_name = name_col_name;
      type_id = text_type;
      ordinal_position = 2;
    }
    ∷ record {
      table_id = db_attributes_table_id;
      col_name = name_type_id;
      type_id = int_type;
      ordinal_position = 3;
    }
    ∷ record {
      table_id = db_attributes_table_id;
      col_name = name_ordinal_position;
      type_id = int_type;
      ordinal_position = 4;
    }
    ∷ []

abbrev pub types_catalog_schema : Schema
types_catalog_schema =
    record {
      table_id = db_types_table_id;
      col_name = name_type_id;
      type_id = int_type;
      ordinal_position = 1;
    }
    ∷ record {
      table_id = db_types_table_id;
      col_name = name_size;
      type_id = int_type;
      ordinal_position = 2;
    }
    ∷ record {
      table_id = db_types_table_id;
      col_name = name_type_name;
      type_id = text_type;
      ordinal_position = 3;
    }
    ∷ []
