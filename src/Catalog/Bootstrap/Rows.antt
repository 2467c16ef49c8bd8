-- ===== src/Catalog/Bootstrap/Rows.antt =====
-- The rows with which `Catalog::BootstrapCatalogs` of src/catalog/catalog.cpp fills the catalog's
-- tables: their codecs can write and read them, and they fit a page.
use cpp_relational_db.Base.{◌+◌, ◌^◌, ◌<◌, ◌≤◌, ◌≡◌, refl, [], length, arith}
use cpp_relational_db.Util.Data.{write_uint, write_array, write_string}
use cpp_relational_db.Storage.SlottedPage.{size_of_slot}
use cpp_relational_db.Catalog.Types.{
  TableInfo, ColumnInfo, TypeInfo, db_tables_table_id, db_attributes_table_id, db_types_table_id,
  int_type, int_size, text_type, text_size, tables_catalog_schema, attr_catalog_schema,
  types_catalog_schema,
}
use cpp_relational_db.Catalog.TableInfoCodec
use cpp_relational_db.Catalog.ColumnInfoCodec
use cpp_relational_db.Catalog.TypeInfoCodec
use cpp_relational_db.Catalog.CatalogTables.Lookup.{All}
use cpp_relational_db.Catalog.Operations.{
  db_tables_file_id, db_tables_root_page_id, db_attributes_file_id, db_attributes_root_page_id,
  db_types_file_id, db_types_root_page_id, db_tables_table, db_attributes_table, db_types_table,
}
use cpp_relational_db.Catalog.Extended.{TableWritable, ColumnWritable}
use cpp_relational_db.Catalog.TypeRows.{TypeWritable}

abbrev pub tables_row : TableInfo
tables_row = record {
  table_id = db_tables_table_id;
  table_name = db_tables_table;
  heap_file_id = db_tables_file_id;
  first_page_id = db_tables_root_page_id;
}

abbrev pub attributes_row : TableInfo
attributes_row = record {
  table_id = db_attributes_table_id;
  table_name = db_attributes_table;
  heap_file_id = db_attributes_file_id;
  first_page_id = db_attributes_root_page_id;
}

abbrev pub types_row : TableInfo
types_row = record {
  table_id = db_types_table_id;
  table_name = db_types_table;
  heap_file_id = db_types_file_id;
  first_page_id = db_types_root_page_id;
}

abbrev pub int_row : TypeInfo
int_row = record { type_id = int_type; size = int_size; type_name = [] }

abbrev pub text_row : TypeInfo
text_row = record { type_id = text_type; size = text_size; type_name = [] }

table_ok :
    (row : TableInfo)
    → length row.table_id ≡ 16
    → length row.table_name < 2 ^ 32
    → length row.heap_file_id ≡ 16
    → row.first_page_id < 2 ^ 32
    → length (TableInfoCodec.encode row) + size_of_slot ≤ 8180
    → TableWritable row
table_ok row a b c d e =
    (record { table_id = a; table_name = b; heap_file_id = c; first_page_id = d }, e)

column_ok :
    (row : ColumnInfo)
    → length row.table_id ≡ 16
    → length row.col_name < 2 ^ 32
    → row.type_id < 2 ^ 32
    → row.ordinal_position < 2 ^ 16
    → length (ColumnInfoCodec.encode row) + size_of_slot ≤ 8180
    → ColumnWritable row
column_ok row a b c d e =
    (record { table_id = a; col_name = b; type_id = c; ordinal_position = d }, e)

pub tables_row-TableWritable : TableWritable tables_row
unfolding TableInfoCodec.encode write_uint write_array write_string
tables_row-TableWritable = table_ok tables_row refl (omega arith) refl (omega arith) (omega arith)

pub attributes_row-TableWritable : TableWritable attributes_row
unfolding TableInfoCodec.encode write_uint write_array write_string
attributes_row-TableWritable =
    table_ok attributes_row refl (omega arith) refl (omega arith) (omega arith)

pub types_row-TableWritable : TableWritable types_row
unfolding TableInfoCodec.encode write_uint write_array write_string
types_row-TableWritable = table_ok types_row refl (omega arith) refl (omega arith) (omega arith)

pub tables_schema-ColumnWritable : All ColumnWritable tables_catalog_schema
unfolding ColumnInfoCodec.encode write_uint write_array write_string
tables_schema-ColumnWritable = (
  column_ok _ refl (omega arith) (omega arith) (omega arith) (omega arith),
  (
    column_ok _ refl (omega arith) (omega arith) (omega arith) (omega arith),
    (
      column_ok _ refl (omega arith) (omega arith) (omega arith) (omega arith),
      (column_ok _ refl (omega arith) (omega arith) (omega arith) (omega arith), tt),
    ),
  ),
)

pub attr_schema-ColumnWritable : All ColumnWritable attr_catalog_schema
unfolding ColumnInfoCodec.encode write_uint write_array write_string
attr_schema-ColumnWritable = (
  column_ok _ refl (omega arith) (omega arith) (omega arith) (omega arith),
  (
    column_ok _ refl (omega arith) (omega arith) (omega arith) (omega arith),
    (
      column_ok _ refl (omega arith) (omega arith) (omega arith) (omega arith),
      (column_ok _ refl (omega arith) (omega arith) (omega arith) (omega arith), tt),
    ),
  ),
)

pub types_schema-ColumnWritable : All ColumnWritable types_catalog_schema
unfolding ColumnInfoCodec.encode write_uint write_array write_string
types_schema-ColumnWritable = (
  column_ok _ refl (omega arith) (omega arith) (omega arith) (omega arith),
  (
    column_ok _ refl (omega arith) (omega arith) (omega arith) (omega arith),
    (column_ok _ refl (omega arith) (omega arith) (omega arith) (omega arith), tt),
  ),
)

pub int_row-TypeWritable : TypeWritable int_row
unfolding TypeInfoCodec.encode write_uint write_string
int_row-TypeWritable =
    (record { type_id = omega arith; size = omega arith; type_name = omega arith }, omega arith)

pub text_row-TypeWritable : TypeWritable text_row
unfolding TypeInfoCodec.encode write_uint write_string
text_row-TypeWritable =
    (record { type_id = omega arith; size = omega arith; type_name = omega arith }, omega arith)
