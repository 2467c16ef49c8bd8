-- ===== src/Catalog/Bootstrap/Tests.antt =====
-- An empty file is bootstrapped, and opened again.
use cpp_relational_db.Base.{◌≡◌, refl, List, [], none, some, arith, Perm}
use cpp_relational_db.Storage.BufferManager.{returned, new_buffer_manager}
use cpp_relational_db.Storage.DiskManager.{DiskManager, disk_manager}
use cpp_relational_db.Storage.DiskManager.Pages.{Stores, keeps_pages}
use cpp_relational_db.Access.TwoPages.{keeps}
use cpp_relational_db.Access.HeapFile.Reopen.{new_buffer_manager-Ready}
use cpp_relational_db.Catalog.Types.{ColumnInfo, db_attributes_table_id}
use cpp_relational_db.Catalog.Operations.{
  Catalog, root_page_id, header_page, load_catalogs, bootstrap_catalogs, lookup_table,
  get_table_columns, db_attributes_table,
}
use cpp_relational_db.Catalog.RowLookups.{columns_of}
use cpp_relational_db.Catalog.Reopen.{fresh_catalog}
use cpp_relational_db.Catalog.Bootstrap.{Bootstrapped, bootstrap_catalogs-Bootstrapped}
use cpp_relational_db.Catalog.Bootstrap.Pages.{below}
use cpp_relational_db.Catalog.Bootstrap.Rows.{attributes_row}
use cpp_relational_db.Catalog.Bootstrap.Fill.{catalog_columns}
use cpp_relational_db.Catalog.Bootstrap.Lookups.{bootstrap_catalogs-lookup_table}

abbrev empty_file : DiskManager
empty_file = record { db_io = record { size = 0; byte = λ j. 0 }; free_list = []; next_page_id = 0 }

abbrev catalog : Catalog DiskManager
catalog = fresh_catalog 4 (λ _. 0) empty_file

catalog_ids : keeps.ids catalog.bm.disk ≡ below 0
unfolding new_buffer_manager
catalog_ids = keeps_pages.1 empty_file

no_pages : catalog.bm.page_table root_page_id ≡ none
unfolding new_buffer_manager
no_pages = refl

bootstrap_catalogs-Bootstrapped_example :
    (c' : Catalog DiskManager) × (bootstrap_catalogs disk_manager 16 catalog
      ≡ returned (some tt) c')
    × Bootstrapped disk_manager keeps c'
bootstrap_catalogs-Bootstrapped_example =
    bootstrap_catalogs-Bootstrapped disk_manager keeps 16 catalog (omega arith)
      (new_buffer_manager-Ready 4 (λ _. 0) empty_file (omega arith)) catalog_ids no_pages

bootstrap_catalogs-lookup_table_example :
    (c₁ : Catalog DiskManager) × (c₂ : Catalog DiskManager) × (c₃ : Catalog DiskManager)
    × (found : List ColumnInfo) × (bootstrap_catalogs disk_manager 16 catalog
        ≡ returned (some tt) c₁)
    × Stores c₁.bm.disk root_page_id header_page
    × (lookup_table disk_manager 16 16 0
          (load_catalogs (fresh_catalog 4 (λ _. 0) c₁.bm.disk))
          db_attributes_table
        ≡ returned (some (some attributes_row)) c₂)
    × (get_table_columns disk_manager 16 16 0 c₂ db_attributes_table_id ≡ returned (some found) c₃)
    × Perm found (columns_of db_attributes_table_id catalog_columns)
bootstrap_catalogs-lookup_table_example =
    bootstrap_catalogs-lookup_table disk_manager keeps 16 16 0 catalog 4 (λ _. 0)
      db_attributes_table db_attributes_table_id attributes_row (omega arith) (omega arith)
      (omega arith) (new_buffer_manager-Ready 4 (λ _. 0) empty_file (omega arith)) catalog_ids
      no_pages refl
