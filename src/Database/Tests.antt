-- ===== src/Database/Tests.antt =====
-- A violated unique index.
use helix_fnd.Prelude.{◌≡◌, refl, none, some, false}
use helix_fnd.Database.{DbError, MappedError, map_error, sql_state}
use helix_fnd.Database.Codes.{HasStatus, map_error-HasStatus}

abbrev duplicate : DbError
duplicate = record {
  text = "ERROR: duplicate key (SQLSTATE 23505)";
  is_no_rows_in_chain = false;
  pg =
      some
        (record { code = "23505"; detail = "Key (id)=(7) already exists."; message = "duplicate" });
}

map_error_example :
    (map_error none ≡ none)
    × ((m : MappedError) × (map_error (some duplicate) ≡ some m)
        × HasStatus m ("RES_ALREADY_EXISTS", 409))
unfolding sql_state
map_error_example = map_error-HasStatus duplicate

duplicate_text :
    map_error (some duplicate)
    ≡ some (record { text = "RES_ALREADY_EXISTS: Key (id)=(7) already exists."; wrapped = none })
unfolding map_error sql_state
duplicate_text = refl
