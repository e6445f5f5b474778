-- ===== src/Paths/Tests.antt =====
-- The path of a backup file.
use pgwarden.Prelude.{◌≡◌, refl, false, List, [], ◌∷◌, ◌∙◌, Bytes, codes, All}
use pgwarden.Go.Strings.{join}
use pgwarden.Paths.{remove_leading_slash, create_path}
use pgwarden.Paths.Create.{IsCleanPart, stripped, create_path_joins}

abbrev parts : List Bytes
parts = codes "2026/01/31" ∷ codes "dump.zip" ∷ []

parts_clean : All IsCleanPart (codes "/db1/5432/app" ∷ parts)
unfolding remove_leading_slash
parts_clean = (
  record { not_empty = refl; clean_end = refl },
  (
    record { not_empty = refl; clean_end = refl },
    (record { not_empty = refl; clean_end = refl }, tt),
  ),
)

joined :
    join (codes "/") (stripped (codes "/db1/5432/app" ∷ parts))
    ≡ codes "db1/5432/app/2026/01/31/dump.zip"
unfolding join stripped remove_leading_slash
joined = refl

built : create_path false (codes "/db1/5432/app" ∷ parts) ≡ codes "db1/5432/app/2026/01/31/dump.zip"
built = (create_path_joins (codes "/db1/5432/app") parts parts_clean).0 ∙ joined
