-- ===== src/Db/Libs.antt =====
-- What the source takes from packages and from the database server and what is not in the repository:
-- functions of their arguments, and parameters of every component that uses them.
use personal_knowledge_os.Prelude.{Bool, Option}
use personal_knowledge_os.Text.{Text}
use personal_knowledge_os.Values.{Uuid, DateTime}

pub record Libs : Type 0 where
  -- `Uuid` as text, in JSON too, and `str::parse::<Uuid>`
  pub uuid_text : Uuid → Text
  pub uuid_parse : Text → Option Uuid
  -- `str::to_lowercase`, by the Unicode tables, and SQL's `lower`
  pub to_lowercase : Text → Text
  pub sql_lower : Text → Text
  -- SQL's `<=` on texts, by the collation of the database
  pub sql_leb : Text → Text → Bool
  -- `content ILIKE '%' || query || '%'`
  pub ilike : Text → Text → Bool
  -- `hex::encode(Sha256::digest(…))`
  pub sha256_hex : Text → Text
  -- a time in JSON, and `DateTime::parse_from_rfc3339`
  pub time_text : DateTime → Text
  pub time_parse : Text → Option DateTime
