-- ===== src/Api/Search.antt =====
-- src/api/search.rs and src/api/health.rs.
use personal_knowledge_os.Text.{codes}
use personal_knowledge_os.Models.{SearchRequest, SearchResponse, HealthResponse}
use personal_knowledge_os.Db.Action.{Action, ◌>>◌, pure}
use personal_knowledge_os.Extraction.Process.{AppState}
use personal_knowledge_os.Storage.Search.{ping}
use personal_knowledge_os.Retrieval as Retrieval
use personal_knowledge_os.Retrieval.{Searcher}

-- `search`
unfoldable pub search : Searcher → AppState → SearchRequest → Action SearchResponse
search searcher state request = Retrieval.search searcher state request

-- `health`
abbrev pub health : HealthResponse
health = record { status = codes "ok"; database = codes "unchecked" }

-- `ready`
unfoldable pub ready : Action HealthResponse
ready = do ping; pure (record { status = codes "ok"; database = codes "ok" })
