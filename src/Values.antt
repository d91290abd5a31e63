-- ===== src/Values.antt =====
-- The values that the records hold: identifiers, times, 32-bit floats and JSON.
mod Int
mod Float
mod Json
unfoldable pub use Int.*
unfoldable pub use Float.*
unfoldable pub use Json.*
use personal_knowledge_os.Prelude.{ℕ, List}

-- A UUID as its 128-bit number: the code generates, compares and stores it.
abbrev pub Uuid : Type 0
Uuid = ℕ

-- `DateTime<Utc>` and `timestamptz`, in microseconds after the earliest time that the database holds.
abbrev pub DateTime : Type 0
DateTime = ℕ

-- `Vec<f32>` and `pgvector::Vector`
abbrev pub Vector : Type 0
Vector = List F32

-- an f64 as its 64 bits; what the code computes with them is a parameter
abbrev pub F64 : Type 0
F64 = ℕ
