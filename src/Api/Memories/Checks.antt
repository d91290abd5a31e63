-- ===== src/Api/Memories/Checks.antt =====
-- The validation of src/api/memories.rs against the constraints of the table `memories`.
use personal_knowledge_os.Prelude.{
  ◌≤◌, ◌≡◌, ap, true, false, Option, none, some, length, is_empty, arith, [], ◌∷◌,
}
use personal_knowledge_os.Text.{Text, trim, byte_len, length-le-byte_len}
use personal_knowledge_os.Values.{
  Uuid, DateTime, F32, nan, f32_0_8, f32_0_5, clamp_unit, clamp_unit_bounds, in_unit,
}
use personal_knowledge_os.Models.{CreateMemoryCandidateRequest}
use personal_knowledge_os.Db.Sql.{coalesce}
use personal_knowledge_os.Storage.Memories.Bodies.{candidate_row, memory_check, interval_ok}
use personal_knowledge_os.Api.Memories.{candidate_input}

positive_length : (s : Text) → is_empty s ≡ false → 1 ≤ length s
positive_length [] h = cc
positive_length (c ∷ s) h = omega arith

-- A number of the request, which JSON cannot make NaN.
abbrev pub IsNumber : Option F32 → Type 0
IsNumber o = o ≡ some nan → ⊥

clamped :
    (o : Option F32) (default : F32)
    → IsNumber o
    → (default ≡ nan → ⊥)
    → in_unit (clamp_unit (coalesce o default)) ≡ true
clamped none default number fallback = clamp_unit_bounds default fallback
clamped (some x) default number fallback = clamp_unit_bounds x (λ e. number (ap some e))

f32_0_8-number : f32_0_8 ≡ nan → ⊥
unfolding f32_0_8
f32_0_8-number e = cc

f32_0_5-number : f32_0_5 ≡ nan → ⊥
unfolding f32_0_5
f32_0_5-number e = cc

-- If the type of a request, trimmed, is not empty and has at most 64 bytes, and its confidence and
-- importance are numbers, the row that `create_memory_candidate` would insert for it meets the CHECK
-- constraints of `memories`.
pub candidate_input-memory_check :
    (request : CreateMemoryCandidateRequest) (now : DateTime) (id owner_id : Uuid)
    → is_empty (trim request.memory_type) ≡ false
    → byte_len (trim request.memory_type) ≤ 64
    → IsNumber request.confidence
    → IsNumber request.importance
    → memory_check (candidate_row now id owner_id (candidate_input request)) ≡ true
unfolding memory_check candidate_row candidate_input interval_ok
candidate_input-memory_check request now id owner_id full short confidence importance =
    let wide = length-le-byte_len (trim request.memory_type) in
    let long = positive_length (trim request.memory_type) full in
    let c = clamped request.confidence f32_0_8 confidence f32_0_8-number in
    let i = clamped request.importance f32_0_5 importance f32_0_5-number in rw (c, i) (ground arith)
