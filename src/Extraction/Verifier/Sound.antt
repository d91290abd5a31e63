-- ===== src/Extraction/Verifier/Sound.antt =====
-- What `validate_candidate` accepts.
use personal_knowledge_os.Prelude.{
  ◌≤◌, ◌≡◌, ◌≢◌, ◌↔◌, refl, ◌⊎◌, inl, inr, true, false, ◌||◌, List, [], ◌∷◌, any, arith, Any,
  Bool-cases, length, ltb, is_empty,
}
use personal_knowledge_os.Text.{
  Text, text_eq, text_eq_refl, text_eq→eq, trim, contains, contains_sound,
}
use personal_knowledge_os.Values.{is_finite, in_unit}
use personal_knowledge_os.Models.{SourceRecord}
use personal_knowledge_os.Extraction.Verifier.{
  ExtractedMemory, accepted, memory_types, is_supported, contains_sensitive_material,
  evidence_is_grounded, validate_candidate, normalize_whitespace,
}
use personal_knowledge_os.Extraction.Verifier.Sensitive.{
  Within, Within→contains, LacksSecrets, contains_sensitive_material_iff,
}

-- The policy on a proposed memory, of its trimmed texts.
pub record IsAcceptable (source : SourceRecord) (c : ExtractedMemory) : Type 0 where
  pub supported : Any (λ t. trim c.memory_type ≡ t) memory_types
  pub stated : trim c.statement ≢ []
  pub concise : length (trim c.statement) ≤ 1000
  pub confidence_finite : is_finite c.confidence ≡ true
  pub importance_finite : is_finite c.importance ≡ true
  pub confidence_in_unit : in_unit c.confidence ≡ true
  pub importance_in_unit : in_unit c.importance ≡ true
  pub quoted : 4 ≤ length (trim c.evidence_quote)
  pub grounded :
      Within (trim c.evidence_quote) source.content
      ⊎ Within (normalize_whitespace (trim c.evidence_quote)) (normalize_whitespace source.content)
  pub statement_safe : LacksSecrets (trim c.statement)
  pub quote_safe : LacksSecrets (trim c.evidence_quote)

supported_sound :
    (t : Text) (ts : List Text) → any (λ u. text_eq t u) ts ≡ true → Any (λ u. t ≡ u) ts
supported_sound t [] h = cc
supported_sound t (u ∷ us) h = elim (Bool-cases (text_eq t u)) [
  | inl same ↦ inl (text_eq→eq t u same)
  | inr other ↦ inr (supported_sound t us (ground arith))
]

supported_complete :
    (t : Text) (ts : List Text) → Any (λ u. t ≡ u) ts → any (λ u. text_eq t u) ts ≡ true
supported_complete t [] h = absurd h
supported_complete t (u ∷ us) (inl e) = rw (← e, text_eq_refl t) refl
supported_complete t (u ∷ us) (inr h) = ground (arith, supported_complete t us h)

is_supported_iff : (t : Text) → (is_supported t ≡ true) ↔ Any (λ u. t ≡ u) memory_types
unfolding is_supported
is_supported_iff t = (supported_sound t memory_types, supported_complete t memory_types)

grounded_iff :
    (source quote : Text)
    → (evidence_is_grounded source quote ≡ true)
      ↔ (Within quote source ⊎ Within (normalize_whitespace quote) (normalize_whitespace source))
unfolding evidence_is_grounded
grounded_iff source quote = (sound, complete)
  where
    sound :
        (contains source quote
            || contains (normalize_whitespace source) (normalize_whitespace quote))
          ≡ true
        → Within quote source ⊎ Within (normalize_whitespace quote) (normalize_whitespace source)
    sound h = elim (Bool-cases (contains source quote)) [
      | inl verbatim ↦ inl (contains_sound source quote verbatim)
      | inr other ↦
          inr (
            contains_sound (normalize_whitespace source) (normalize_whitespace quote)
              (ground arith))
    ]

    complete :
        Within quote source ⊎ Within (normalize_whitespace quote) (normalize_whitespace source)
        → (contains source quote
            || contains (normalize_whitespace source) (normalize_whitespace quote))
          ≡ true
    complete (inl w) = let found = Within→contains quote source w in ground arith
    complete (inr w) =
        let found = Within→contains (normalize_whitespace quote) (normalize_whitespace source) w in
        ground arith

-- The tests that an accepted candidate has passed.
record PassesTests (source : SourceRecord) (c : ExtractedMemory) : Type 0 where
  supported : is_supported (trim c.memory_type) ≡ true
  stated : is_empty (trim c.statement) ≡ false
  concise : ltb 1000 (length (trim c.statement)) ≡ false
  confidence_finite : is_finite c.confidence ≡ true
  importance_finite : is_finite c.importance ≡ true
  confidence_in_unit : in_unit c.confidence ≡ true
  importance_in_unit : in_unit c.importance ≡ true
  quoted : ltb (length (trim c.evidence_quote)) 4 ≡ false
  grounded : evidence_is_grounded source.content (trim c.evidence_quote) ≡ true
  statement_safe : contains_sensitive_material (trim c.statement) ≡ false
  quote_safe : contains_sensitive_material (trim c.evidence_quote) ≡ false

validate_candidate-PassesTests :
    (source : SourceRecord) (c : ExtractedMemory)
    → (validate_candidate source c ≡ accepted) ↔ PassesTests source c
unfolding validate_candidate
validate_candidate-PassesTests source c = ((λ h. ground arith), (λ h. ground arith))

is_empty-ne : (s : Text) → is_empty s ≡ false → s ≢ []
is_empty-ne [] h = cc
is_empty-ne (c ∷ s) h = λ e. cc

ne-is_empty : (s : Text) → s ≢ [] → is_empty s ≡ false
ne-is_empty [] h = absurd (h refl)
ne-is_empty (c ∷ s) h = refl

-- A candidate is accepted exactly if it meets the policy: a supported type; a statement of 1 to 1000
-- characters; finite scores in the unit interval; a quote of at least 4 characters that stands in the
-- source, verbatim or up to whitespace; and no secret material in the statement or the quote.
pub validate_candidate_iff :
    (source : SourceRecord) (c : ExtractedMemory)
    → (validate_candidate source c ≡ accepted) ↔ IsAcceptable source c
validate_candidate_iff source c = (sound, complete)
  where
    sound : validate_candidate source c ≡ accepted → IsAcceptable source c
    sound h =
        let t = (validate_candidate-PassesTests source c).0 h in
        record {
          supported = (is_supported_iff (trim c.memory_type)).0 t.supported;
          stated = is_empty-ne (trim c.statement) t.stated;
          concise = let e = t.concise in ground arith;
          confidence_finite = t.confidence_finite;
          importance_finite = t.importance_finite;
          confidence_in_unit = t.confidence_in_unit;
          importance_in_unit = t.importance_in_unit;
          quoted = let e = t.quoted in ground arith;
          grounded = (grounded_iff source.content (trim c.evidence_quote)).0 t.grounded;
          statement_safe = (contains_sensitive_material_iff (trim c.statement)).0 t.statement_safe;
          quote_safe = (contains_sensitive_material_iff (trim c.evidence_quote)).0 t.quote_safe;
        }

    complete : IsAcceptable source c → validate_candidate source c ≡ accepted
    complete p = (validate_candidate-PassesTests source c).1 (record {
      supported = (is_supported_iff (trim c.memory_type)).1 p.supported;
      stated = ne-is_empty (trim c.statement) p.stated;
      concise = let e = p.concise in ground arith;
      confidence_finite = p.confidence_finite;
      importance_finite = p.importance_finite;
      confidence_in_unit = p.confidence_in_unit;
      importance_in_unit = p.importance_in_unit;
      quoted = let e = p.quoted in ground arith;
      grounded = (grounded_iff source.content (trim c.evidence_quote)).1 p.grounded;
      statement_safe = (contains_sensitive_material_iff (trim c.statement)).1 p.statement_safe;
      quote_safe = (contains_sensitive_material_iff (trim c.evidence_quote)).1 p.quote_safe;
    })
