-- ===== src/Config/Sound.antt =====
-- What a configuration that `from_env` accepts satisfies.
use personal_knowledge_os.Prelude.{
  ◌≤◌, ◌≡◌, ◌≢◌, refl, ◌⊎◌, inl, inr, Bool, true, false, Option, is_some, arith, leb, ◌&&◌, ◌==◌,
  [], subst, leb→le, ==_iff, &&_iff,
}
use personal_knowledge_os.Text.{Text, codes, trim, byte_len}
use personal_knowledge_os.Values.{pos, leb_ℤ, ◌≤ℤ◌, is_finite, in_unit}
use personal_knowledge_os.Config.{Config}
use personal_knowledge_os.Config.Numbers.{
  parse_unsigned, parse_unsigned-le, parse_i64, u32_max, u64_max,
}
use personal_knowledge_os.Config.Readers.{
  Variables, Parsers, loaded, ensure, required, parse, parse_bool, validate_unit_interval, optional,
  bind_loaded, ensure_lem, required_lem, parse_lem,
}
use personal_knowledge_os.Config.Load.{from_env, or_else, provider_given}

-- Extraction is off, or its provider is known.
abbrev pub HasProvider : Config → Type 0
HasProvider c =
    (c.memory_extraction_enabled ≡ false)
    ⊎ ((is_some c.memory_base_url ≡ true) × (is_some c.memory_api_key ≡ true))

pub record IsSound (c : Config) : Type 0 where
  pub database_given : trim c.database_url ≢ []
  pub key_solid : trim c.api_key ≢ []
  pub key_long : 32 ≤ byte_len c.api_key
  pub dimensions_fixed : c.embedding_dimensions ≡ 1536
  pub provider : HasProvider c
  pub confidence_in_unit : in_unit c.memory_auto_promote_min_confidence ≡ true
  pub importance_in_unit : in_unit c.memory_auto_promote_min_importance ≡ true
  pub candidates_bounds :
      (1 ≤ c.memory_max_candidates_per_source) × (c.memory_max_candidates_per_source ≤ 32)
  pub context_bounds : (pos 1 ≤ℤ c.memory_context_limit) × (c.memory_context_limit ≤ℤ pos 200)
  pub connections_fit : c.database_max_connections ≤ u32_max
  pub limits_fit : (c.search_candidate_limit ≤ u64_max) × (c.search_result_limit ≤ u64_max)

loaded_inj : {A : Type 0} {a b : A} → loaded a ≡ loaded b → a ≡ b
loaded_inj e = cc

provider_lem :
    (enabled : Bool) (base_url api_key : Option Text)
    → provider_given enabled base_url api_key ≡ true
    → (enabled ≡ false) ⊎ ((is_some base_url ≡ true) × (is_some api_key ≡ true))
provider_lem false base_url api_key h = inl refl
provider_lem true base_url api_key h = inr ((&&_iff (is_some base_url) (is_some api_key)).0 h)

-- A configuration that is accepted has a database, a key of at least 32 bytes, the dimensions of the
-- schema, a provider if extraction is on, thresholds in the unit interval, and limits in their ranges.
pub from_env-IsSound :
    (parsers : Parsers) (vars : Variables) (c : Config)
    → from_env parsers vars ≡ loaded c
    → IsSound c
unfolding from_env validate_unit_interval
from_env-IsSound parsers vars c h = bind_loaded (parse parsers.parse_addr vars _ _) _ h λ addr e1 h.
    bind_loaded (required vars (codes "DATABASE_URL")) _ h λ url e2 h.
      bind_loaded (parse parsers.parse_uuid vars _ _) _ h λ owner e3 h.
        bind_loaded (required vars (codes "PKOS_API_KEY")) _ h λ key e4 h.
          bind_loaded (ensure (leb 32 (byte_len key)) _) _ h λ u5 e5 h.
            bind_loaded (parse (parse_unsigned u64_max) vars _ _) _ h λ dims e6 h.
              bind_loaded (ensure (dims == 1536) _) _ h λ u7 e7 h.
                bind_loaded (parse_bool vars (codes "PKOS_MEMORY_EXTRACTION_ENABLED") false) _ h
                  λ enabled e8 h.
                    bind_loaded (ensure (provider_given enabled base_url memory_key) _) _ h
                      λ u9 e9 h.
                        bind_loaded (parse parsers.parse_f32 vars _ _) _ h λ confidence e10 h.
                          bind_loaded (ensure (is_finite confidence && in_unit confidence) _) _ h
                            λ u11 e11 h.
                              bind_loaded (parse parsers.parse_f32 vars _ _) _ h λ importance e12 h.
                                bind_loaded (ensure (is_finite importance && in_unit importance) _)
                                  _ h
                                  λ u13 e13 h.
                                    bind_loaded (parse (parse_unsigned u64_max) vars _ _) _ h
                                      λ most e14 h.
                                        bind_loaded (ensure (leb 1 most && leb most 32) _) _ h
                                          λ u15 e15 h.
                                            bind_loaded (parse parse_i64 vars _ _) _ h
                                              λ context e16 h.
                                                bind_loaded
                                                  (ensure
                                                    (leb_ℤ (pos 1) context
                                                      && leb_ℤ context (pos 200))
                                                    _)
                                                  _ h
                                                  λ u17 e17 h.
                                                    bind_loaded
                                                      (parse (parse_unsigned u32_max) vars _ _) _ h
                                                      λ connections e18 h.
                                                        bind_loaded
                                                          (parse (parse_unsigned u64_max) vars _ _)
                                                          _ h
                                                          λ candidates e19 h.
                                                            bind_loaded
                                                            (parse (parse_unsigned u64_max) vars _
                                                            _)
                                                            _ h
                                                            λ results e20 h.
                                                            bind_loaded
                                                            (parse (parse_unsigned u64_max) vars _
                                                            _)
                                                            _ h
                                                            λ poll e21 h.
                                                            bind_loaded (parse parse_i64 vars _ _) _
                                                            h
                                                            λ batch e22 h.
                                                            bind_loaded (parse_bool vars _ true) _ h
                                                            λ worker e23 h.
                                                            bind_loaded (parse_bool vars _ true) _ h
                                                            λ promote e24 h.
                                                            bind_loaded (parse_bool vars _ false) _
                                                            h
                                                            λ keep e25 h.
                                                            subst IsSound (loaded_inj h) (record {
                                                            database_given =
                                                            required_lem vars _ url e2;
                                                            key_solid = required_lem vars _ key e4;
                                                            key_long = leb→le 32 (byte_len key) (
                                                            ensure_lem (leb 32 (byte_len key)) _ u5
                                                            e5);
                                                            dimensions_fixed =
                                                            (==_iff dims 1536).0
                                                            (ensure_lem (dims == 1536) _ u7 e7);
                                                            provider =
                                                            provider_lem enabled base_url memory_key
                                                            (ensure_lem _ _ u9 e9);
                                                            confidence_in_unit =
                                                            ((&&_iff _ _).0
                                                            (ensure_lem _ _ u11 e11)).1;
                                                            importance_in_unit =
                                                            ((&&_iff _ _).0
                                                            (ensure_lem _ _ u13 e13)).1;
                                                            candidates_bounds =
                                                            let b =
                                                            ensure_lem (leb 1 most && leb most 32) _
                                                            u15 e15 in
                                                            ground arith;
                                                            context_bounds =
                                                            let b =
                                                            ensure_lem
                                                            (leb_ℤ (pos 1) context
                                                            && leb_ℤ context (pos 200))
                                                            _ u17 e17 in
                                                            ground arith;
                                                            connections_fit =
                                                            parse_unsigned-le u32_max _ connections
                                                            (parse_lem _ vars _ _ connections e18);
                                                            limits_fit = (
                                                            parse_unsigned-le u64_max _ candidates
                                                            (parse_lem _ vars _ _ candidates e19),
                                                            parse_unsigned-le u64_max _ results
                                                            (parse_lem _ vars _ _ results e20),
                                                            );
                                                            })
  where
    base_url : Option Text
    base_url =
        or_else (optional vars (codes "PKOS_MEMORY_BASE_URL"))
          (optional vars (codes "PKOS_OPENAI_BASE_URL"))

    memory_key : Option Text
    memory_key =
        or_else (optional vars (codes "PKOS_MEMORY_API_KEY"))
          (optional vars (codes "PKOS_OPENAI_API_KEY"))
