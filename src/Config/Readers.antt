-- ===== src/Config/Readers.antt =====
-- The helpers of `from_env`. The environment is a function; a variable that is not Unicode counts as
-- absent, as `env::var(…).ok()` has it.
use personal_knowledge_os.Prelude.{
  ◌≡◌, ◌≢◌, refl, ap, ◌∙◌, inl, inr, [], ◌∷◌, Bool-cases, Bool, true, false, ◌&&◌, ◌||◌, Option,
  none, some, is_empty, if◌then◌else◌,
}
use personal_knowledge_os.Text.{Text, codes, trim, text_eq, to_ascii_lowercase}
use personal_knowledge_os.Values.{Uuid, F32, is_finite, in_unit}
use personal_knowledge_os.Config.{ConfigError, missing, invalid}
use personal_knowledge_os.Config.Numbers.{Parsed, value, failed}

abbrev pub Variables : Type 0
Variables = Text → Option Text

-- `str::parse` for the other types: packages and the float parser of the standard library.
pub record Parsers : Type 0 where
  pub parse_addr : Text → Parsed Text
  pub parse_uuid : Text → Parsed Uuid
  pub parse_f32 : Text → Parsed F32

-- `Result<A, ConfigError>`
pub data Loaded (A : Type 0) : Type 0 where
  loaded : A → Loaded A
  refused : ConfigError → Loaded A

infixl 5 ◌>>=◌ ◌>>◌
abbrev pub ◌>>=◌ : {A B : Type 0} → Loaded A → (A → Loaded B) → Loaded B
loaded a >>= f = f a
refused e >>= f = refused e

abbrev pub ◌>>◌ : {A B : Type 0} → Loaded A → Loaded B → Loaded B
m >> k = m >>= λ _. k

-- `if !test { return Err(e) }`
abbrev pub ensure : Bool → ConfigError → Loaded (Unit {0})
ensure true e = loaded tt
ensure false e = refused e

-- `.filter(|v| !v.trim().is_empty())`
unfoldable pub not_blank : Option Text → Option Text
not_blank none = none
not_blank (some v) = if is_empty (trim v) then none else some v

-- `required`
unfoldable pub required : Variables → Text → Loaded Text
unfolding not_blank
required vars name = elim (not_blank (vars name)) [
  | none ↦ refused (missing name)
  | some v ↦ loaded v
]

-- `optional`
unfoldable pub optional : Variables → Text → Option Text
unfolding not_blank
optional vars name = not_blank (vars name)

-- `unwrap_or_else`
abbrev pub or_default : Option Text → Text → Text
or_default none default = default
or_default (some v) default = v

-- `parse`, for any type by its parser
unfoldable pub parse : {A : Type 0} → (Text → Parsed A) → Variables → Text → Text → Loaded A
parse parser vars name default = elim (parser (or_default (vars name) default)) [
  | value a ↦ loaded a
  | failed message ↦ refused (invalid name message)
]

unfoldable pub is_yes : Text → Bool
is_yes t =
    text_eq t (codes "1")
    || text_eq t (codes "true")
    || text_eq t (codes "yes")
    || text_eq t (codes "on")

unfoldable pub is_no : Text → Bool
is_no t =
    text_eq t (codes "0")
    || text_eq t (codes "false")
    || text_eq t (codes "no")
    || text_eq t (codes "off")

-- `parse_bool`
unfoldable pub parse_bool : Variables → Text → Bool → Loaded Bool
unfolding is_yes is_no
parse_bool vars name default = elim (vars name) [
  | none ↦ loaded default
  | some v ↦
      let lower = to_ascii_lowercase v in
      if is_yes lower
      then loaded true
      else if is_no lower
      then loaded false
      else refused (invalid name (codes "expected boolean"))
]

-- `validate_unit_interval`
unfoldable pub validate_unit_interval : Text → F32 → Loaded (Unit {0})
validate_unit_interval name v =
    ensure (is_finite v && in_unit v)
      (invalid name (codes "must be a finite number between 0 and 1"))

-- Inversion of a successful bind.
pub bind_loaded {ℓ} :
    {A B : Type 0} {G : Type ℓ} (m : Loaded A) (f : A → Loaded B) {b : B}
    → (m >>= f) ≡ loaded b
    → ((a : A) → m ≡ loaded a → f a ≡ loaded b → G)
    → G
bind_loaded (loaded a) f h use_step = use_step a refl h
bind_loaded (refused e) f h use_step = cc

pub ensure_lem : (test : Bool) (e : ConfigError) (u : Unit) → ensure test e ≡ loaded u → test ≡ true
ensure_lem true e u h = refl
ensure_lem false e u h = cc

pub not_blank_lem : (o : Option Text) (v : Text) → not_blank o ≡ some v → trim v ≢ []
unfolding not_blank
not_blank_lem none v h = cc
not_blank_lem (some t) v h = elim (Bool-cases (is_empty (trim t))) [
  | inl blank ↦ (let bad = rw blank at h in cc)
  | inr solid ↦
      (let same : t ≡ v = (let e = rw solid at h in cc) in
        λ e. solid_text (trim t) solid (ap trim same ∙ e))
]
  where
    solid_text : (s : Text) → is_empty s ≡ false → s ≢ []
    solid_text [] h e = cc
    solid_text (c ∷ s) h e = cc

-- A required variable is not blank.
pub required_lem : (vars : Variables) (name v : Text) → required vars name ≡ loaded v → trim v ≢ []
unfolding required
required_lem vars name v h = go (not_blank (vars name)) refl h
  where
    go :
        (o : Option Text)
        → not_blank (vars name) ≡ o
        → ◌≡◌ {A = Loaded Text}
            (elim o [ none ↦ refused (missing name) | some t ↦ loaded t ])
            (loaded v)
        → trim v ≢ []
    go none e k = cc
    go (some t) e k = not_blank_lem (vars name) v (e ∙ (let same : t ≡ v = cc in ap some same))

-- What `parse` returns is what the parser returned.
pub parse_lem :
    {A : Type 0} (parser : Text → Parsed A) (vars : Variables) (name default : Text) (a : A)
    → parse parser vars name default ≡ loaded a
    → parser (or_default (vars name) default) ≡ value a
unfolding parse
parse_lem {A} parser vars name default a h = go (parser (or_default (vars name) default)) refl h
  where
    go :
        (p : Parsed A)
        → parser (or_default (vars name) default) ≡ p
        → ◌≡◌ {A = Loaded A}
            (elim p [ value b ↦ loaded b | failed t ↦ refused (invalid name t) ])
            (loaded a)
        → parser (or_default (vars name) default) ≡ value a
    go (value b) e k = e ∙ (let same : b ≡ a = cc in ap value same)
    go (failed t) e k = cc
