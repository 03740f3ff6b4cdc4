-- ===== src/Config/Platform/Distinct.antt =====
-- robot_controller/core/platform_config.py: `parse_actuators` on the documents of actuators and on any
-- document.
use Prim.Native.String.{String}
use text.Mathlib.Text.{◌==◌ as str_eq}
use text.Mathlib.TextEquality.{eq_iff}
use sparq_control.Common.{
  Bool, true, false, not, ◌&&◌, List, [], ◌∷◌, ℤ, if◌then◌else◌, any, eq_ℤ, ◌≡◌, refl, is_distinct,
  map, arith, ◌∙◌, sym, ap, Bool-cases, inl, inr,
}
use mathlib.Core.Path.{ap₂}
use sparq_control.Common.Floats.{Floats}
use sparq_control.Common.Result.{
  Result, ok, err, ◌>>=◌, ◌>>◌, raise_if, platform_config_error, Exn, Ensures, Ensures-bind,
  Ensures-any, Ensures-raise_if,
}
use sparq_control.Config.Yaml.{
  Yaml, mapping_value, text_value, int_value, bool_value, float_value, Entries, no_entries, entry,
  Builtins, to_str, to_int, parse_int, to_float, to_bool, lookup, find_key, as_mapping,
}
use sparq_control.Config.Platform.{PlatformActuatorConfig, require_key}
use sparq_control.Config.Platform.Load.{
  is_empty, require_str, require_parsed_int, require_bool, require_float, parse_actuator,
  parse_each, parse_actuators,
}

module _ {ℓ} {A : Type ℓ} (same : A → A → Bool) where
  -- No element is among those seen before it.
  abbrev pub fresh_from : List A → List A → Bool
  fresh_from seen [] = true
  fresh_from seen (x ∷ xs) = not (any (same x) seen) && fresh_from (x ∷ seen) xs

  -- No element of a list is in another one.
  abbrev pub apart : List A → List A → Bool
  apart seen [] = true
  apart seen (x ∷ xs) = not (any (same x) seen) && apart seen xs

  module _ (symmetric : (x y : A) → same x y ≡ same y x) where
    apart-cons :
        (y : A) (seen xs : List A) → apart (y ∷ seen) xs ≡ (not (any (same y) xs) && apart seen xs)
    apart-cons y seen [] = refl
    apart-cons y seen (x ∷ xs) = ground (arith, apart-cons y seen xs, symmetric x y)

    fresh_from-is_distinct :
        (seen xs : List A) → fresh_from seen xs ≡ (is_distinct same xs && apart seen xs)
    fresh_from-is_distinct seen [] = refl
    fresh_from-is_distinct seen (x ∷ xs) =
        ground (arith, fresh_from-is_distinct (x ∷ seen) xs, apart-cons x seen xs)

    apart-nil : (xs : List A) → apart [] xs ≡ true
    apart-nil [] = refl
    apart-nil (x ∷ xs) = ground (arith, apart-nil xs)

    fresh_from-nil : (xs : List A) → fresh_from [] xs ≡ is_distinct same xs
    fresh_from-nil xs = ground (arith, fresh_from-is_distinct [] xs, apart-nil xs)

str_eq_symmetric : (s t : String) → str_eq s t ≡ str_eq t s
str_eq_symmetric s t = elim (Bool-cases (str_eq s t)) [
  | inl p ↦ p ∙ sym ((eq_iff t s).1 (sym ((eq_iff s t).0 p)))
  | inr p ↦ elim (Bool-cases (str_eq t s)) [
    | inl q ↦ (eq_iff s t).1 (sym ((eq_iff t s).0 q)) ∙ sym q
    | inr q ↦ p ∙ sym q
  ]
]

eq_ℤ_symmetric : (a b : ℤ) → eq_ℤ a b ≡ eq_ℤ b a
eq_ℤ_symmetric a b = ground arith

module _ (fl : Floats) (b : Builtins fl) where
  -- The entry of the platform file that says this actuator.
  abbrev pub actuator_value : PlatformActuatorConfig fl.F → Yaml fl.F
  actuator_value a = mapping_value (
      entry (text_value "name") (text_value a.name) (
        entry (text_value "enabled") (bool_value a.enabled) (
          entry (text_value "can_id") (int_value a.can_id) (
            entry (text_value "mujoco_joint") (text_value a.mujoco_joint) (
              entry (text_value "mujoco_actuator") (text_value a.mujoco_actuator) (
                entry (text_value "sign") (float_value a.sign)
                  (entry (text_value "offset_rad") (float_value a.offset_rad) no_entries)))))))

  abbrev pub names : List (PlatformActuatorConfig fl.F) → List String
  names = map (λ (a : PlatformActuatorConfig fl.F). a.name)

  abbrev pub can_ids : List (PlatformActuatorConfig fl.F) → List ℤ
  can_ids = map (λ (a : PlatformActuatorConfig fl.F). a.can_id)

  parse_each-first :
      (a : PlatformActuatorConfig fl.F) (rest : List (Yaml fl.F)) (ns : List String) (ids : List ℤ)
      → parse_each fl b (actuator_value a ∷ rest) ns ids ≡ (
          raise_if (any (str_eq a.name) ns) platform_config_error
          >> (raise_if (any (eq_ℤ a.can_id) ids) platform_config_error
              >> (parse_each fl b rest (a.name ∷ ns) (a.can_id ∷ ids) >>= λ as'. ok (a ∷ as'))))
  unfolding parse_each parse_actuator require_str require_parsed_int require_bool require_float
      require_key find_key lookup to_str parse_int to_int to_bool to_float
  parse_each-first a rest ns ids = refl

  chain :
      (p q s : Bool) (r : Result (List (PlatformActuatorConfig fl.F)))
      (a : PlatformActuatorConfig fl.F) (as' : List (PlatformActuatorConfig fl.F)) (e : Exn)
      → r ≡ (if s then ok as' else err e)
      → (raise_if p e >> (raise_if q e >> (r >>= λ xs. ok (a ∷ xs))))
        ≡ (if not p && (not q && s) then ok (a ∷ as') else err e)
  chain p q s r a as' e h = ground (arith, h)

  parse_each-documents :
      (as' : List (PlatformActuatorConfig fl.F)) (ns : List String) (ids : List ℤ)
      → parse_each fl b (map actuator_value as') ns ids ≡ (
          if fresh_from str_eq ns (names as') && fresh_from eq_ℤ ids (can_ids as')
          then ok as'
          else err platform_config_error)
  unfolding parse_each
  parse_each-documents [] ns ids = refl
  parse_each-documents (a ∷ as') ns ids =
      parse_each-first a (map actuator_value as') ns ids
      ∙ chain (any (str_eq a.name) ns) (any (eq_ℤ a.can_id) ids) _ _ a as' platform_config_error
          (parse_each-documents as' (a.name ∷ ns) (a.can_id ∷ ids))
      ∙ ap (λ t. if t then ok (a ∷ as') else err platform_config_error)
          (regroup (any (str_eq a.name) ns) (any (eq_ℤ a.can_id) ids)
            (fresh_from str_eq (a.name ∷ ns) (names as'))
            (fresh_from eq_ℤ (a.can_id ∷ ids) (can_ids as')))
    where
      regroup : (p q s t : Bool) → (not p && (not q && (s && t))) ≡ ((not p && s) && (not q && t))
      regroup p q s t = ground arith

  start :
      (as' : List (PlatformActuatorConfig fl.F))
      → parse_each fl b (map actuator_value as') [] [] ≡ (
          if is_distinct str_eq (names as') && is_distinct eq_ℤ (can_ids as')
          then ok as'
          else err platform_config_error)
  start as' =
      parse_each-documents as' [] []
      ∙ ap (λ t. if t then ok as' else err platform_config_error)
          (ap₂ ◌&&◌ (fresh_from-nil str_eq str_eq_symmetric (names as'))
            (fresh_from-nil eq_ℤ eq_ℤ_symmetric (can_ids as')))

  checks :
      (as' : List (PlatformActuatorConfig fl.F)) (s : Bool) (e : Exn)
      → ((if s then ok as' else err e) >>= λ xs.
          raise_if (is_empty xs) e >> (raise_if (not (any (λ a. a.enabled) xs)) e >> ok xs))
        ≡ (if s && any (λ a. a.enabled) as' then ok as' else err e)
  checks [] s e = ground arith
  checks (a ∷ as') s e = ground arith

  -- A list of actuators is read back from its document if no name and no id stands twice and an
  -- actuator is enabled. Any other list is refused.
  pub parse_actuators-documents :
      (as' : List (PlatformActuatorConfig fl.F))
      → parse_actuators fl b (map actuator_value as') ≡ (
          if is_distinct str_eq (names as')
            && is_distinct eq_ℤ (can_ids as')
            && any (λ a. a.enabled) as'
          then ok as'
          else err platform_config_error)
  unfolding parse_actuators
  parse_actuators-documents as' =
      ap
        (λ r. r >>= λ xs.
          raise_if (is_empty xs) platform_config_error
          >> (raise_if (not (any (λ a. a.enabled) xs)) platform_config_error >> ok xs))
        (start as')
      ∙ checks as' _ platform_config_error

  parse_actuator-Ensures :
      (name : String) (can_id : ℤ) (fields : Entries fl.F)
      → Ensures
          (λ a. (a.name ≡ name) × (a.can_id ≡ can_id))
          (parse_actuator fl b name can_id fields)
  unfolding parse_actuator
  parse_actuator-Ensures name can_id fields =
      Ensures-any _ (require_bool fl b fields "enabled") _ λ e.
        Ensures-any _ (require_str fl b fields "mujoco_joint") _ λ j.
          Ensures-any _ (require_str fl b fields "mujoco_actuator") _ λ m.
            Ensures-any _ (require_float fl b fields "sign") _
              λ s. Ensures-any _ (require_float fl b fields "offset_rad") _ λ o. (refl, refl)

  -- What holds of the actuators that are read after these names and ids.
  abbrev pub Fresh : List String → List ℤ → List (PlatformActuatorConfig fl.F) → Type 0
  Fresh ns ids as' =
      (fresh_from str_eq ns (names as') ≡ true) × (fresh_from eq_ℤ ids (can_ids as') ≡ true)

  parse_each-Fresh :
      (values : List (Yaml fl.F)) (ns : List String) (ids : List ℤ)
      → Ensures (Fresh ns ids) (parse_each fl b values ns ids)
  unfolding parse_each
  parse_each-Fresh [] ns ids = (refl, refl)
  parse_each-Fresh (value ∷ rest) ns ids =
      Ensures-any _ (as_mapping platform_config_error value) _ λ fields.
        Ensures-any _ (require_str fl b fields "name") _ λ name.
          Ensures-any _ (require_parsed_int fl b fields "can_id") _ λ can_id.
            Ensures-raise_if _ (any (str_eq name) ns) _ _ λ new_name.
              Ensures-raise_if _ (any (eq_ℤ can_id) ids) _ _ λ new_id.
                Ensures-bind _ (λ a. (a.name ≡ name) × (a.can_id ≡ can_id))
                  (parse_actuator fl b name can_id fields) _
                  (parse_actuator-Ensures name can_id fields)
                  λ a same.
                    Ensures-bind _ (Fresh (name ∷ ns) (can_id ∷ ids))
                      (parse_each fl b rest (name ∷ ns) (can_id ∷ ids)) _
                      (parse_each-Fresh rest (name ∷ ns) (can_id ∷ ids))
                      λ as' fresh. cons a as' name can_id ns ids same new_name new_id fresh
    where
      cons :
          (a : PlatformActuatorConfig fl.F) (as' : List (PlatformActuatorConfig fl.F))
          (name : String) (can_id : ℤ) (ns : List String) (ids : List ℤ)
          → (a.name ≡ name) × (a.can_id ≡ can_id)
          → any (str_eq name) ns ≡ false
          → any (eq_ℤ can_id) ids ≡ false
          → Fresh (name ∷ ns) (can_id ∷ ids) as'
          → Fresh ns ids (a ∷ as')
      cons a as' name can_id ns ids same p q fresh =
          (rw (same.0, p, fresh.0) refl, rw (same.1, q, fresh.1) refl)

  -- What a parsed list of actuators has.
  pub record AreActuators (as' : List (PlatformActuatorConfig fl.F)) : Type 0 where
    pub names_differ : is_distinct str_eq (names as') ≡ true
    pub ids_differ : is_distinct eq_ℤ (can_ids as') ≡ true
    pub one_enabled : any (λ a. a.enabled) as' ≡ true

  -- Whatever the document, the actuators that are read have distinct names and ids, and one of them
  -- is enabled.
  pub parse_actuators-AreActuators :
      (values : List (Yaml fl.F)) → Ensures AreActuators (parse_actuators fl b values)
  unfolding parse_actuators
  parse_actuators-AreActuators values =
      Ensures-bind _ (Fresh [] []) (parse_each fl b values [] []) _ (parse_each-Fresh values [] [])
        λ as' fresh. Ensures-any _ (raise_if (is_empty as') platform_config_error) _ λ nonempty.
          Ensures-raise_if _ (not (any (λ a. a.enabled) as')) _ _ λ e. record {
            names_differ = sym (fresh_from-nil str_eq str_eq_symmetric (names as')) ∙ fresh.0;
            ids_differ = sym (fresh_from-nil eq_ℤ eq_ℤ_symmetric (can_ids as')) ∙ fresh.1;
            one_enabled = ground (arith, e);
          }
