-- ===== src/Propagation/Business.antt =====
-- The business baggage that crosses a process boundary: `clone_baggage`, `extend_baggage` and the
-- functions over them of libs/playground-telemetry/src/propagation.rs. Contexts and their baggage
-- are of opentelemetry.
use parallax_telemetry_playg.Prelude.{
  Bool, not, ◌&&◌, Option, none, some, List, [], ◌∷◌, Text, codes, if◌then◌else◌, leb, length, any,
  keep, text_eq, has_control,
}
use parallax_telemetry_playg.Propagation.Bytes.{max_business_baggage_value_length, tenant_id_key}

abbrev pub user_tier_key : Text
user_tier_key = codes "user.tier"

abbrev pub safe_business_baggage_keys : List Text
safe_business_baggage_keys =
    tenant_id_key
    ∷ user_tier_key
    ∷ codes "customer.segment"
    ∷ codes "region"
    ∷ codes "request.priority"
    ∷ codes "feature.variant"
    ∷ codes "session.id"
    ∷ codes "cli.invocation.id"
    ∷ []

unfoldable pub is_safe_baggage_entry : Text → Text → Bool
is_safe_baggage_entry key value =
    any (text_eq key) safe_business_baggage_keys
    && leb (length value) max_business_baggage_value_length
    && not (has_control value)

-- An entry of baggage, with metadata of another library's type.
pub record Entry (M : Type 0) : Type 0 where
  pub key : Text
  pub value : Text
  pub metadata : M

-- What the code uses of `Context` and `Baggage`.
pub record ContextApi (C B M : Type 0) : Type 0 where
  pub baggage : C → B
  pub with_baggage : C → B → C
  pub iter : B → List (Entry M)
  pub collect : List (Entry M) → B
  pub get : B → Text → Option Text
  pub insert : B → Text → Text → B
  pub insert_with_metadata : B → Entry M → B

-- A pair for `KeyValue::new`.
abbrev pub Pair : Type 0
Pair = Text × Text

module _ {C B M : Type 0} (api : ContextApi C B M) where
  abbrev pub is_safe : Entry M → Bool
  is_safe e = is_safe_baggage_entry e.key e.value

  unfoldable pub clone_baggage : C → B
  clone_baggage context = api.collect (keep is_safe (api.iter (api.baggage context)))

  unfoldable pub with_safe_baggage : C → C
  unfolding clone_baggage
  with_safe_baggage context = api.with_baggage context (clone_baggage context)

  abbrev pub insert_safe : Entry M → B → B
  insert_safe e baggage = if is_safe e then api.insert_with_metadata baggage e else baggage

  -- The loop over the entries of the parent.
  unfoldable pub insert_parent : B → List (Entry M) → B
  insert_parent baggage [] = baggage
  insert_parent baggage (e ∷ es) = insert_parent (insert_safe e baggage) es

  unfoldable pub with_safe_parent_baggage : C → C → C
  unfolding clone_baggage insert_parent
  with_safe_parent_baggage context parent =
      api.with_baggage context
        (insert_parent (clone_baggage context) (api.iter (api.baggage parent)))

  abbrev pub insert_pair : Pair → B → B
  insert_pair (key, value) baggage =
      if is_safe_baggage_entry key value then api.insert baggage key value else baggage

  -- The loop over the new entries.
  unfoldable pub insert_entries : B → List Pair → B
  insert_entries baggage [] = baggage
  insert_entries baggage (p ∷ ps) = insert_entries (insert_pair p baggage) ps

  unfoldable pub extend_baggage : C → List Pair → C
  unfolding clone_baggage insert_entries
  extend_baggage context entries =
      api.with_baggage context (insert_entries (clone_baggage context) entries)

  unfoldable pub with_business_context : C → Text → Text → Text → Text → Text → C
  unfolding extend_baggage
  with_business_context context tenant tier segment region priority = extend_baggage context (
      (tenant_id_key, tenant)
      ∷ (user_tier_key, tier)
      ∷ (codes "customer.segment", segment)
      ∷ (codes "region", region)
      ∷ (codes "request.priority", priority)
      ∷ [])

  abbrev pub if_none : Option Text → C → C → C
  if_none none extended context = extended
  if_none (some value) extended context = context

  -- The loop over the defaults.
  unfoldable pub default_entries : C → List Pair → C
  unfolding extend_baggage
  default_entries context [] = context
  default_entries context ((key, value) ∷ ps) =
      default_entries
        (if_none (api.get (api.baggage context) key) (extend_baggage context ((key, value) ∷ []))
          context)
        ps

  unfoldable pub with_business_context_from_parent : C → C → Text → Text → Text → Text → Text → C
  unfolding with_safe_parent_baggage extend_baggage default_entries
  with_business_context_from_parent context parent tenant tier segment region priority =
      default_entries
        (extend_baggage (with_safe_parent_baggage context parent) ((tenant_id_key, tenant) ∷ []))
        ((user_tier_key, tier)
          ∷ (codes "customer.segment", segment)
          ∷ (codes "region", region)
          ∷ (codes "request.priority", priority)
          ∷ [])
