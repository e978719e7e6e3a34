-- ===== src/Propagation/Safety.antt =====
-- Which baggage the functions of libs/playground-telemetry/src/propagation.rs let across.
use parallax_telemetry_playg.Prelude.{
  ◌⊎◌, ◌≡◌, ◌≤◌, sym, subst, inl, inr, true, false, Option, none, some, List, [], ◌∷◌, Text, length,
  any, keep-passes, All, All-imp, Bool-cases, text_eq, has_control, arith, codes,
}
use parallax_telemetry_playg.Propagation.Bytes.{max_business_baggage_value_length, tenant_id_key}
use parallax_telemetry_playg.Propagation.Business.{
  user_tier_key, safe_business_baggage_keys, is_safe_baggage_entry, Entry, ContextApi, Pair,
  is_safe, clone_baggage, with_safe_baggage, insert_safe, insert_parent, with_safe_parent_baggage,
  insert_pair, insert_entries, extend_baggage, if_none, default_entries,
  with_business_context_from_parent,
}

-- An allowed key with a bounded value without control characters.
pub record IsSafe (key value : Text) : Type 0 where
  pub allowed : any (text_eq key) safe_business_baggage_keys ≡ true
  pub bounded : length value ≤ max_business_baggage_value_length
  pub printable : has_control value ≡ false

is_safe_baggage_entry-IsSafe :
    (key value : Text) → is_safe_baggage_entry key value ≡ true → IsSafe key value
unfolding is_safe_baggage_entry
is_safe_baggage_entry-IsSafe key value h = record {
  allowed = ground arith;
  bounded = ground arith;
  printable = ground arith;
}

abbrev pub EntrySafe : {M : Type 0} → Entry M → Type 0
EntrySafe e = IsSafe e.key e.value

-- What opentelemetry documents: a context has the baggage that it is given; a baggage that is
-- collected, or into which an entry is inserted, has no other entries than these.
pub record ContextLaws {C B M : Type 0} (api : ContextApi C B M) : Type 1 where
  pub baggage_with : (c : C) (b : B) → api.baggage (api.with_baggage c b) ≡ b
  pub iter_collect :
      (P : Entry M → Type 0) (es : List (Entry M)) → All P es → All P (api.iter (api.collect es))
  pub iter_insert :
      (P : Text → Text → Type 0) (b : B) (key value : Text)
      → P key value
      → All (λ e. P e.key e.value) (api.iter b)
      → All (λ e. P e.key e.value) (api.iter (api.insert b key value))
  pub iter_insert_with :
      (P : Entry M → Type 0) (b : B) (e : Entry M)
      → P e
      → All P (api.iter b)
      → All P (api.iter (api.insert_with_metadata b e))

module _ {C B M : Type 0} (api : ContextApi C B M) (laws : ContextLaws api) where
  abbrev pub BaggageSafe : B → Type 0
  BaggageSafe b = All EntrySafe (api.iter b)

  abbrev pub ContextSafe : C → Type 0
  ContextSafe c = BaggageSafe (api.baggage c)

  with-Safe : (c : C) (b : B) → BaggageSafe b → ContextSafe (api.with_baggage c b)
  with-Safe c b h = subst BaggageSafe (sym (laws.baggage_with c b)) h

  clone-Safe : (c : C) → BaggageSafe (clone_baggage api c)
  unfolding clone_baggage
  clone-Safe c = laws.iter_collect EntrySafe _ (
      All-imp (λ e. is_safe api e ≡ true) EntrySafe
        (λ e. is_safe_baggage_entry-IsSafe e.key e.value) _
        (keep-passes (is_safe api) (api.iter (api.baggage c))))

  parent-Safe : (es : List (Entry M)) (b : B) → BaggageSafe b → BaggageSafe (insert_parent api b es)
  unfolding insert_parent
  parent-Safe [] b h = h
  parent-Safe (e ∷ es) b h = parent-Safe es (insert_safe api e b) (one (Bool-cases (is_safe api e)))
    where
      one : (is_safe api e ≡ true) ⊎ (is_safe api e ≡ false) → BaggageSafe (insert_safe api e b)
      one (inl good) =
          rw good (
            laws.iter_insert_with EntrySafe b e (is_safe_baggage_entry-IsSafe e.key e.value good) h)
      one (inr bad) = rw bad h

  entries-Safe : (ps : List Pair) (b : B) → BaggageSafe b → BaggageSafe (insert_entries api b ps)
  unfolding insert_entries
  entries-Safe [] b h = h
  entries-Safe ((key, value) ∷ ps) b h =
      entries-Safe ps (insert_pair api (key, value) b)
        (one (Bool-cases (is_safe_baggage_entry key value)))
    where
      one :
          (is_safe_baggage_entry key value ≡ true) ⊎ (is_safe_baggage_entry key value ≡ false)
          → BaggageSafe (insert_pair api (key, value) b)
      one (inl good) =
          rw good
            (laws.iter_insert IsSafe b key value (is_safe_baggage_entry-IsSafe key value good) h)
      one (inr bad) = rw bad h

  extend-Safe : (c : C) (ps : List Pair) → ContextSafe (extend_baggage api c ps)
  unfolding extend_baggage
  extend-Safe c ps = with-Safe c _ (entries-Safe ps (clone_baggage api c) (clone-Safe c))

  default-Safe : (ps : List Pair) (c : C) → ContextSafe c → ContextSafe (default_entries api c ps)
  unfolding default_entries
  default-Safe [] c h = h
  default-Safe ((key, value) ∷ ps) c h = default-Safe ps _ (one (api.get (api.baggage c) key))
    where
      one :
          (o : Option Text)
          → ContextSafe (if_none api o (extend_baggage api c ((key, value) ∷ [])) c)
      one none = extend-Safe c ((key, value) ∷ [])
      one (some v) = h

  -- The context that leaves a service carries only allowed keys, with values of at most 128 bytes
  -- without control characters, whatever baggage the context had.
  pub with_safe_baggage-IsSafe : (c : C) → ContextSafe (with_safe_baggage api c)
  unfolding with_safe_baggage
  with_safe_baggage-IsSafe c = with-Safe c (clone_baggage api c) (clone-Safe c)

  pub with_safe_parent_baggage-IsSafe :
      (c parent : C) → ContextSafe (with_safe_parent_baggage api c parent)
  unfolding with_safe_parent_baggage
  with_safe_parent_baggage-IsSafe c parent =
      with-Safe c _
        (parent-Safe (api.iter (api.baggage parent)) (clone_baggage api c) (clone-Safe c))

  -- Whatever baggage a context and its inbound parent carry, and whatever business values a
  -- service adds, the context that the service continues with carries only allowed keys, with
  -- values of at most 128 bytes without control characters.
  pub with_business_context_from_parent-IsSafe :
      (c parent : C) (tenant tier segment region priority : Text)
      → ContextSafe
          (with_business_context_from_parent api c parent tenant tier segment region priority)
  unfolding with_business_context_from_parent
  with_business_context_from_parent-IsSafe c parent tenant tier segment region priority =
      default-Safe
        ((user_tier_key, tier)
          ∷ (codes "customer.segment", segment)
          ∷ (codes "region", region)
          ∷ (codes "request.priority", priority)
          ∷ [])
        _ (extend-Safe (with_safe_parent_baggage api c parent) ((tenant_id_key, tenant) ∷ []))
