-- ===== src/Notifications/Stored.antt =====
-- The carrier that `record_delivery` of services/notifications/src/store.rs stores, under
-- `job_context_headers`.
use parallax_telemetry_playg.Prelude.{
  ◌<◌, ◌≡◌, refl, sym, ap, ◌∙◌, subst, false, some, List, [], ◌∷◌, Text, codes, Result, ok,
  >>-eq-ok, All, length, length-++, ++-nil, join, tails, text_eq, arith,
}
use parallax_telemetry_playg.Propagation.Headers.{HeaderBuild, HeaderApi}
use parallax_telemetry_playg.Propagation.Baggage.{validate_baggage_header}
use parallax_telemetry_playg.Propagation.Durable.{validate_durable_context}
use parallax_telemetry_playg.Propagation.Complete.{AreTexts, Durable, validate_durable_context_iff}
use parallax_telemetry_playg.Notifications.Schema.{Carrier}
use parallax_telemetry_playg.Notifications.Carriers.{
  first_text, header_value, readable, readable_values, joined, header_values, carrier_of,
  insert_header, job_context_headers, verdict,
}

module _ {H V : Type 0} (api : HeaderApi H V) (build : HeaderBuild H V) where
  -- A text that a header value can be made of, and read back from.
  pub record IsHeaderText (t : Text) : Type 0 where
    pub value : V
    pub made : build.try_from t ≡ some value
    pub read : api.to_str value ≡ some t

  -- What http documents: a map has the values that are inserted, one for each name; the text of a
  -- value makes a value again, and so do such texts joined by commas.
  pub record BuildLaws : Type 0 where
    pub get_insert :
        (h : H) (name : Text) (v : V) → api.get_all (build.insert h name v) name ≡ v ∷ []
    pub get_other :
        (h : H) (name other : Text) (v : V)
        → text_eq name other ≡ false
        → api.get_all (build.insert h name v) other ≡ api.get_all h other
    pub text_IsHeaderText : (v : V) (t : Text) → api.to_str v ≡ some t → IsHeaderText t
    pub join_IsHeaderText :
        (t : Text) (ts : List Text) → All IsHeaderText (t ∷ ts) → IsHeaderText (join b',' (t ∷ ts))

module _ {H V : Type 0} (api : HeaderApi H V) where
  first-AreTexts : (vs : List V) (t : Text) → AreTexts api vs (t ∷ []) → first_text api vs ≡ some t
  first-AreTexts [] t h = absurd h
  first-AreTexts (v ∷ vs) t h = h.0

  readable-AreTexts :
      (vs : List V) (ts : List Text) → AreTexts api vs ts → readable_values api vs ≡ ts
  readable-AreTexts [] [] h = refl
  readable-AreTexts [] (t ∷ ts) h = absurd h
  readable-AreTexts (v ∷ vs) [] h = absurd h
  readable-AreTexts (v ∷ vs) (t ∷ ts) h =
      ap (λ o. readable api o (readable_values api vs)) h.0
      ∙ ap (λ x. t ∷ x) (readable-AreTexts vs ts h.1)

  joined-some : (ts : List Text) → 0 < length ts → joined api ts ≡ some (join b',' ts)
  joined-some [] h = absurd (omega (arith, h))
  joined-some (t ∷ ts) h = refl

  -- A valid carrier is stored whole.
  carrier_of-Durable :
      (headers : H) (d : Durable api headers)
      → carrier_of api headers
        ≡ ok (record {
          traceparent = some d.traceparent;
          tracestate = some d.tracestate;
          baggage = some (join b',' d.baggage);
        })
  unfolding carrier_of header_value header_values
  carrier_of-Durable headers d = rw ((validate_durable_context_iff api headers).1 d) (
      rw
        (first-AreTexts (api.get_all headers (codes "traceparent")) d.traceparent d.one_traceparent)
        (rw
          (first-AreTexts (api.get_all headers (codes "tracestate")) d.tracestate d.one_tracestate)
          (rw (readable-AreTexts (api.get_all headers (codes "baggage")) d.baggage d.all_baggage)
            (rw (joined-some d.baggage d.some_baggage) refl))))

join-nonempty :
    (ts : List Text) → 0 < length ts → All (λ t. 0 < length t) ts → 0 < length (join b',' ts)
unfolding join
join-nonempty [] h full = absurd (omega (arith, h))
join-nonempty (t ∷ ts) h full = omega (arith, length-++ t (tails b',' ts), full.0)

module _ {H V : Type 0} (api : HeaderApi H V) (build : HeaderBuild H V)
    (laws : BuildLaws api build) where
  texts-AreTexts :
      (vs : List V) (ts : List Text) → AreTexts api vs ts → All (IsHeaderText api build) ts
  texts-AreTexts [] [] h = tt
  texts-AreTexts [] (t ∷ ts) h = absurd h
  texts-AreTexts (v ∷ vs) [] h = absurd h
  texts-AreTexts (v ∷ vs) (t ∷ ts) h = (laws.text_IsHeaderText v t h.0, texts-AreTexts vs ts h.1)

  join-texts :
      (ts : List Text)
      → 0 < length ts
      → All (IsHeaderText api build) ts
      → IsHeaderText api build (join b',' ts)
  join-texts [] h texts = absurd (omega (arith, h))
  join-texts (t ∷ ts) h texts = laws.join_IsHeaderText t ts texts

  insert-text :
      (h : H) (name t : Text) (x : IsHeaderText api build t)
      → insert_header api build h name (some t) ≡ ok (build.insert h name x.value)
  unfolding insert_header
  insert-text h name t x = rw x.made refl

  module _ (headers : H) (d : Durable api headers) where
    tp : IsHeaderText api build d.traceparent
    tp =
        (texts-AreTexts (api.get_all headers (codes "traceparent")) (d.traceparent ∷ [])
          d.one_traceparent).0

    ts : IsHeaderText api build d.tracestate
    ts =
        (texts-AreTexts (api.get_all headers (codes "tracestate")) (d.tracestate ∷ [])
          d.one_tracestate).0

    bg : IsHeaderText api build (join b',' d.baggage)
    bg =
        join-texts d.baggage d.some_baggage
          (texts-AreTexts (api.get_all headers (codes "baggage")) d.baggage d.all_baggage)

    h1 : H
    h1 = build.insert build.new (codes "traceparent") tp.value

    h2 : H
    h2 = build.insert h1 (codes "tracestate") ts.value

    h3 : H
    h3 = build.insert h2 (codes "baggage") bg.value

    joined-one : join b',' (join b',' d.baggage ∷ []) ≡ join b',' d.baggage
    unfolding join tails
    joined-one = ++-nil _

    -- The map that the worker builds is complete again.
    h3-Durable : Durable api h3
    unfolding h3 h2 h1 text_eq
    h3-Durable = record {
      traceparent = d.traceparent;
      tracestate = d.tracestate;
      baggage = join b',' d.baggage ∷ [];
      one_traceparent =
          subst (λ vs. AreTexts api vs (d.traceparent ∷ []))
            (sym (
              laws.get_other h2 (codes "baggage") (codes "traceparent") bg.value refl
              ∙ laws.get_other h1 (codes "tracestate") (codes "traceparent") ts.value refl
              ∙ laws.get_insert build.new (codes "traceparent") tp.value))
            (tp.read, tt);
      one_tracestate =
          subst (λ vs. AreTexts api vs (d.tracestate ∷ []))
            (sym (
              laws.get_other h2 (codes "baggage") (codes "tracestate") bg.value refl
              ∙ laws.get_insert h1 (codes "tracestate") ts.value))
            (ts.read, tt);
      all_baggage =
          subst (λ vs. AreTexts api vs (join b',' d.baggage ∷ []))
            (sym (laws.get_insert h2 (codes "baggage") bg.value)) (bg.read, tt);
      tracestate_nonempty = d.tracestate_nonempty;
      some_baggage = omega arith;
      baggage_nonempty = (join-nonempty d.baggage d.some_baggage d.baggage_nonempty, tt);
      traceparent_valid = d.traceparent_valid;
      tracestate_valid = d.tracestate_valid;
      baggage_valid =
          subst (λ b. validate_baggage_header b ≡ ok tt) (sym joined-one) d.baggage_valid;
    }

    verdict-Durable :
        verdict api build (record {
          traceparent = some d.traceparent;
          tracestate = some d.tracestate;
          baggage = some (join b',' d.baggage);
        })
        ≡ ok tt
    unfolding verdict job_context_headers h3 h2 h1
    verdict-Durable = rw (insert-text build.new (codes "traceparent") d.traceparent tp) (
        rw (insert-text h1 (codes "tracestate") d.tracestate ts) (
          rw (insert-text h2 (codes "baggage") (join b',' d.baggage) bg)
            (rw ((validate_durable_context_iff api h3).1 h3-Durable) refl)))

  -- The carrier with which a notification is stored passes the check that the worker makes before
  -- it delivers: no accepted notification is quarantined for its headers.
  pub carrier_of-verdict :
      (headers : H) (carrier : Carrier)
      → carrier_of api headers ≡ ok carrier
      → verdict api build carrier ≡ ok tt
  unfolding carrier_of
  carrier_of-verdict headers carrier h =
      let valid = (>>-eq-ok (validate_durable_context api headers) _ h).0 in
      let d = (validate_durable_context_iff api headers).0 valid in
      subst (λ c. verdict api build c ≡ ok tt)
        (ok-carrier (sym (carrier_of-Durable api headers d) ∙ h)) (verdict-Durable headers d)
    where
      ok-carrier : {a b : Carrier} → ◌≡◌ {A = Result Text Carrier} (ok a) (ok b) → a ≡ b
      ok-carrier e = cc
