-- ===== src/Propagation/Complete.antt =====
-- Which carriers `validate_durable_context` of libs/playground-telemetry/src/propagation.rs takes.
use parallax_telemetry_playg.Prelude.{
  Ensures, Ensures-bind, Ensures-then, ◌<◌, ◌≡◌, ◌↔◌, refl, sym, ap, ◌∙◌, subst, true, false,
  Option, some, List, [], ◌∷◌, Text, codes, Result, ok, err, ok_or, ok_or-inv, ◌>>=◌, >>=-eq-ok,
  All, length, is_empty, is_empty_iff, if◌then◌else◌, any, join, arith, Bool-cases, inl, inr,
}
use parallax_telemetry_playg.Propagation.Headers.{
  HeaderApi, texts_of, durable_error, one_value, joined_values, single_header, joined_header,
}
use parallax_telemetry_playg.Propagation.Traceparent.{
  Traceparent, length-Traceparent, validate_traceparent_header, validate_traceparent_header_iff,
}
use parallax_telemetry_playg.Propagation.Tracestate.{validate_tracestate_header}
use parallax_telemetry_playg.Propagation.Baggage.{validate_baggage_header}
use parallax_telemetry_playg.Propagation.Durable.{validate_durable_context}

module _ {H V : Type 0} (api : HeaderApi H V) where
  -- The values are these texts.
  abbrev pub AreTexts : List V → List Text → Type 0
  AreTexts [] [] = Unit {0}
  AreTexts (v ∷ vs) (t ∷ ts) = (api.to_str v ≡ some t) × AreTexts vs ts
  AreTexts _ _ = ⊥

  texts_of-AreTexts :
      (e : Text) (vs : List V) (ts : List Text) → texts_of api e vs ≡ ok ts → AreTexts vs ts
  unfolding texts_of
  texts_of-AreTexts e [] ts h = subst (AreTexts []) (ok-text h) tt
    where
      ok-text : {a b : List Text} → ◌≡◌ {A = Result Text (List Text)} (ok a) (ok b) → a ≡ b
      ok-text e = cc
  texts_of-AreTexts e (v ∷ vs) ts h =
      let (text, found, more) =
        >>=-eq-ok (ok_or (api.to_str v) e)
          (λ text. texts_of api e vs >>= (λ texts. ok (text ∷ texts))) h in
      let (texts, others, last) = >>=-eq-ok (texts_of api e vs) (λ texts. ok (text ∷ texts)) more in
      subst (AreTexts (v ∷ vs)) (ok-text last)
        (ok_or-inv e (api.to_str v) found, texts_of-AreTexts e vs texts others)
    where
      ok-text : {a b : List Text} → ◌≡◌ {A = Result Text (List Text)} (ok a) (ok b) → a ≡ b
      ok-text e = cc

  AreTexts-texts_of :
      (e : Text) (vs : List V) (ts : List Text) → AreTexts vs ts → texts_of api e vs ≡ ok ts
  unfolding texts_of
  AreTexts-texts_of e [] [] h = refl
  AreTexts-texts_of e [] (t ∷ ts) h = absurd h
  AreTexts-texts_of e (v ∷ vs) [] h = absurd h
  AreTexts-texts_of e (v ∷ vs) (t ∷ ts) h = rw h.0 (rw (AreTexts-texts_of e vs ts h.1) refl)

one_value-inv :
    (name : Text) (ts : List Text) (t : Text)
    → one_value name ts ≡ ok (some t)
    → (ts ≡ t ∷ []) × (0 < length t)
unfolding one_value
one_value-inv name [] t h = absurd (cc)
one_value-inv name ([] ∷ []) t h = absurd (cc)
one_value-inv name ((b ∷ bs) ∷ []) t h =
    let same : b ∷ bs ≡ t = text_of h in
    (ap (λ x. x ∷ []) same, subst (λ x. 0 < length x) same (omega arith))
  where
    text_of : {a b : Text} → ◌≡◌ {A = Result Text (Option Text)} (ok (some a)) (ok (some b)) → a ≡ b
    text_of h = cc
one_value-inv name (a ∷ b ∷ rest) t h = absurd (cc)

one_value-one : (name t : Text) → 0 < length t → one_value name (t ∷ []) ≡ ok (some t)
unfolding one_value
one_value-one name [] h = absurd (omega (arith, h))
one_value-one name (b ∷ bs) h = refl

full_iff : (ts : List Text) → (any is_empty ts ≡ false) ↔ All (λ t. 0 < length t) ts
full_iff [] = (λ _. tt, λ _. refl)
full_iff (t ∷ ts) = ground (arith, is_empty_iff t, full_iff ts)

joined-inv :
    (name : Text) (ts : List Text) (t : Text)
    → joined_values name ts ≡ ok (some t)
    → (0 < length ts) × All (λ x. 0 < length x) ts × (join b',' ts ≡ t)
unfolding joined_values
joined-inv name [] t h = absurd (cc)
joined-inv name (x ∷ xs) t h = elim (Bool-cases (any is_empty (x ∷ xs))) [
  | inl hole ↦ absurd (holed hole h)
  | inr full ↦ (
    omega arith,
    (full_iff (x ∷ xs)).0 full,
    text_of (
        subst
          (λ b.
            (if b then err (durable_error name (codes "empty")) else ok (some (join b',' (x ∷ xs))))
            ≡ ok (some t))
          full h),
  )
]
  where
    text_of : {a b : Text} → ◌≡◌ {A = Result Text (Option Text)} (ok (some a)) (ok (some b)) → a ≡ b
    text_of h = cc

    holed : any is_empty (x ∷ xs) ≡ true → joined_values name (x ∷ xs) ≡ ok (some t) → ⊥
    holed hole h = bad (
        subst
          (λ b.
            (if b then err (durable_error name (codes "empty")) else ok (some (join b',' (x ∷ xs))))
            ≡ ok (some t))
          hole h)
      where
        bad : {e : Text} → ◌≡◌ {A = Result Text (Option Text)} (err e) (ok (some t)) → ⊥
        bad h = cc

joined-full :
    (name : Text) (ts : List Text)
    → 0 < length ts
    → All (λ x. 0 < length x) ts
    → joined_values name ts ≡ ok (some (join b',' ts))
unfolding joined_values
joined-full name [] some_one full = absurd (omega (arith, some_one))
joined-full name (x ∷ xs) some_one full = rw ((full_iff (x ∷ xs)).1 full) refl

found :
    (t : Text) (o : Option Text) (r : Result Text (Option Text)) (missing : Text)
    → r ≡ ok o
    → ok_or o missing ≡ ok t
    → r ≡ ok (some t)
found t o r missing e h = e ∙ ap ok (ok_or-inv missing o h)

module _ {H V : Type 0} (api : HeaderApi H V) (headers : H) where
  -- A complete carrier: one traceparent and one tracestate, both valid, and baggage headers
  -- that are valid together.
  pub record Durable : Type 0 where
    pub traceparent : Text
    pub tracestate : Text
    pub baggage : List Text
    pub one_traceparent :
        AreTexts api (api.get_all headers (codes "traceparent")) (traceparent ∷ [])
    pub one_tracestate : AreTexts api (api.get_all headers (codes "tracestate")) (tracestate ∷ [])
    pub all_baggage : AreTexts api (api.get_all headers (codes "baggage")) baggage
    pub tracestate_nonempty : 0 < length tracestate
    pub some_baggage : 0 < length baggage
    pub baggage_nonempty : All (λ t. 0 < length t) baggage
    pub traceparent_valid : Traceparent traceparent
    pub tracestate_valid : validate_tracestate_header tracestate ≡ ok tt
    pub baggage_valid : validate_baggage_header (join b',' baggage) ≡ ok tt

  single-inv :
      (name t : Text)
      → single_header api headers name ≡ ok (some t)
      → AreTexts api (api.get_all headers name) (t ∷ []) × (0 < length t)
  unfolding single_header
  single-inv name t h =
      let e = durable_error name (codes "not valid ASCII") in
      let (ts, found, one) =
        >>=-eq-ok (texts_of api e (api.get_all headers name)) (one_value name) h in
      let (same, nonempty) = one_value-inv name ts t one in
      (
        subst (AreTexts api (api.get_all headers name)) same
            (texts_of-AreTexts api e (api.get_all headers name) ts found),
        nonempty,
      )

  single-one :
      (name t : Text)
      → AreTexts api (api.get_all headers name) (t ∷ [])
      → 0 < length t
      → single_header api headers name ≡ ok (some t)
  unfolding single_header
  single-one name t are nonempty =
      rw
        (AreTexts-texts_of api (durable_error name (codes "not valid ASCII"))
          (api.get_all headers name) (t ∷ []) are)
        (one_value-one name t nonempty)

  record Joined (name t : Text) : Type 0 where
    texts : List Text
    are : AreTexts api (api.get_all headers name) texts
    some_one : 0 < length texts
    full : All (λ x. 0 < length x) texts
    joined : join b',' texts ≡ t

  joined_header-inv : (name t : Text) → joined_header api headers name ≡ ok (some t) → Joined name t
  unfolding joined_header
  joined_header-inv name t h =
      let e = durable_error name (codes "not valid ASCII") in
      let (ts, found, one) =
        >>=-eq-ok (texts_of api e (api.get_all headers name)) (joined_values name) h in
      let (some_one, full, same) = joined-inv name ts t one in
      record {
        texts = ts;
        are = texts_of-AreTexts api e (api.get_all headers name) ts found;
        some_one = some_one;
        full = full;
        joined = same;
      }

  header-joined :
      (name : Text) (ts : List Text)
      → AreTexts api (api.get_all headers name) ts
      → 0 < length ts
      → All (λ x. 0 < length x) ts
      → joined_header api headers name ≡ ok (some (join b',' ts))
  unfolding joined_header
  header-joined name ts are some_one full =
      rw
        (AreTexts-texts_of api (durable_error name (codes "not valid ASCII"))
          (api.get_all headers name) ts are)
        (joined-full name ts some_one full)

  validate-Durable : Ensures (λ u. Durable) (validate_durable_context api headers)
  unfolding validate_durable_context
  validate-Durable = Ensures-bind (single_header api headers (codes "traceparent")) _ λ o1 e1.
      Ensures-bind (ok_or o1 _) _ λ tp p1.
        Ensures-bind (single_header api headers (codes "tracestate")) _ λ o2 e2.
          Ensures-bind (ok_or o2 _) _ λ ts p2.
            Ensures-bind (joined_header api headers (codes "baggage")) _ λ o3 e3.
              Ensures-bind (ok_or o3 _) _ λ bg p3.
                Ensures-then (validate_traceparent_header tp) _ λ v1.
                  Ensures-then (validate_tracestate_header ts) _ λ v2. record {
                    at = λ u v3.
                        let one1 = single-inv (codes "traceparent") tp (found tp o1 _ _ e1 p1) in
                        let one2 = single-inv (codes "tracestate") ts (found ts o2 _ _ e2 p2) in
                        let all3 = joined_header-inv (codes "baggage") bg (found bg o3 _ _ e3 p3) in
                        record {
                          traceparent = tp;
                          tracestate = ts;
                          baggage = all3.texts;
                          one_traceparent = one1.0;
                          one_tracestate = one2.0;
                          all_baggage = all3.are;
                          tracestate_nonempty = one2.1;
                          some_baggage = all3.some_one;
                          baggage_nonempty = all3.full;
                          traceparent_valid = (validate_traceparent_header_iff tp).0 v1;
                          tracestate_valid = v2;
                          baggage_valid =
                              subst (λ b. validate_baggage_header b ≡ ok tt) (sym all3.joined) v3;
                        };
                  }

  Durable-validate : Durable → validate_durable_context api headers ≡ ok tt
  unfolding validate_durable_context
  Durable-validate d =
      let long : 0 < length d.traceparent =
        omega (arith, length-Traceparent d.traceparent d.traceparent_valid) in
      rw (single-one (codes "traceparent") d.traceparent d.one_traceparent long) (
        rw (single-one (codes "tracestate") d.tracestate d.one_tracestate d.tracestate_nonempty) (
          rw
            (header-joined (codes "baggage") d.baggage d.all_baggage d.some_baggage
              d.baggage_nonempty)
            (rw ((validate_traceparent_header_iff d.traceparent).1 d.traceparent_valid)
              (rw d.tracestate_valid d.baggage_valid))))

  -- A carrier of durable work is accepted exactly when it is complete: it has one traceparent and
  -- one tracestate header, and baggage headers none of which is empty; all are text; the
  -- traceparent is well formed, and the tracestate and the joined baggage are valid.
  pub validate_durable_context_iff : (validate_durable_context api headers ≡ ok tt) ↔ Durable
  validate_durable_context_iff = (validate-Durable.at tt, Durable-validate)
