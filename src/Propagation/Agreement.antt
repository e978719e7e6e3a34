-- ===== src/Propagation/Agreement.antt =====
-- When `resolve_tenant_candidates` of libs/playground-telemetry/src/propagation.rs resolves.
use parallax_telemetry_playg.Prelude.{
  suc, >>=-eq-ok, ◌<◌, ◌≡◌, ◌↔◌, refl, sym, ap, ◌∙◌, Bool, if◌then◌else◌, true, false, not, Option,
  none, some, List, [], ◌∷◌, ◌++◌, map, Text, Result, ok, err, ◌>>=◌, arith, All, length, any,
  text_eq, text_eq_iff, split, split_once, subst,
}
use parallax_telemetry_playg.Propagation.Percent.{TenantIdentityError, conflicting}
use parallax_telemetry_playg.Propagation.Tenant.{
  Identity, Candidates, normalize_tenant_candidate, request_candidates, explicit_candidates,
  tenant_of_pair, member_identity, member_candidates, members_candidates, baggage_candidates, agree,
  resolve_tenant_candidates,
}

-- What each source that names a tenant says, in order: the request, the explicit headers, the
-- members of the baggage headers.
abbrev pub request_claims : Option Text → List Identity
request_claims none = []
request_claims (some value) = normalize_tenant_candidate value ∷ []

abbrev pub member_claims : Option Text → List Identity
member_claims none = []
member_claims (some raw_value) = member_identity raw_value ∷ []

abbrev pub members_claims : List Text → List Identity
members_claims [] = []
members_claims (member ∷ members) =
    member_claims (tenant_of_pair (split_once b'=' member)) ++ members_claims members

abbrev pub baggage_claims : List Text → List Identity
baggage_claims [] = []
baggage_claims (value ∷ values) = members_claims (split b',' value) ++ baggage_claims values

abbrev pub claims : Option Text → List Text → List Text → List Identity
claims request_tenant explicit baggage =
    request_claims request_tenant
    ++ (map normalize_tenant_candidate explicit ++ baggage_claims baggage)

abbrev pub collect : List Identity → Candidates
collect [] = ok []
collect (k ∷ ks) = do c ← k; cs ← collect ks; ok (c ∷ cs)

abbrev chain : Candidates → Candidates → Candidates
chain r q = do cs ← r; ds ← q; ok (cs ++ ds)

chain-one :
    (k : Identity) (r q : Candidates)
    → chain (do c ← k; cs ← r; ok (c ∷ cs)) q ≡ (do c ← k; cs ← chain r q; ok (c ∷ cs))
chain-one (err e) r q = refl
chain-one (ok c) (err e) q = refl
chain-one (ok c) (ok cs) (err e) = refl
chain-one (ok c) (ok cs) (ok ds) = refl

chain-[] : (q : Candidates) → q ≡ chain (ok []) q
chain-[] (ok ds) = refl
chain-[] (err e) = refl

collect-++ : (ks js : List Identity) → collect (ks ++ js) ≡ chain (collect ks) (collect js)
collect-++ [] js = chain-[] (collect js)
collect-++ (k ∷ ks) js = rw (collect-++ ks js) (sym (chain-one k (collect ks) (collect js)))

explicit-collect :
    (values : List Text)
    → explicit_candidates values ≡ collect (map normalize_tenant_candidate values)
unfolding explicit_candidates
explicit-collect [] = refl
explicit-collect (value ∷ values) = rw (explicit-collect values) refl

member-collect : (o : Option Text) → member_candidates o ≡ collect (member_claims o)
unfolding member_candidates
member-collect none = refl
member-collect (some raw_value) = refl

members-collect :
    (members : List Text) → members_candidates members ≡ collect (members_claims members)
unfolding members_candidates
members-collect [] = refl
members-collect (member ∷ members) =
    let own = member_claims (tenant_of_pair (split_once b'=' member)) in
    rw (member-collect (tenant_of_pair (split_once b'=' member)))
      (rw (members-collect members) (sym (collect-++ own (members_claims members))))

baggage-collect : (values : List Text) → baggage_candidates values ≡ collect (baggage_claims values)
unfolding baggage_candidates
baggage-collect [] = refl
baggage-collect (value ∷ values) = rw (members-collect (split b',' value)) (
    rw (baggage-collect values)
      (sym (collect-++ (members_claims (split b',' value)) (baggage_claims values))))

request-collect : (o : Option Text) → request_candidates o ≡ collect (request_claims o)
unfolding request_candidates
request-collect none = refl
request-collect (some value) = refl

three :
    (r q p : Candidates)
    → (do a ← r; b ← q; c ← p; agree (a ++ (b ++ c))) ≡ (chain r (chain q p) >>= agree)
three (err e) q p = refl
three (ok a) (err e) p = refl
three (ok a) (ok b) (err e) = refl
three (ok a) (ok b) (ok c) = refl

pub resolve-collect :
    (request_tenant : Option Text) (explicit baggage : List Text)
    → resolve_tenant_candidates request_tenant explicit baggage
      ≡ (collect (claims request_tenant explicit baggage) >>= agree)
unfolding resolve_tenant_candidates
resolve-collect request_tenant explicit baggage =
    let named = map normalize_tenant_candidate explicit in
    rw (request-collect request_tenant) (
      rw (explicit-collect explicit) (
        rw (baggage-collect baggage) (
          three (collect (request_claims request_tenant)) (collect named)
            (collect (baggage_claims baggage))
          ∙ ap (λ r. chain (collect (request_claims request_tenant)) r >>= agree)
              (sym (collect-++ named (baggage_claims baggage)))
          ∙ ap (λ r. r >>= agree)
              (sym
                (collect-++ (request_claims request_tenant) (named ++ baggage_claims baggage))))))

same_iff :
    (first : Text) (cs : List Text)
    → (any (λ c. not (text_eq c first)) cs ≡ false) ↔ All (λ c. c ≡ first) cs
same_iff first [] = (λ _. tt, λ _. refl)
same_iff first (c ∷ cs) = ground (arith, text_eq_iff c first, same_iff first cs)

-- All claims are the same tenant.
ok-inj : {A : Type 0} {a b : A} → ◌≡◌ {A = Result TenantIdentityError A} (ok a) (ok b) → a ≡ b
ok-inj e = cc

collect-same :
    (t : Text) (ks : List Identity)
    → All (λ k. k ≡ ok t) ks
    → (cs : List Text) × (collect ks ≡ ok cs) × All (λ c. c ≡ t) cs × (length cs ≡ length ks)
collect-same t [] h = ([], refl, tt, refl)
collect-same t (k ∷ ks) h =
    let (cs, e, same, long) = collect-same t ks h.1 in
    (t ∷ cs, rw h.0 (rw e refl), (refl, same), ap suc long)

same-collect :
    (t : Text) (ks : List Identity) (cs : List Text)
    → collect ks ≡ ok cs
    → All (λ c. c ≡ t) cs
    → All (λ k. k ≡ ok t) ks
same-collect t [] cs e same = tt
same-collect t (err e' ∷ ks) cs e same = absurd (cc)
same-collect t (ok c ∷ ks) cs e same =
    let (ds, good, last) = >>=-eq-ok (collect ks) (λ ds. ok (c ∷ ds)) e in
    let both = subst (All (λ a. a ≡ t)) (sym (ok-inj last)) same in
    (ap ok both.0, same-collect t ks ds good both.1)

length-collect : (ks : List Identity) (cs : List Text) → collect ks ≡ ok cs → length cs ≡ length ks
length-collect [] cs e = ap length (sym (ok-inj e))
length-collect (err e' ∷ ks) cs e = absurd (cc)
length-collect (ok c ∷ ks) cs e =
    let (ds, good, last) = >>=-eq-ok (collect ks) (λ ds. ok (c ∷ ds)) e in
    sym (ap length (ok-inj last)) ∙ ap suc (length-collect ks ds good)

test_iff :
    (b : Bool) (first t : Text)
    → ((if b then err conflicting else ok first) ≡ ok t) ↔ ((b ≡ false) × (first ≡ t))
test_iff true first t = (λ e. absurd (cc), λ h. absurd (cc))
test_iff false first t = (λ e. (refl, ok-inj e), λ h. ap ok h.1)

agree_iff :
    (t : Text) (cs : List Text) → (agree cs ≡ ok t) ↔ ((0 < length cs) × All (λ c. c ≡ t) cs)
unfolding agree
agree_iff t [] = (λ e. absurd (cc), λ h. absurd (omega (arith, h.0)))
agree_iff t (first ∷ rest) =
    let test = test_iff (any (λ c. not (text_eq c first)) (first ∷ rest)) first t in
    let same = same_iff first (first ∷ rest) in
    (
      λ e. (
        omega arith,
        subst (λ a. All (λ c. c ≡ a) (first ∷ rest)) (test.0 e).1 (same.0 (test.0 e).0),
      ),
      λ h. test.1 (same.1 (subst (λ a. All (λ c. c ≡ a) (first ∷ rest)) (sym h.1.0) h.1), h.1.0),
    )

-- A tenant is resolved exactly when at least one source names a tenant and every source that
-- names one gives this tenant.
pub resolve_tenant_candidates_iff :
    (t : Text) (request_tenant : Option Text) (explicit baggage : List Text)
    → (resolve_tenant_candidates request_tenant explicit baggage ≡ ok t) ↔ (
        (0 < length (claims request_tenant explicit baggage))
        × All (λ k. k ≡ ok t) (claims request_tenant explicit baggage))
resolve_tenant_candidates_iff t request_tenant explicit baggage =
    let ks = claims request_tenant explicit baggage in
    rw (resolve-collect request_tenant explicit baggage) (
      (λ e.
          let (cs, good, last) = >>=-eq-ok (collect ks) agree e in
          let both = (agree_iff t cs).0 last in
          (
            subst (λ n. 0 < n) (length-collect ks cs good) both.0,
            same-collect t ks cs good both.1,
          )),
      (λ h.
          let (cs, e, same, long) = collect-same t ks h.1 in
          rw e ((agree_iff t cs).1 (subst (λ n. 0 < n) (sym long) h.0, same))),
    )
