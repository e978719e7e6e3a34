-- ===== src/Propagation/Members.antt =====
-- The members that `validate_tracestate_header` of libs/playground-telemetry/src/propagation.rs
-- accepts.
use parallax_telemetry_playg.Prelude.{
  ℕ, Ensures, Ensures-ensure, Ensures-bind, suc, ◌+◌, ◌≤◌, ◌<◌, ◌≡◌, ◌≢◌, ◌↔◌, refl, sym, ap, ◌∙◌,
  subst, true, false, not, some, List, [], ◌∷◌, Text, codes, Result, ok, ok_or, ok_or-inv,
  >>=-eq-ok, ensure_iff, ensure-ok_iff, ◌==◌, ltb, length, length-++, is_empty, is_empty_iff, All,
  any-text_eq_iff, split, split_once, split_once-some, arith,
}
use parallax_telemetry_playg.Propagation.Bytes.{
  max_tracestate_header_bytes, max_tracestate_members, max_tracestate_member_bytes, trim_ows,
}
use parallax_telemetry_playg.Propagation.Tracestate.{
  invalid_member, valid_tracestate_key, valid_tracestate_value, valid_member, pair_key, member_key,
  validate_members, validate_tracestate_header,
}

-- `key=value` with a valid key and a valid value, in at most 256 bytes.
pub record IsEntry (key value : Text) : Type 0 where
  pub key_valid : valid_tracestate_key key ≡ true
  pub value_nonempty : 0 < length value
  pub value_valid : valid_tracestate_value value ≡ true
  pub bounded : length key + (1 + length value) ≤ max_tracestate_member_bytes

-- The raw members are the entries, each valid, with keys unlike those before it.
abbrev pub AreEntries : List Text → List Text → List (Text × Text) → Type 0
AreEntries keys [] [] = Unit {0}
AreEntries keys (raw ∷ raws) ((key, value) ∷ entries) =
    (split_once b'=' (trim_ows raw) ≡ some (key, value))
    × IsEntry key value
    × All (λ k. key ≢ k) keys
    × AreEntries (key ∷ keys) raws entries
AreEntries keys _ _ = ⊥

member_iff :
    (keys : List Text) (member key value : Text)
    → split_once b'=' member ≡ some (key, value)
    → (valid_member keys member key value ≡ true) ↔ (IsEntry key value × All (λ k. key ≢ k) keys)
unfolding valid_member
member_iff keys member key value h =
    let long : length member ≡ length key + (1 + length value) =
      ap length (split_once-some b'=' member key value h).0
      ∙ omega (arith, length-++ key (b'=' ∷ value)) in
    (
      λ e. (
        record {
          key_valid = ground arith;
          value_nonempty = ground (arith, is_empty_iff value);
          value_valid = ground arith;
          bounded = ground (arith, long);
        },
        ground (arith, any-text_eq_iff key keys),
      ),
      λ g. ground (
        arith,
        long,
        is_empty_iff member,
        is_empty_iff value,
        g.0.key_valid,
        g.0.value_nonempty,
        g.0.value_valid,
        g.0.bounded,
        (any-text_eq_iff key keys).1 g.1,
      ),
    )

pair_key_iff :
    (keys : List Text) (member key value : Text)
    → split_once b'=' member ≡ some (key, value)
    → (k : Text) → pair_key keys member (key, value) ≡ ok k
    → IsEntry key value × All (λ k. key ≢ k) keys × (key ≡ k)
unfolding pair_key
pair_key_iff keys member key value h k e =
    let valid = (ensure_iff (valid_member keys member key value) invalid_member (ok key) k).0 e in
    let entry = (member_iff keys member key value h).0 valid.0 in
    (entry.0, entry.1, ok-text valid.1)
  where
    ok-text : {a b : Text} → ◌≡◌ {A = Result Text Text} (ok a) (ok b) → a ≡ b
    ok-text e = cc

-- What a round of the loop accepts.
record Round (keys : List Text) (n : ℕ) (raw key : Text) : Type 0 where
  room : n < max_tracestate_members
  value : Text
  whole : split_once b'=' (trim_ows raw) ≡ some (key, value)
  entry : IsEntry key value
  fresh : All (λ k. key ≢ k) keys

member_key-Round :
    (keys : List Text) (n : ℕ) (raw : Text) → Ensures (Round keys n raw) (member_key keys n raw)
unfolding member_key
member_key-Round keys n raw = Ensures-ensure (not (is_empty (trim_ows raw))) _ _ λ nonempty.
    Ensures-ensure (not (ltb max_tracestate_members (suc n))) _ _ λ room.
      Ensures-bind (ok_or (split_once b'=' (trim_ows raw)) invalid_member)
        (pair_key keys (trim_ows raw))
        λ pair found. record {
          at = λ k e.
              let whole = ok_or-inv invalid_member (split_once b'=' (trim_ows raw)) found in
              let (entry, fresh, same) = pair_key_iff keys (trim_ows raw) pair.0 pair.1 whole k e in
              subst (Round keys n raw) same (record {
                room = ground (arith, room);
                value = pair.1;
                whole = whole;
                entry = entry;
                fresh = fresh;
              });
        }

key-pair_key :
    (keys : List Text) (member key value : Text)
    → valid_member keys member key value ≡ true
    → pair_key keys member (key, value) ≡ ok key
unfolding pair_key
key-pair_key keys member key value valid =
    (ensure_iff (valid_member keys member key value) invalid_member (ok key) key).1 (valid, refl)

Round-member_key :
    (keys : List Text) (n : ℕ) (raw key : Text)
    → Round keys n raw key
    → member_key keys n raw ≡ ok key
unfolding member_key
Round-member_key keys n raw key r =
    let text = (split_once-some b'=' (trim_ows raw) key r.value r.whole).0 in
    let nonempty : is_empty (trim_ows raw) ≡ false =
      (is_empty_iff (trim_ows raw)).1
        (subst (λ t. 0 < length t) (sym text) (ground (arith, length-++ key (b'=' ∷ r.value)))) in
    let valid = (member_iff keys (trim_ows raw) key r.value r.whole).1 (r.entry, r.fresh) in
    (ensure_iff (not (is_empty (trim_ows raw))) _ _ key).1 (
      ap not nonempty,
      (ensure_iff (not (ltb max_tracestate_members (suc n))) _ _ key).1
          (ground (arith, r.room), rw r.whole (key-pair_key keys (trim_ows raw) key r.value valid)),
    )

abbrev Accepted : List Text → ℕ → List Text → Type 0
Accepted keys n raws =
    (entries : List (Text × Text)) × AreEntries keys raws entries
    × (n + length raws ≤ max_tracestate_members)
    × (0 < n + length raws)

accepted :
    (keys : List Text) (n : ℕ) (raws : List Text)
    → n ≤ max_tracestate_members
    → validate_members keys n raws ≡ ok tt
    → Accepted keys n raws
unfolding validate_members
accepted keys n [] room h =
    let counted = (ensure-ok_iff (not (n == 0)) _).0 h in
    ([], tt, omega (arith, room), ground (arith, counted))
accepted keys n (raw ∷ raws) room h =
    let (key, found, rest) =
      >>=-eq-ok (member_key keys n raw) (λ key. validate_members (key ∷ keys) (suc n) raws) h in
    let r = (member_key-Round keys n raw).at key found in
    let (entries, are, few, some_one) =
      accepted (key ∷ keys) (suc n) raws (omega (arith, r.room)) rest in
    ((key, r.value) ∷ entries, (r.whole, r.entry, r.fresh, are), omega (arith, few), omega arith)

admitted :
    (keys : List Text) (n : ℕ) (raws : List Text) (entries : List (Text × Text))
    → AreEntries keys raws entries
    → n + length raws ≤ max_tracestate_members
    → 0 < n + length raws
    → validate_members keys n raws ≡ ok tt
unfolding validate_members
admitted keys n [] [] are few some_one =
    (ensure-ok_iff (not (n == 0)) _).1 (ground (arith, some_one))
admitted keys n [] (entry ∷ entries) are few some_one = absurd are
admitted keys n (raw ∷ raws) [] are few some_one = absurd are
admitted keys n (raw ∷ raws) ((key, value) ∷ entries) are few some_one =
    rw
      (Round-member_key keys n raw key (record {
        room = omega (arith, few);
        value = value;
        whole = are.0;
        entry = are.1;
        fresh = are.2;
      }))
      (admitted (key ∷ keys) (suc n) raws entries are.3 (omega (arith, few)) (omega arith))

-- A tracestate is accepted exactly when it has at most 512 bytes and its members, from one to
-- thirty-two, are `key=value` with valid keys and values, each in at most 256 bytes, no two of
-- them with the same key.
pub validate_tracestate_header_iff :
    (value : Text)
    → (validate_tracestate_header value ≡ ok tt) ↔ (
        (length value ≤ max_tracestate_header_bytes)
        × (length (split b',' value) ≤ max_tracestate_members)
        × ((entries : List (Text × Text)) × AreEntries [] (split b',' value) entries))
unfolding validate_tracestate_header
validate_tracestate_header_iff value =
    let raws = split b',' value in
    let short =
      ensure_iff (not (ltb max_tracestate_header_bytes (length value)))
        (codes "durable W3C tracestate exceeds 512 bytes") (validate_members [] 0 raws) tt in
    (
      λ h.
          let (fits, rest) = short.0 h in
          let (entries, are, few, some_one) = accepted [] 0 raws (omega arith) rest in
          (ground (arith, fits), omega (arith, few), (entries, are)),
      λ h.
          short.1 (
            ground (arith, h.0),
            admitted [] 0 raws h.2.0 h.2.1 (omega (arith, h.1)) (omega arith),
          ),
    )
