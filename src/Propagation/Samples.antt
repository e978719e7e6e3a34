-- ===== src/Propagation/Samples.antt =====
-- A header map and a context for the examples.
use parallax_telemetry_playg.Prelude.{
  refl, ◌&&◌, ◌||◌, Option, none, some, List, [], ◌∷◌, Text, codes, if◌then◌else◌, leb, ◌==◌, all,
  text_eq,
}
use parallax_telemetry_playg.Propagation.Headers.{HeaderApi}
use parallax_telemetry_playg.Propagation.Business.{Entry, ContextApi}
use parallax_telemetry_playg.Propagation.Safety.{ContextLaws}

-- The headers as pairs of a name and the bytes of a value.
abbrev pub Headers : Type 0
Headers = List (Text × Text)

abbrev values_of : Headers → Text → List Text
values_of [] name = []
values_of ((key, value) ∷ headers) name =
    if text_eq key name then value ∷ values_of headers name else values_of headers name

abbrev pub header_api : HeaderApi Headers Text
header_api = record {
  get_all = values_of;
  to_str = λ v. if all (λ b. (leb 32 b && leb b 126) || b == 9) v then some v else none;
}

abbrev pub traceparent : Text
traceparent = codes "00-4bf92f3577b34da6a3ce929d0e0e4736-00f067aa0ba902b7-01"

abbrev pub tracestate : Text
tracestate = codes "playground=commerce, acme@shop=a1"

abbrev pub carrier : Headers
carrier =
    (codes "traceparent", traceparent)
    ∷ (codes "tracestate", tracestate)
    ∷ (codes "baggage", codes "tenant.id=acme")
    ∷ []

abbrev pub Bag : Type 0
Bag = List (Entry (Unit {0}))

abbrev value_of : Bag → Text → Option Text
value_of [] key = none
value_of (e ∷ es) key = if text_eq e.key key then some e.value else value_of es key

-- A context that is its baggage.
abbrev pub bag_api : ContextApi Bag Bag (Unit {0})
bag_api = record {
  baggage = λ c. c;
  with_baggage = λ c b. b;
  iter = λ b. b;
  collect = λ es. es;
  get = value_of;
  insert = λ b key value. record { key = key; value = value; metadata = tt } ∷ b;
  insert_with_metadata = λ b e. e ∷ b;
}

pub bag_laws : ContextLaws bag_api
bag_laws = record {
  baggage_with = λ c b. refl;
  iter_collect = λ P es h. h;
  iter_insert = λ P b key value p h. (p, h);
  iter_insert_with = λ P b e p h. (p, h);
}

abbrev pub secret : Bag
secret = record { key = codes "authorization"; value = codes "hunter2"; metadata = tt } ∷ []
