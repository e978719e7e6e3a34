-- ===== src/Propagation/Headers.antt =====
-- Reading the headers of a carrier: `single_header` and `joined_header` of
-- libs/playground-telemetry/src/propagation.rs, over the header maps of the crates http and tonic.
use parallax_telemetry_playg.Prelude.{
  Option, none, some, List, [], ◌∷◌, ◌++◌, Text, codes, Result, ok, err, ok_or, ◌>>=◌, any,
  is_empty, if◌then◌else◌, join,
}

-- What the code uses of `http::HeaderMap` or `tonic::MetadataMap`: the values of a name in order,
-- and the text of a value, when it has one.
pub record HeaderApi (H V : Type 0) : Type 0 where
  pub get_all : H → Text → List V
  pub to_str : V → Option Text

-- How http builds a header map.
pub record HeaderBuild (H V : Type 0) : Type 0 where
  pub new : H
  pub insert : H → Text → V → H
  pub try_from : Text → Option V

module _ {E H V : Type 0} (api : HeaderApi H V) where
  -- The text of each value; the error when one has none.
  unfoldable pub texts_of : E → List V → Result E (List Text)
  texts_of e [] = ok []
  texts_of e (v ∷ vs) = do text ← ok_or (api.to_str v) e; texts ← texts_of e vs; ok (text ∷ texts)

abbrev pub durable_error : Text → Text → Text
durable_error name what = codes "durable W3C " ++ name ++ codes " header is " ++ what

unfoldable pub one_value : Text → List Text → Result Text (Option Text)
one_value name [] = ok none
one_value name ([] ∷ []) = err (durable_error name (codes "empty"))
one_value name ((b ∷ bs) ∷ []) = ok (some (b ∷ bs))
one_value name (first ∷ second ∷ rest) = err (durable_error name (codes "duplicated"))

unfoldable pub joined_values : Text → List Text → Result Text (Option Text)
joined_values name [] = ok none
joined_values name (first ∷ rest) =
    if any is_empty (first ∷ rest)
    then err (durable_error name (codes "empty"))
    else ok (some (join b',' (first ∷ rest)))

module _ {H V : Type 0} (api : HeaderApi H V) where
  unfoldable pub single_header : H → Text → Result Text (Option Text)
  unfolding texts_of one_value
  single_header headers name = do
    values ← texts_of api (durable_error name (codes "not valid ASCII")) (api.get_all headers name)
    one_value name values

  unfoldable pub joined_header : H → Text → Result Text (Option Text)
  unfolding texts_of joined_values
  joined_header headers name = do
    values ← texts_of api (durable_error name (codes "not valid ASCII")) (api.get_all headers name)
    joined_values name values
