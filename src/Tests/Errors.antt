-- ===== src/Tests/Errors.antt =====
-- An error that is read back from what it shows.
use conduit_client_python.Prelude.{◌≡◌, refl}
use conduit_client_python.Prelude.Split.{is_break, splitlines}
use conduit_client_python.Prelude.Lines.{no_break, NoBreak, NoBreak-no_break}
use conduit_client_python.Errors.{unavailable, ConduitError, to_string}
use conduit_client_python.Errors.Render.{
  Field, value, config_path_field, suggestion_field, docs_url_field, pipeline_id_field,
}
use conduit_client_python.Errors.RoundTrip.{
  has_bracket, IsPlain, read_head, read_field, read-to_string,
}

abbrev refused : ConduitError
refused = record {
  message = "connection refused";
  code = "transport.unavailable";
  grpc_status_code = unavailable;
  config_path = "";
  suggestion = "start it: conduit run";
  docs_url = "";
  pipeline_id = "pipeline-1";
}

fields_plain : (f : Field) → NoBreak (value f refused)
unfolding no_break is_break
fields_plain config_path_field = tt
fields_plain suggestion_field = NoBreak-no_break "start it: conduit run" refl
fields_plain docs_url_field = tt
fields_plain pipeline_id_field = NoBreak-no_break "pipeline-1" refl

refused-IsPlain : IsPlain refused
unfolding no_break is_break has_bracket
refused-IsPlain = record {
  code_plain = (NoBreak-no_break "transport.unavailable" refl, refl);
  message_plain = NoBreak-no_break "connection refused" refl;
  fields_plain = fields_plain;
}

read-to_string_example :
    (read_head (splitlines (to_string refused)) ≡ ("transport.unavailable", "connection refused"))
    × ((f : Field) → read_field f (splitlines (to_string refused)) ≡ value f refused)
read-to_string_example = read-to_string refused refused-IsPlain
