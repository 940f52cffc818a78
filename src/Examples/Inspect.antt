-- ===== src/Examples/Inspect.antt =====
-- `inspect` of application/content/service.py on concrete inputs.
use web_access_mcp_server.Base.{◌≡◌, refl, none, some, [], ◌∷◌}
use web_access_mcp_server.Base.Effects.{ok}
use web_access_mcp_server.Content.Model.{ContentFormat}
use web_access_mcp_server.Content.Repository.{
  ContentRecord, Inspection, inspects, apply_all, rows_of,
}
use web_access_mcp_server.Content.Inspect.{Inspector, inspect}
use web_access_mcp_server.Content.Inspect.Lasting.{Keeps, inspect-Keeps}
use web_access_mcp_server.Examples.Content.{content_id}
use web_access_mcp_server.Examples.Access.{row, caller}

abbrev as_text : Inspection
as_text = record {
  detected_media_type = none;
  detected_format = ContentFormat.plain_text;
  details = "text";
}

abbrev as_csv : Inspection
as_csv = record { detected_media_type = none; detected_format = ContentFormat.csv; details = "csv" }

-- another task saves its inspection first
abbrev race : Inspector
race = record {
  identify = some (λ sample r. ok as_text);
  open_stream = λ key. (1 ∷ []) ∷ [];
  sample_bytes = 10;
  max_json_bytes = 10;
  json_size = λ i. 4;
  now = 9;
  before_saving = inspects 8 content_id 3 as_csv ∷ [];
  after_refusal = [];
}

abbrev inspected : ContentRecord
inspected = record row {
  content = record (row.content) { detected_format = some ContentFormat.csv; revision = 4 };
  inspection = some as_csv;
  updated_at = 8;
}

the_winner_is_returned : inspect race caller content_id (row ∷ []) ≡ (ok as_csv, inspected ∷ [])
unfolding inspect
the_winner_is_returned = refl

inspect-Keeps_example :
    Keeps content_id as_csv (apply_all (inspected ∷ []) (inspects 10 content_id 4 as_text ∷ []))
unfolding rows_of
inspect-Keeps_example =
    inspect-Keeps race caller content_id (row ∷ []) (inspected ∷ []) row as_csv
      (inspects 10 content_id 4 as_text ∷ []) refl the_winner_is_returned
