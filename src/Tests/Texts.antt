-- ===== src/Tests/Texts.antt =====
-- The settings, the log and the fields of a text at work.
use libp2p_submission_sequen.Prelude.{
  ◌-◌, ◌≡◌, ◌↔◌, refl, arith, Bytes, codes, bytes_eq, [], ◌∷◌, ◌++◌, none, some, if◌then◌else◌, leb,
  length,
}
use libp2p_submission_sequen.Golang.Decimal.{value}
use libp2p_submission_sequen.Golang.Index.{index}
use libp2p_submission_sequen.Strings.{extract_field, up_to_quote}
use libp2p_submission_sequen.Strings.Laws.{LacksQuote, extract_field_found, extract_field_panics}
use libp2p_submission_sequen.Logger.{init_logger, debug_level, init_logger-level}
use libp2p_submission_sequen.Config.{load_config}
use libp2p_submission_sequen.Config.Laws.{required, unset, expected, load_config_lem}

-- Only the database is set, and the rendezvous point by the name under which it is reported.
abbrev environment : Bytes → Bytes
environment key =
    if bytes_eq key (codes "REDIS_DB")
    then codes "0"
    else if bytes_eq key (codes "RENDEZVOUS_POINT")
    then codes "relayer"
    else []

load_config_lem_example :
    load_config environment ≡ expected environment (unset environment required)
load_config_lem_example = load_config_lem environment

abbrev text : Bytes
text = codes "{\"cid\":\"bafy\",\"n\":\"1\"}"

abbrev found_text : Bytes
found_text =
    (codes "{\"" ++ (codes "cid\"" ++ codes ":")) ++ b'"' ∷ (codes "bafy" ++ b'"' ∷ codes "}")

first_place : index found_text (codes "cid\"" ++ codes ":") ≡ some (length (codes "{\""))
unfolding index
first_place = refl

bafy-LacksQuote : LacksQuote (codes "bafy")
bafy-LacksQuote = (
  λ e. omega (arith, e),
  (λ e. omega (arith, e), (λ e. omega (arith, e), (λ e. omega (arith, e), tt))),
)

extract_field_found_example : extract_field found_text (codes "cid\"") ≡ some (codes "bafy")
extract_field_found_example =
    extract_field_found (codes "{\"") (codes "cid\"") (codes "bafy") (codes "}") b'"' first_place
      bafy-LacksQuote

extract_field_panics_example : (extract_field (codes "cid:") (codes "cid") ≡ none) ↔ (
    index (codes "cid:") (codes "cid" ++ codes ":")
    ≡ some (length (codes "cid:") - length (codes "cid" ++ codes ":")))
extract_field_panics_example = extract_field_panics (codes "cid:") (codes "cid")

field_value : extract_field text (codes "cid\"") ≡ some (codes "bafy")
unfolding extract_field index up_to_quote
field_value = refl

init_logger-level_example :
    (init_logger (codes "listener" ∷ codes "4" ∷ [])).level
    ≡ (if leb (value 0 (codes "4")) 6 then value 0 (codes "4") else debug_level)
init_logger-level_example =
    init_logger-level (codes "listener") (codes "4") [] (λ e. cc) (omega arith)
